-- ===== src/DeepCopy/Copying.antt =====
-- How values are copied: an interface of a type's copy and of what it reads as, the laws that make
-- the copy deep, and the interface of pairs.
pub mod Slices
pub mod References
use opsmanager_crossplane_pr.Common.{
  ℕ, zero, suc, ◌≡◌, refl, ◌∙◌, ap, ◌≢◌, ◌≤◌, ◌<◌, Option, none, some, List, [], ◌∷◌, arith,
}
use opsmanager_crossplane_pr.DeepCopy.Memory.{
  Ref, Heap, SameOn, SameOn-self, SameOn-weaken, SameOn-later, Area, Alloc, ◌>>=◌, ◌>>◌, return,
  allocate, load, store,
}

-- `view` is the value behind an `A`, and `Within P` holds where all addresses that it reaches are
-- in `P`.
pub record Copying (A V : Type 0) : Type 1 where
  pub copy : A → Alloc A
  pub view : Heap → A → V
  pub Within : (ℕ → Type 0) → Heap → A → Type 0

abbrev pub Below : ℕ → ℕ → Type 0
Below n a = a < n

abbrev pub Between : ℕ → ℕ → ℕ → Type 0
Between n m a = (n ≤ a) × (a < m)

module _ {A V : Type 0} (c : Copying A V) where
  -- What a deep copy `b` of `a`, made in the heap `h`, is in the heap `g` that it leaves: it reads
  -- as `a` did, all that it reaches is new, and what was there before is as it was.
  pub record Copied (h : Heap) (a : A) (b : A) (g : Heap) : Type 0 where
    pub grown : h.next ≤ g.next
    pub kept : SameOn (Below h.next) h g
    pub fresh : c.Within (Between h.next g.next) g b
    pub same_value : c.view g b ≡ c.view h a

  -- What a value reads as, and reaches, depends only on what it reaches.
  pub record IsLocal : Type 1 where
    pub weaken :
        (P Q : ℕ → Type 0) (h : Heap) (a : A)
        → c.Within P h a
        → ((n : ℕ) → P n → Q n)
        → c.Within Q h a
    pub within_same :
        (P : ℕ → Type 0) (h g : Heap) (a : A) → c.Within P h a → SameOn P h g → c.Within P g a
    pub view_same :
        (P : ℕ → Type 0) (h g : Heap) (a : A)
        → c.Within P h a
        → SameOn P h g
        → c.view g a ≡ c.view h a

  abbrev pub CopiedAt : Heap → A → Type 0
  CopiedAt h a = c.Within (Below h.next) h a → Copied h a (c.copy a h).0 (c.copy a h).1

  pub record IsDeep : Type 1 where
    pub local : IsLocal
    pub open local use *
    pub copied : (h : Heap) (a : A) → CopiedAt h a

-- `DeepCopy`: nil for nil, and otherwise a new struct that `DeepCopyInto` fills. The struct itself
-- is a value here; what it points to is in the heap.
abbrev pub copy_or_nil : {A : Type 0} → (A → Alloc A) → Option A → Alloc (Option A)
copy_or_nil into none = return none
copy_or_nil into (some a) = do b ← into a; return (some b)

-- A type without references.
abbrev pub flat : {A : Type 0} → Copying A A
flat = record { copy = return; view = λ h a. a; Within = λ P h a. Unit {0} }

pub flat-IsDeep : {A : Type 0} → IsDeep (flat {A = A})
flat-IsDeep = record {
  local = record {
    weaken = λ P Q h a w i. tt;
    within_same = λ P h g a w s. tt;
    view_same = λ P h g a w s. refl;
  };
  copied =
      λ h a w. record { grown = omega arith; kept = SameOn-self h; fresh = tt; same_value = refl };
}

-- Two fields, and more from pairs of pairs.
infixr 4 ◌⊗◌ ◌&◌ ◌⊕◌
abbrev pub ◌⊗◌ : Type 0 → Type 0 → Type 0
A ⊗ B = A × B

abbrev pub ◌&◌ : {A B : Type 0} → A → B → A ⊗ B
a & b = (a, b)

-- They are copied one after the other.
abbrev pub ◌⊕◌ : {A V B W : Type 0} → Copying A V → Copying B W → Copying (A ⊗ B) (V ⊗ W)
c ⊕ d = record {
  copy = λ x. (do a ← c.copy x.0; b ← d.copy x.1; return (a, b));
  view = λ h x. (c.view h x.0, d.view h x.1);
  Within = λ P h x. c.Within P h x.0 × d.Within P h x.1;
}

module _ {A V B W : Type 0} (c : Copying A V) (d : Copying B W) (cl : IsLocal c)
    (dl : IsLocal d) where
  both-Copied :
      (h : Heap) (a : A) (b : B)
      → CopiedAt c h a
      → ((g : Heap) → CopiedAt d g b)
      → CopiedAt (c ⊕ d) h (a, b)
  both-Copied h a b one two (wa, wb) =
      let g = (c.copy a h).1 in
      let first = one wa in
      let wb' =
        dl.weaken (Below h.next) (Below g.next) g b (dl.within_same _ h g b wb first.kept)
          (λ n l. omega (arith, first.grown)) in
      let second = two g wb' in
      let k = (d.copy b g).1 in
      let a' = (c.copy a h).0 in
      let old : SameOn (Between h.next g.next) g k = SameOn-weaken second.kept (λ n l. l.1) in
      record {
        grown = omega (arith, first.grown, second.grown);
        kept = SameOn-later first.kept second.kept (λ n l. omega (arith, first.grown));
        fresh = (
          cl.weaken _ _ k a' (cl.within_same _ g k a' first.fresh old)
              (λ n l. (l.0, omega (arith, second.grown))),
          dl.weaken _ _ k (d.copy b g).0 second.fresh (λ n l. (omega (arith, first.grown), l.1)),
        );
        same_value = λ i. (
          (cl.view_same _ g k a' first.fresh old ∙ first.same_value) i,
          (second.same_value ∙ dl.view_same _ h g b wb first.kept) i,
        );
      }

  both-IsLocal : IsLocal (c ⊕ d)
  both-IsLocal = record {
    weaken = λ P Q h x w i. (cl.weaken P Q h x.0 w.0 i, dl.weaken P Q h x.1 w.1 i);
    within_same = λ P h g x w s. (cl.within_same P h g x.0 w.0 s, dl.within_same P h g x.1 w.1 s);
    view_same = λ P h g x w s i. (cl.view_same P h g x.0 w.0 s i, dl.view_same P h g x.1 w.1 s i);
  }

pub both-IsDeep :
    {A V B W : Type 0} {c : Copying A V} {d : Copying B W} → IsDeep c → IsDeep d → IsDeep (c ⊕ d)
both-IsDeep {c = c} {d = d} cd dd = record {
  local = both-IsLocal c d cd.local dd.local;
  copied =
      λ h x. both-Copied c d cd.local dd.local h x.0 x.1 (cd.copied h x.0) (λ g. dd.copied g x.1);
}

-- A struct whose fields `f` are copied, and whose others have no references: `put` sets those
-- fields, and `show` is the value of a struct with the values of those fields.
module _ {S T V W : Type 0} (f : S → T) (put : S → T → S) (show : S → W → V) (c : Copying T W) where
  abbrev pub of_fields : Copying S V
  of_fields = record {
    copy = λ s. (do t ← c.copy (f s); return (put s t));
    view = λ h s. show s (c.view h (f s));
    Within = λ P h s. c.Within P h (f s);
  }

  pub of_fields-IsDeep :
      IsDeep c
      → ((s : S) (t : T) → f (put s t) ≡ t)
      → ((s : S) (t : T) (w : W) → show (put s t) w ≡ show s w)
      → IsDeep of_fields
  of_fields-IsDeep deep f-put show-put = record {
    local = record {
      weaken = λ P Q h s w i. deep.weaken P Q h (f s) w i;
      within_same = λ P h g s w k. deep.within_same P h g (f s) w k;
      view_same = λ P h g s w k. ap (show s) (deep.view_same P h g (f s) w k);
    };
    copied = λ h s w.
        let d = deep.copied h (f s) w in
        let (t, g) = c.copy (f s) h in
        record {
          grown = d.grown;
          kept = d.kept;
          fresh = rw (f-put s t) d.fresh;
          same_value =
              show-put s t (c.view g (f (put s t)))
              ∙ ap (show s) (ap (c.view g) (f-put s t) ∙ d.same_value);
        };
  }
