-- ===== src/DeepCopy/Copying/References.antt =====
-- What is behind a pointer, or the array of a slice.
use opsmanager_crossplane_pr.Common.{ℕ, suc, ◌≡◌, refl, ◌∙◌, ap, ◌<◌, Option, none, some, arith}
use opsmanager_crossplane_pr.DeepCopy.Memory.{
  Ref, Heap, SameOn, SameOn-self, SameOn-next, SameOn-weaken, SameOn-later, Area, Alloc, ◌>>=◌,
  ◌>>◌, return, allocate, load, store,
}
use opsmanager_crossplane_pr.DeepCopy.Copying.{
  Copying, Below, Between, Copied, CopiedAt, IsDeep, flat, flat-IsDeep,
}

module _ {A V : Type 0} ⦃area : Area A⦄ (c : Copying A V) where
  -- `if in != nil { *out = new(A); … }`, with the copy of what the pointer leads to, and likewise
  -- with `make` for a slice.
  unfoldable pub copy_behind : Option (Ref A) → Alloc (Option (Ref A))
  copy_behind none = return none
  copy_behind (some r) = do q ← allocate; a ← load r; b ← c.copy a; store q b; return (some q)

  abbrev pub view_behind : Heap → Option (Ref A) → Option V
  view_behind h none = none
  view_behind h (some r) = some (c.view h (area.read h r.address))

  abbrev pub WithinBehind : (ℕ → Type 0) → Heap → Option (Ref A) → Type 0
  WithinBehind P h none = Unit
  WithinBehind P h (some r) = P r.address × c.Within P h (area.read h r.address)

  abbrev pub behind : Copying (Option (Ref A)) (Option V)
  behind = record { copy = copy_behind; view = view_behind; Within = WithinBehind }

module _ {A V : Type 0} ⦃area : Area A⦄ (c : Copying A V) (deep : IsDeep c) where
  behind-weaken :
      (P Q : ℕ → Type 0) (h : Heap) (o : Option (Ref A))
      → WithinBehind c P h o
      → ((n : ℕ) → P n → Q n)
      → WithinBehind c Q h o
  behind-weaken P Q h none w i = tt
  behind-weaken P Q h (some r) (p, w) i = (i r.address p, deep.weaken P Q h _ w i)

  behind-within :
      (P : ℕ → Type 0) (h g : Heap) (o : Option (Ref A))
      → WithinBehind c P h o
      → SameOn P h g
      → WithinBehind c P g o
  behind-within P h g none w s = tt
  behind-within P h g (some r) (p, w) s =
      (p, rw (area.read_same P h g s r.address p) (deep.within_same P h g _ w s))

  behind-view :
      (P : ℕ → Type 0) (h g : Heap) (o : Option (Ref A))
      → WithinBehind c P h o
      → SameOn P h g
      → view_behind c g o ≡ view_behind c h o
  behind-view P h g none w s = refl
  behind-view P h g (some r) (p, w) s =
      ap some
        (ap (λ a. c.view g a) (area.read_same P h g s r.address p) ∙ deep.view_same P h g _ w s)

  -- The heap once the new cell is there.
  abbrev begun : Heap → Heap
  begun h = area.write h.next area.zero_value (record h { next = suc h.next })

  begun_same : (h : Heap) → SameOn (Below h.next) h (begun h)
  begun_same h =
      SameOn-later (SameOn-next h (suc h.next))
        (area.write_same (Below h.next) h.next area.zero_value (record h { next = suc h.next })
          (λ b l e. omega arith))
        (λ a l. l)

  next-begun : (h : Heap) → (begun h).next ≡ suc h.next
  next-begun h = area.next-write h.next area.zero_value (record h { next = suc h.next })

  -- The cell `n` gets a copy `y` of what `a` was, and all it reaches lies behind that cell.
  stored :
      (n : ℕ) (h g : Heap) (a y : A)
      → n < h.next
      → Copied c h a y g
      → let k = area.write n y g in
        (c.Within (Between (suc n) k.next) k (area.read k n))
        × (c.view k (area.read k n) ≡ c.view h a)
        × SameOn (Below n) h k
  stored n h g a y l d =
      let k = area.write n y g in
      let same : SameOn (Between h.next g.next) g k =
        area.write_same _ n y g (λ b p e. omega (arith, l, p.0, e)) in
      let next_same = area.next-write n y g in
      let back = area.read-write n y g in
      (
        rw back (
            deep.weaken _ _ k y (deep.within_same _ g k y d.fresh same)
              (λ b p. (omega (arith, l, p.0), omega (arith, p.1, next_same)))),
        ap (λ z. c.view k z) back ∙ deep.view_same _ g k y d.fresh same ∙ d.same_value,
        SameOn-later (SameOn-weaken d.kept (λ b p. omega (arith, l, p)))
            (area.write_same (Below n) n y g (λ b p e. omega (arith, p, e))) (λ b p. p),
      )

  behind-CopiedAt : (h : Heap) (o : Option (Ref A)) → CopiedAt (behind c) h o
  unfolding copy_behind allocate
  behind-CopiedAt h none w = record {
    grown = omega arith;
    kept = SameOn-self h;
    fresh = tt;
    same_value = refl;
  }
  behind-CopiedAt h (some r) (l, w) =
      let g = begun h in
      let same = begun_same h in
      let grown = next-begun h in
      let x = area.read g r.address in
      let read_back = area.read_same (Below h.next) h g same r.address l in
      let inside : c.Within (Below g.next) g x = rw read_back (
        deep.weaken (Below h.next) _ g _ (deep.within_same _ h g _ w same)
          (λ b p. omega (arith, p, grown))) in
      let d = deep.copied g x inside in
      let k = (c.copy x g).1 in
      let y = (c.copy x g).0 in
      let (fresh, value, kept) = stored h.next g k x y (omega (arith, grown)) d in
      let next_same = area.next-write h.next y k in
      record {
        grown = omega (arith, grown, d.grown, next_same);
        kept = SameOn-later same kept (λ b p. p);
        fresh = (
          (omega arith, omega (arith, grown, d.grown, next_same)),
          deep.weaken _ _ _ _ fresh (λ b p. (omega (arith, p.0), p.1)),
        );
        same_value = ap some (
            value
            ∙ ap (λ z. c.view g z) read_back
            ∙ deep.view_same (Below h.next) h g (area.read h r.address) w same);
      }

  pub behind-IsDeep : IsDeep (behind c)
  behind-IsDeep = record {
    local = record { weaken = behind-weaken; within_same = behind-within; view_same = behind-view };
    copied = behind-CopiedAt;
  }

-- A pointer to a value without references, or a slice of such values.
module _ {A : Type 0} ⦃area : Area A⦄ where
  abbrev pub copy_value : Option (Ref A) → Alloc (Option (Ref A))
  copy_value = copy_behind flat

  abbrev pub value : Copying (Option (Ref A)) (Option A)
  value = behind flat

  pub value-IsDeep : IsDeep value
  value-IsDeep = behind-IsDeep flat flat-IsDeep
