-- ===== src/DeepCopy/Copying/Slices.antt =====
-- The elements of a slice.
use opsmanager_crossplane_pr.Common.{ℕ, ◌≡◌, refl, List, [], ◌∷◌, arith}
use opsmanager_crossplane_pr.DeepCopy.Memory.{Heap, SameOn, SameOn-self, Alloc, ◌>>=◌, return}
use opsmanager_crossplane_pr.DeepCopy.Copying.{Copying, CopiedAt, IsLocal, IsDeep, both-Copied}

-- The elements of a slice, copied in their order.
module _ {A V : Type 0} (c : Copying A V) where
  unfoldable pub copy_each : List A → Alloc (List A)
  copy_each [] = return []
  copy_each (a ∷ rest) = do b ← c.copy a; bs ← copy_each rest; return (b ∷ bs)

  unfoldable pub view_each : Heap → List A → List V
  view_each h [] = []
  view_each h (a ∷ rest) = c.view h a ∷ view_each h rest

  abbrev pub EachWithin : (ℕ → Type 0) → Heap → List A → Type 0
  EachWithin P h [] = Unit
  EachWithin P h (a ∷ rest) = c.Within P h a × EachWithin P h rest

  abbrev pub each : Copying (List A) (List V)
  each = record { copy = copy_each; view = view_each; Within = EachWithin }

module _ {A V : Type 0} (c : Copying A V) (deep : IsDeep c) where
  each-weaken :
      (P Q : ℕ → Type 0) (h : Heap) (rest : List A)
      → EachWithin c P h rest
      → ((n : ℕ) → P n → Q n)
      → EachWithin c Q h rest
  each-weaken P Q h [] w i = tt
  each-weaken P Q h (a ∷ rest) (w, ws) i = (deep.weaken P Q h a w i, each-weaken P Q h rest ws i)

  each-within :
      (P : ℕ → Type 0) (h g : Heap) (rest : List A)
      → EachWithin c P h rest
      → SameOn P h g
      → EachWithin c P g rest
  each-within P h g [] w s = tt
  each-within P h g (a ∷ rest) (w, ws) s =
      (deep.within_same P h g a w s, each-within P h g rest ws s)

  each-view :
      (P : ℕ → Type 0) (h g : Heap) (rest : List A)
      → EachWithin c P h rest
      → SameOn P h g
      → view_each c g rest ≡ view_each c h rest
  unfolding view_each
  each-view P h g [] w s = refl
  each-view P h g (a ∷ rest) (w, ws) s =
      λ i. deep.view_same P h g a w s i ∷ each-view P h g rest ws s i

  each-IsLocal : IsLocal (each c)
  each-IsLocal = record { weaken = each-weaken; within_same = each-within; view_same = each-view }

  each-CopiedAt : (h : Heap) (rest : List A) → CopiedAt (each c) h rest
  unfolding copy_each view_each
  each-CopiedAt h [] w = record {
    grown = omega arith;
    kept = SameOn-self h;
    fresh = tt;
    same_value = refl;
  }
  each-CopiedAt h (a ∷ rest) w =
      let pair =
        both-Copied c (each c) deep.local each-IsLocal h a rest (deep.copied h a)
          (λ g. each-CopiedAt g rest) w in
      record {
        grown = pair.grown;
        kept = pair.kept;
        fresh = pair.fresh;
        same_value = λ i. (pair.same_value i).0 ∷ (pair.same_value i).1;
      }

  pub each-IsDeep : IsDeep (each c)
  each-IsDeep = record { local = each-IsLocal; copied = each-CopiedAt }
