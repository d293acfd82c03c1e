-- ===== src/Project/Mappings/Order.antt =====
-- Sorting only reorders.
mod Texts
use std.HLevel.{hedberg}
use mathlib.Core.Logic.{∥∥₁_elim}
use mathlib.Core.List.Perm
use mathlib.Core.List.{Perm, Permᴰ}
use opsmanager_crossplane_pr.Common.{
  ◌≡◌, refl, ap, ◌∙◌, sym, List, [], ◌∷◌, String, string_eq, Bool-cases, inl, inr, true, false,
  arith,
}
use mathlib.Core.Bool.{cond, false≢true}
use opsmanager_crossplane_pr.Project.Mappings.Order.Texts.{
  text_le-Precedes, Precedes-total, Precedes-antisym, Precedes-trans,
}
use opsmanager_crossplane_pr.Project.Mappings.{text_le, insert_sorted, sort_strings}

insert_sorted-perm : (x : String) (ys : List String) → Perm (insert_sorted x ys) (x ∷ ys)
unfolding insert_sorted
insert_sorted-perm x [] = Perm.refl (x ∷ [])
insert_sorted-perm x (y ∷ ys) = elim (Bool-cases (text_le x y)) [
  | inl le ↦ rw (le, cond) (Perm.refl (x ∷ y ∷ ys))
  | inr gt ↦ rw (gt, cond) (Perm.trans (Perm.cons y (insert_sorted-perm x ys)) (Perm.swap x y ys))
]

pub sort_strings-perm : (xs : List String) → Perm (sort_strings xs) xs
unfolding sort_strings
sort_strings-perm [] = Perm.refl []
sort_strings-perm (x ∷ xs) =
    Perm.trans (insert_sorted-perm x (sort_strings xs)) (Perm.cons x (sort_strings-perm xs))

-- Lists that sort to the same list are permutations of each other.
pub perm_of_sorted : (xs ys : List String) → sort_strings xs ≡ sort_strings ys → Perm xs ys
perm_of_sorted xs ys e = Perm.trans (Perm.symm (sort_strings-perm xs)) (rw e (sort_strings-perm ys))

text_le-total : (x y : String) → text_le x y ≡ false → text_le y x ≡ true
text_le-total x y h = elim (Precedes-total x y) [
  | inl p ↦ absurd (false≢true (sym h ∙ (text_le-Precedes x y).1 p))
  | inr p ↦ (text_le-Precedes y x).1 p
]

text_le-antisym : (x y : String) → text_le x y ≡ true → text_le y x ≡ true → x ≡ y
text_le-antisym x y h k =
    Precedes-antisym x y ((text_le-Precedes x y).0 h) ((text_le-Precedes y x).0 k)

text_le_trans : (x y z : String) → text_le x y ≡ true → text_le y z ≡ true → text_le x z ≡ true
text_le_trans x y z h k =
    (text_le-Precedes x z).1
      (Precedes-trans x y z ((text_le-Precedes x y).0 h) ((text_le-Precedes y z).0 k))

-- Two texts may be inserted in either order.
insert_sorted_comm :
    (x y : String) (zs : List String)
    → insert_sorted x (insert_sorted y zs) ≡ insert_sorted y (insert_sorted x zs)
unfolding insert_sorted
insert_sorted_comm x y [] = grind (arith, text_le-total x y, text_le-total y x, text_le-antisym x y)
insert_sorted_comm x y (z ∷ zs) = grind (
  arith,
  insert_sorted_comm x y zs,
  text_le-total x y,
  text_le-total y x,
  text_le-antisym x y,
  text_le-total x z,
  text_le-total y z,
  text_le_trans x y z,
  text_le_trans y x z,
)

sorted_same : {xs ys : List String} → Permᴰ xs ys → sort_strings xs ≡ sort_strings ys
unfolding sort_strings
sorted_same Permᴰ.nil = refl
sorted_same (Permᴰ.cons e p) = λ i. insert_sorted (e i) (sorted_same p i)
sorted_same (Permᴰ.swap {a = x} {b = y} {l = zs} e f) =
    insert_sorted_comm x y (sort_strings zs)
    ∙ (λ i. insert_sorted (f i) (insert_sorted (e i) (sort_strings zs)))
sorted_same (Permᴰ.trans p q) = sorted_same p ∙ sorted_same q

text_set : IsSet String
text_set = hedberg string_eq.dec

texts_set : IsSet (List String)
texts_set = hlevel text_set

-- Permutations of each other sort to the same list.
pub sorted_of_perm : (xs ys : List String) → Perm xs ys → sort_strings xs ≡ sort_strings ys
sorted_of_perm xs ys p = ∥∥₁_elim p (texts_set (sort_strings xs) (sort_strings ys)) sorted_same
