-- ===== src/Labels/Compare.antt =====
-- What the comparisons mean.
use opsmanager_crossplane_pr.Common.{
  ◌≡◌, refl, ◌≢◌, ◌↔◌, ◌⊎◌, inl, inr, Bool, true, false, not, List, [], ◌∷◌, Option, none, some,
  String, length, elements, string_eq, bool_eq, nat_eq, arith,
}
use opsmanager_crossplane_pr.Labels.{
  same_elements, string_slices_equal, flag_differs, labels_differ,
}

pub same_elements-eq : (a b : List String) → length a ≡ length b → same_elements a b ≡ true → a ≡ b
unfolding same_elements
same_elements-eq [] [] l h = refl
same_elements-eq [] (y ∷ ys) l h = absurd (omega arith)
same_elements-eq (x ∷ xs) [] l h = absurd (omega arith)
same_elements-eq (x ∷ xs) (y ∷ ys) l h = ground (arith, same_elements-eq xs ys (omega arith))

pub same_elements_self : (a : List String) → same_elements a a ≡ true
unfolding same_elements
same_elements_self [] = refl
same_elements_self (x ∷ xs) = ground (arith, same_elements_self xs)

-- The comparison of slices is the equality of their elements, a nil slice being empty.
pub string_slices_equal_iff : (a b : List String) → (string_slices_equal a b ≡ true) ↔ (a ≡ b)
unfolding string_slices_equal
string_slices_equal_iff a b = (
  λ h. same_elements-eq a b (ground arith) (ground arith),
  λ e. rw e (ground (arith, same_elements_self b)),
)

-- The API has the value of a flag that the spec sets.
abbrev pub Agrees : Option Bool → Option Bool → Type 0
Agrees p o = (b : Bool) → p ≡ some b → o ≡ some b

pub flag_differs_iff : (p o : Option Bool) → (flag_differs p o ≡ false) ↔ Agrees p o
unfolding flag_differs
flag_differs_iff none o = (λ h b e. cc, λ h. refl)
flag_differs_iff (some a) none = (λ h b e. cc, λ h. cc (h a refl))
flag_differs_iff (some a) (some b) = (λ h c e. ground arith, λ h. ground (arith, h a refl))

pub labels_differ_iff :
    (p o : Option (List String)) (labels_adopted : Bool)
    → (labels_differ p o labels_adopted ≡ false)
      ↔ ((labels_adopted ≡ true) ⊎ (p ≢ none) → elements p ≡ elements o)
unfolding labels_differ
labels_differ_iff p o true = (λ h n. slices_differ_iff.0 h, λ n. slices_differ_iff.1 (n (inl refl)))
  where
    slices_differ_iff :
        (not (string_slices_equal (elements p) (elements o)) ≡ false) ↔ (elements p ≡ elements o)
    slices_differ_iff = ground (arith, string_slices_equal_iff (elements p) (elements o))
labels_differ_iff none o false = (λ h n. ground arith, λ n. refl)
labels_differ_iff (some l) o false =
    (λ h n. slices_differ_iff.0 h, λ n. slices_differ_iff.1 (n (inr (λ e. cc))))
  where
    slices_differ_iff : (not (string_slices_equal l (elements o)) ≡ false) ↔ (l ≡ elements o)
    slices_differ_iff = ground (arith, string_slices_equal_iff l (elements o))
