-- ===== src/Labels.antt =====
-- The assignment labels and the comparisons that the S3 and the daemon controllers share: each of
-- them has its own copy of this code (`stringSlicesEqual`, `boolPtrEqual`, and the tests of the
-- annotation that marks the labels as adopted).
pub mod Compare
use opsmanager_crossplane_pr.Common.{
  Bool, true, false, ◌&&◌, not, Option, none, some, List, [], ◌∷◌, String, length, elements,
  is_some, is_none, is_empty, lookup, ◌==◌, ◌!=◌, string_eq, bool_eq, nat_eq, if◌then◌else◌,
}
use opsmanager_crossplane_pr.Managed.{Managed}

abbrev pub annotation_labels_adopted : String
annotation_labels_adopted = "opsmanager.crossplane.io/labels-adopted"

is_true : Option String → Bool
is_true none = false
is_true (some v) = v == "true"

-- `ann[annotationLabelsAdopted] == "true"`
unfoldable pub labels_adopted : {P O : Type 0} → Managed P O → Bool
unfolding is_true lookup
labels_adopted cr = is_true (lookup annotation_labels_adopted cr.annotations)

-- `Labels == nil && len(observed.Labels) > 0`
unfoldable pub adopted_labels : Option (List String) → Option (List String) → Option (List String)
adopted_labels own observed =
    if is_none own && not (is_empty (elements observed)) then observed else own

-- The loop of `stringSlicesEqual`, over slices of one length.
unfoldable pub same_elements : List String → List String → Bool
same_elements [] ys = true
same_elements (x ∷ xs) [] = true
same_elements (x ∷ xs) (y ∷ ys) = if x != y then false else same_elements xs ys

unfoldable pub string_slices_equal : List String → List String → Bool
unfolding same_elements
string_slices_equal a b = if length a != length b then false else same_elements a b

unfoldable pub bool_ptr_equal : Option Bool → Option Bool → Bool
bool_ptr_equal none none = true
bool_ptr_equal none (some b) = false
bool_ptr_equal (some a) none = false
bool_ptr_equal (some a) (some b) = a == b

-- `p != nil && !boolPtrEqual(p, o)`
unfoldable pub flag_differs : Option Bool → Option Bool → Bool
unfolding bool_ptr_equal
flag_differs p o = is_some p && not (bool_ptr_equal p o)

-- The two tests of the labels.
unfoldable pub labels_differ : Option (List String) → Option (List String) → Bool → Bool
labels_differ p o labels_adopted =
    if labels_adopted
    then not (string_slices_equal (elements p) (elements o))
    else is_some p && not (string_slices_equal (elements p) (elements o))
