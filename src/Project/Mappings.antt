-- ===== src/Project/Mappings.antt =====
-- `lateInitProject`, `ldapMappingsMatch`, `fromSDKMappings` and `toSDKMappings`.
pub mod Order
pub mod Matching
pub mod Agreement
pub mod RoleMap
use Prim.Native.Nat.{Ordering}
use Prim.Native.String.{compare}
use opsmanager_crossplane_pr.Common.{
  Bool, true, false, ◌&&◌, not, Option, none, some, List, [], ◌∷◌, map, String, length, is_empty,
  insert, lookup, ◌!=◌, nat_eq, if◌then◌else◌,
}
use opsmanager_crossplane_pr.Labels.{string_slices_equal}
use opsmanager_crossplane_pr.Project.{
  LdapGroupMapping, OpsManagerProjectParameters, ApiMapping, ApiProject,
}

-- `a < b` or `a == b` on Go's strings, which are compared byte by byte.
unfoldable pub text_le : String → String → Bool
text_le a b = elim (compare a b) [ Ordering.gt ↦ false | _ ↦ true ]

unfoldable pub insert_sorted : String → List String → List String
insert_sorted x [] = x ∷ []
insert_sorted x (y ∷ ys) = if text_le x y then x ∷ y ∷ ys else y ∷ insert_sorted x ys

-- `sort.Strings`
unfoldable pub sort_strings : List String → List String
unfolding insert_sorted text_le
sort_strings [] = []
sort_strings (x ∷ xs) = insert_sorted x (sort_strings xs)

-- The first loop: sorted groups by role, a later mapping of a role over an earlier one.
unfoldable pub observed_map :
    List (String × List String) → List ApiMapping → List (String × List String)
observed_map m [] = m
observed_map m (o ∷ os) = observed_map (insert o.role_name (sort_strings o.ldap_groups) m) os

-- The comparison of one mapping with what the map has for its role.
unfoldable pub groups_match : List String → Option (List String) → Bool
groups_match groups none = false
groups_match groups (some obs) = string_slices_equal (sort_strings groups) obs

-- The second loop.
unfoldable pub all_match : List (String × List String) → List LdapGroupMapping → Bool
all_match m [] = true
all_match m (d ∷ ds) =
    if not (groups_match d.ldap_groups (lookup d.role_name m)) then false else all_match m ds

unfoldable pub ldap_mappings_match : List LdapGroupMapping → List ApiMapping → Bool
ldap_mappings_match desired observed =
    if length desired != length observed
    then false
    else all_match (observed_map [] observed) desired

unfoldable pub from_sdk_mappings : List ApiMapping → List LdapGroupMapping
from_sdk_mappings [] = []
from_sdk_mappings (m ∷ ms) =
    record { role_name = m.role_name; ldap_groups = m.ldap_groups } ∷ from_sdk_mappings ms

unfoldable pub to_sdk_mappings : List LdapGroupMapping → List ApiMapping
to_sdk_mappings [] = []
to_sdk_mappings (m ∷ ms) =
    record { role_name = m.role_name; ldap_groups = m.ldap_groups } ∷ to_sdk_mappings ms

unfoldable pub late_init_project :
    OpsManagerProjectParameters → ApiProject → OpsManagerProjectParameters
late_init_project p o =
    if is_empty p.ldap_group_mappings && not (is_empty o.ldap_group_mappings)
    then record p { ldap_group_mappings = from_sdk_mappings o.ldap_group_mappings }
    else p
