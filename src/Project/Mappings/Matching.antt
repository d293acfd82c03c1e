-- ===== src/Project/Mappings/Matching.antt =====
-- What it means that the LDAP group mappings match.
use mathlib.Core.List.{Perm}
use opsmanager_crossplane_pr.Common.{
  suc, ◌≡◌, ◌↔◌, refl, ◌≢◌, ◌∙◌, ap, true, Option, none, some, List, [], ◌∷◌, String, length,
  lookup, insert, lookup-insert, ◌==◌, string_eq, nat_eq, if◌then◌else◌, arith,
}
use opsmanager_crossplane_pr.Labels.Compare.{string_slices_equal_iff}
use opsmanager_crossplane_pr.Project.{LdapGroupMapping, ApiMapping}
use opsmanager_crossplane_pr.Project.Mappings.{
  sort_strings, observed_map, groups_match, all_match, ldap_mappings_match, from_sdk_mappings,
  to_sdk_mappings,
}
use opsmanager_crossplane_pr.Project.Mappings.Order.{perm_of_sorted, sorted_of_perm}

unfoldable pub or_this : String → ApiMapping → Option (List String) → Option (List String)
or_this role m (some g) = some g
or_this role m none = if m.role_name == role then some m.ldap_groups else none

-- The groups of the last mapping of a role.
unfoldable pub last_groups : String → List ApiMapping → Option (List String)
unfolding or_this
last_groups role [] = none
last_groups role (m ∷ ms) = or_this role m (last_groups role ms)

sorted_or : Option (List String) → Option (List String) → Option (List String)
sorted_or none old = old
sorted_or (some g) old = some (sort_strings g)

lookup-observed_map :
    (role : String) (m : List (String × List String)) (os : List ApiMapping)
    → lookup role (observed_map m os) ≡ sorted_or (last_groups role os) (lookup role m)
unfolding observed_map last_groups or_this sorted_or
lookup-observed_map role m [] = refl
lookup-observed_map role m (o ∷ os) = ground (
  arith,
  lookup-observed_map role (insert o.role_name (sort_strings o.ldap_groups) m) os,
  lookup-insert role o.role_name (sort_strings o.ldap_groups) m,
)

groups_of_match :
    (groups : List String) (o : Option (List String))
    → groups_match groups (sorted_or o none) ≡ true
    → (g : List String) × (o ≡ some g) × Perm groups g
unfolding groups_match sorted_or
groups_of_match groups none h = absurd (ground arith)
groups_of_match groups (some g) h =
    (g, refl, perm_of_sorted groups g ((string_slices_equal_iff _ _).0 h))

-- Each desired mapping has, in the last observed mapping of its role, its groups in some order.
abbrev pub EachHolds : List LdapGroupMapping → List ApiMapping → Type 0
EachHolds [] observed = Unit
EachHolds (d ∷ ds) observed =
    ((g : List String) × (last_groups d.role_name observed ≡ some g) × Perm d.ldap_groups g)
    × EachHolds ds observed

all_match-EachHolds :
    (ds : List LdapGroupMapping) (os : List ApiMapping)
    → all_match (observed_map [] os) ds ≡ true
    → EachHolds ds os
unfolding all_match lookup
all_match-EachHolds [] os h = tt
all_match-EachHolds (d ∷ ds) os h =
    let head : groups_match d.ldap_groups (lookup d.role_name (observed_map [] os)) ≡ true =
      ground arith in
    (
      groups_of_match d.ldap_groups (last_groups d.role_name os) (rw lookup-observed_map at head),
      all_match-EachHolds ds os (ground arith),
    )

match_of_groups :
    (groups g : List String) → Perm groups g → groups_match groups (sorted_or (some g) none) ≡ true
unfolding groups_match sorted_or
match_of_groups groups g p =
    (string_slices_equal_iff (sort_strings groups) (sort_strings g)).1 (sorted_of_perm groups g p)

EachHolds-all_match :
    (ds : List LdapGroupMapping) (os : List ApiMapping)
    → EachHolds ds os
    → all_match (observed_map [] os) ds ≡ true
unfolding all_match lookup
EachHolds-all_match [] os h = refl
EachHolds-all_match (d ∷ ds) os ((g, e, p), hs) = ground (
  arith,
  lookup-observed_map d.role_name [] os,
  match_of_groups d.ldap_groups g p,
  EachHolds-all_match ds os hs,
)

pub ldap_mappings_match_iff :
    (desired : List LdapGroupMapping) (observed : List ApiMapping)
    → (ldap_mappings_match desired observed ≡ true)
      ↔ ((length desired ≡ length observed) × EachHolds desired observed)
unfolding ldap_mappings_match
ldap_mappings_match_iff ds os = (
  λ h. (ground arith, all_match-EachHolds ds os (ground arith)),
  λ (e, hs). ground (arith, e, EachHolds-all_match ds os hs),
)

-- If the mappings match, there are as many desired as observed ones, and each desired mapping has
-- its groups, in some order, in the last observed mapping of its role.
pub ldap_mappings_match-EachHolds :
    (desired : List LdapGroupMapping) (observed : List ApiMapping)
    → ldap_mappings_match desired observed ≡ true
    → (length desired ≡ length observed) × EachHolds desired observed
ldap_mappings_match-EachHolds ds os h = (ldap_mappings_match_iff ds os).0 h

-- A mapping that the spec has twice matches that mapping and any one of another role in the API: the
-- other role is not noticed.
pub duplicate_hides_role :
    (m : LdapGroupMapping) (x : ApiMapping)
    → m.role_name ≢ x.role_name
    → ldap_mappings_match
        (m ∷ m ∷ [])
        (record { role_name = m.role_name; ldap_groups = m.ldap_groups } ∷ x ∷ [])
      ≡ true
unfolding ldap_mappings_match all_match groups_match nat_eq
duplicate_hides_role m x h =
    let os = record { role_name = m.role_name; ldap_groups = m.ldap_groups } ∷ x ∷ [] in
    let found : lookup m.role_name (observed_map [] os) ≡ some (sort_strings m.ldap_groups) =
      lookup-observed_map m.role_name [] os
      ∙ (unfold last_groups sorted_or or_this lookup in ground arith) in
    ground (
      arith,
      found,
      (string_slices_equal_iff (sort_strings m.ldap_groups) (sort_strings m.ldap_groups)).1 refl,
    )

-- Each mapping is the last of its role, with the same groups.
abbrev pub EachSame : List LdapGroupMapping → List ApiMapping → Type 0
EachSame [] os = Unit
EachSame (d ∷ ds) os = (last_groups d.role_name os ≡ some d.ldap_groups) × EachSame ds os

EachSame-later :
    (ds : List LdapGroupMapping) (o : ApiMapping) (os : List ApiMapping)
    → EachSame ds os
    → EachSame ds (o ∷ os)
unfolding last_groups or_this
EachSame-later [] o os h = tt
EachSame-later (d ∷ ds) o os (h, hs) = (ground arith, EachSame-later ds o os hs)

EachSame-all_match :
    (ds : List LdapGroupMapping) (os : List ApiMapping)
    → EachSame ds os
    → all_match (observed_map [] os) ds ≡ true
unfolding all_match groups_match sorted_or lookup
EachSame-all_match [] os h = refl
EachSame-all_match (d ∷ ds) os (h, hs) = ground (
  arith,
  lookup-observed_map d.role_name [] os,
  (string_slices_equal_iff (sort_strings d.ldap_groups) (sort_strings d.ldap_groups)).1 refl,
  EachSame-all_match ds os hs,
)

-- No role has two mappings.
abbrev pub NodupRoles : List ApiMapping → Type 0
NodupRoles [] = Unit
NodupRoles (m ∷ ms) = (last_groups m.role_name ms ≡ none) × NodupRoles ms

pub from_sdk-EachSame : (os : List ApiMapping) → NodupRoles os → EachSame (from_sdk_mappings os) os
unfolding from_sdk_mappings last_groups or_this
from_sdk-EachSame [] u = tt
from_sdk-EachSame (o ∷ os) (fresh, u) =
    (ground arith, EachSame-later (from_sdk_mappings os) o os (from_sdk-EachSame os u))

pub length-from_sdk_mappings : (os : List ApiMapping) → length (from_sdk_mappings os) ≡ length os
unfolding from_sdk_mappings
length-from_sdk_mappings [] = refl
length-from_sdk_mappings (o ∷ os) = ap suc (length-from_sdk_mappings os)

pub from_sdk-to_sdk : (ms : List LdapGroupMapping) → from_sdk_mappings (to_sdk_mappings ms) ≡ ms
unfolding from_sdk_mappings to_sdk_mappings
from_sdk-to_sdk [] = refl
from_sdk-to_sdk (m ∷ ms) = rw (from_sdk-to_sdk ms)

-- Mappings that are taken over from the API match it, if no role has two of them there.
pub ldap_mappings_match-from_sdk :
    (os : List ApiMapping) → NodupRoles os → ldap_mappings_match (from_sdk_mappings os) os ≡ true
unfolding ldap_mappings_match
ldap_mappings_match-from_sdk os u = ground (
  arith,
  length-from_sdk_mappings os,
  EachSame-all_match (from_sdk_mappings os) os (from_sdk-EachSame os u),
)

-- Mappings match what is sent for them, and are read back from it as they were, if no role has two
-- of them.
pub ldap_mappings_match-to_sdk :
    (ms : List LdapGroupMapping)
    → NodupRoles (to_sdk_mappings ms)
    → (ldap_mappings_match ms (to_sdk_mappings ms) ≡ true)
      × (from_sdk_mappings (to_sdk_mappings ms) ≡ ms)
ldap_mappings_match-to_sdk ms u = (
  rw (from_sdk-to_sdk ms) at (ldap_mappings_match-from_sdk (to_sdk_mappings ms) u),
  from_sdk-to_sdk ms,
)
