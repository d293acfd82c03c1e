-- ===== src/Project/Mappings/RoleMap.antt =====
-- The LDAP group mappings without their order: lists of mappings that no test by role tells apart
-- are one map of roles.
use mathlib.Core.Quot
use mathlib.Core.Quot.{Quot}
use std.HLevel.{hedberg}
use opsmanager_crossplane_pr.Common.{◌≡◌, ap, Option, none, some, List, String, string_eq}
use opsmanager_crossplane_pr.Project.{ApiMapping}
use opsmanager_crossplane_pr.Project.Mappings.{sort_strings}
use opsmanager_crossplane_pr.Project.Mappings.Matching.{last_groups}

sorted_groups : Option (List String) → Option (List String)
sorted_groups none = none
sorted_groups (some g) = some (sort_strings g)

-- The groups of a role, sorted, as a list of mappings has them.
unfoldable pub groups_of : String → List ApiMapping → Option (List String)
unfolding sorted_groups
groups_of role ms = sorted_groups (last_groups role ms)

abbrev pub SameRoles : List ApiMapping → List ApiMapping → Type 0
SameRoles ms os = (role : String) → groups_of role ms ≡ groups_of role os

abbrev pub RoleMap : Type 0
RoleMap = Quot SameRoles

abbrev pub role_map : List ApiMapping → RoleMap
role_map = Quot.mk

groups_set : IsSet (Option (List String))
groups_set = hlevel (hedberg string_eq.dec)

-- The groups of a role are a property of the map.
unfoldable groups_in : String → RoleMap → Option (List String)
groups_in role = Quot.lift groups_set (groups_of role) (λ ms os h. h role)

-- Equal maps give each role the same groups.
pub role_map-SameRoles : {ms os : List ApiMapping} → role_map ms ≡ role_map os → SameRoles ms os
unfolding groups_in
role_map-SameRoles e role = ap (groups_in role) e
