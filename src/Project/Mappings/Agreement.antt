-- ===== src/Project/Mappings/Agreement.antt =====
-- The test of the LDAP group mappings as the agreement of two maps from roles to groups.
use mathlib.Core.List.{Perm}
use opsmanager_crossplane_pr.Common.{
  suc, ◌≡◌, ◌↔◌, refl, sym, ◌≤◌, ◌∙◌, ap, true, false, Bool, ◌⊎◌, inl, inr, Option, none, some,
  is_some, List, [], ◌∷◌, String, length, ◌==◌, string_eq, if◌then◌else◌, arith,
}
use opsmanager_crossplane_pr.Project.{LdapGroupMapping, ApiMapping}
use opsmanager_crossplane_pr.Project.Mappings.{ldap_mappings_match, to_sdk_mappings}
use opsmanager_crossplane_pr.Project.Mappings.Matching.{
  or_this, last_groups, EachHolds, NodupRoles, EachSame, from_sdk-EachSame, from_sdk-to_sdk,
  length-from_sdk_mappings, ldap_mappings_match_iff,
}

-- The list has a mapping of the role.
unfoldable pub has_role : String → List ApiMapping → Bool
unfolding last_groups
has_role role ms = is_some (last_groups role ms)

remove_role : String → List ApiMapping → List ApiMapping
remove_role role [] = []
remove_role role (m ∷ ms) =
    let rest = remove_role role ms in if m.role_name == role then rest else m ∷ rest

has_role-remove_role :
    (r q : String) (ms : List ApiMapping)
    → has_role r (remove_role q ms) ≡ (if r == q then false else has_role r ms)
unfolding has_role last_groups or_this remove_role
has_role-remove_role r q [] = ground arith
has_role-remove_role r q (m ∷ ms) = ground (arith, has_role-remove_role r q ms)

length-remove_role : (q : String) (ms : List ApiMapping) → length (remove_role q ms) ≤ length ms
unfolding remove_role
length-remove_role q [] = omega arith
length-remove_role q (m ∷ ms) = ground (arith, length-remove_role q ms)

length-remove_present :
    (q : String) (ms : List ApiMapping)
    → has_role q ms ≡ true
    → suc (length (remove_role q ms)) ≤ length ms
unfolding remove_role has_role last_groups or_this
length-remove_present q [] h = absurd (ground arith)
length-remove_present q (m ∷ ms) h =
    ground (arith, length-remove_role q ms, length-remove_present q ms)

-- Every role of the one list is a role of the other.
abbrev Covers : List ApiMapping → List ApiMapping → Type 0
Covers os ds = (r : String) → has_role r ds ≡ true → has_role r os ≡ true

Covers-remove_role :
    (d : ApiMapping) (ds os : List ApiMapping)
    → last_groups d.role_name ds ≡ none
    → Covers os (d ∷ ds)
    → Covers (remove_role d.role_name os) ds
unfolding has_role last_groups or_this
Covers-remove_role d ds os fresh c r h = ground (arith, c r, has_role-remove_role r d.role_name os)

first_covered :
    (d : ApiMapping) (ds os : List ApiMapping) → Covers os (d ∷ ds) → has_role d.role_name os ≡ true
unfolding has_role last_groups or_this
first_covered d ds os c = c d.role_name (ground arith)

-- A list without duplicates is no longer than one that has all its roles.
length-Covers : (ds os : List ApiMapping) → NodupRoles ds → Covers os ds → length ds ≤ length os
length-Covers [] os u c = omega arith
length-Covers (d ∷ ds) os (fresh, u) c =
    let rest =
      length-Covers ds (remove_role d.role_name os) u (Covers-remove_role d ds os fresh c) in
    omega (arith, rest, length-remove_present d.role_name os (first_covered d ds os c))

-- If it is also no shorter, it has all roles of the other.
covered_back :
    (ds os : List ApiMapping) → NodupRoles ds → Covers os ds → length os ≤ length ds → Covers ds os
unfolding has_role last_groups or_this
covered_back [] [] u c l r h = h
covered_back [] (o ∷ os) u c l r h = absurd (omega (arith, l))
covered_back (d ∷ ds) os (fresh, u) c l r h =
    let back =
      covered_back ds (remove_role d.role_name os) u (Covers-remove_role d ds os fresh c)
        (omega (arith, l, length-remove_present d.role_name os (first_covered d ds os c))) r in
    ground (arith, back, has_role-remove_role r d.role_name os)

-- The role has the same groups on both sides, in some order, or none on either.
abbrev pub SameGroups : Option (List String) → Option (List String) → Type 0
SameGroups none none = Unit
SameGroups none (some b) = ⊥
SameGroups (some a) none = ⊥
SameGroups (some a) (some b) = Perm a b

-- Both sides have the same roles, each with the same groups in some order.
abbrev pub Agree : List ApiMapping → List ApiMapping → Type 0
Agree ds os = (role : String) → SameGroups (last_groups role ds) (last_groups role os)

Option-cases : {A : Type 0} (o : Option A) → (o ≡ none) ⊎ ((a : A) × (o ≡ some a))
Option-cases none = inl refl
Option-cases (some a) = inr (a, refl)

some_of : {A : Type 0} (o : Option A) → is_some o ≡ true → (a : A) × (o ≡ some a)
some_of none h = absurd (ground arith)
some_of (some a) h = (a, refl)

this_role :
    (r role : String) (gs : List String) {a : List String}
    → (if r == role then some gs else none) ≡ some a
    → (r ≡ role) × (gs ≡ a)
this_role r role gs h = (ground arith, ground arith)

-- The groups of a role that the spec has are those of the API.
EachHolds-held :
    (ds : List LdapGroupMapping) (os : List ApiMapping) (role : String) {a : List String}
    → EachHolds ds os
    → last_groups role (to_sdk_mappings ds) ≡ some a
    → (g : List String) × (last_groups role os ≡ some g) × Perm a g
unfolding last_groups or_this to_sdk_mappings
EachHolds-held [] os role hs e = absurd (ground arith)
EachHolds-held (d ∷ ds) os role ((g, q, p), hs) e =
    elim (Option-cases (last_groups role (to_sdk_mappings ds))) [
      | inl n ↦
          let (same_role, same) = this_role d.role_name role d.ldap_groups (rw n at e) in
          (g, ap (λ r. last_groups r os) (sym same_role) ∙ q, rw (sym same) p)
      | inr (b, l) ↦ EachHolds-held ds os role hs (l ∙ (rw l at e))
    ]

EachHolds-Covers :
    (ds : List LdapGroupMapping) (os : List ApiMapping)
    → EachHolds ds os
    → Covers os (to_sdk_mappings ds)
unfolding has_role
EachHolds-Covers ds os hs r h =
    let (a, e) = some_of (last_groups r (to_sdk_mappings ds)) h in
    let (g, q, p) = EachHolds-held ds os r hs e in rw q refl

length-to_sdk_mappings : (ds : List LdapGroupMapping) → length (to_sdk_mappings ds) ≡ length ds
length-to_sdk_mappings ds =
    sym (length-from_sdk_mappings (to_sdk_mappings ds)) ∙ ap length (from_sdk-to_sdk ds)

agree_at :
    (ds : List LdapGroupMapping) (os : List ApiMapping) (role : String) (a b : Option (List String))
    → EachHolds ds os
    → Covers (to_sdk_mappings ds) os
    → last_groups role (to_sdk_mappings ds) ≡ a
    → last_groups role os ≡ b
    → SameGroups a b
unfolding has_role
agree_at ds os role none none hs c p q = tt
agree_at ds os role none (some b) hs c p q = absurd (let h = c role in ground arith)
agree_at ds os role (some a) b hs c p q =
    let (g, e, same) = EachHolds-held ds os role hs p in rw (sym q ∙ e) same

groups_at :
    (a : List String) (o b : Option (List String))
    → o ≡ b
    → SameGroups (some a) b
    → (g : List String) × (o ≡ some g) × Perm a g
groups_at a o none e h = absurd h
groups_at a o (some g) e h = (g, e, h)

EachHolds-Agree :
    (ds : List LdapGroupMapping) (xs os : List ApiMapping)
    → EachSame ds xs
    → Agree xs os
    → EachHolds ds os
EachHolds-Agree [] xs os es g = tt
EachHolds-Agree (d ∷ ds) xs os (e, es) g = (
  groups_at d.ldap_groups _ (last_groups d.role_name os) refl (rw e at (g d.role_name)),
  EachHolds-Agree ds xs os es g,
)

same_domain : (a b : Option (List String)) → SameGroups a b → is_some a ≡ is_some b
same_domain none none h = refl
same_domain none (some b) h = absurd h
same_domain (some a) none h = absurd h
same_domain (some a) (some b) h = refl

length-Agree :
    (xs os : List ApiMapping) → NodupRoles xs → NodupRoles os → Agree xs os → length xs ≡ length os
unfolding has_role
length-Agree xs os u v g =
    let there = length-Covers xs os u (λ r h. sym (same_domain _ _ (g r)) ∙ h) in
    let back = length-Covers os xs v (λ r h. same_domain _ _ (g r) ∙ h) in
    omega (arith, there, back)

-- If no role has two mappings in the spec, nor in the API, the mappings match exactly if the spec and
-- the API have the same roles, and each role has the same groups, in some order.
pub ldap_mappings_match-Agree :
    (desired : List LdapGroupMapping) (observed : List ApiMapping)
    → NodupRoles (to_sdk_mappings desired)
    → NodupRoles observed
    → (ldap_mappings_match desired observed ≡ true) ↔ Agree (to_sdk_mappings desired) observed
ldap_mappings_match-Agree ds os u v = (
  λ h.
      let (e, hs) = (ldap_mappings_match_iff ds os).0 h in
      let back =
        covered_back (to_sdk_mappings ds) os u (EachHolds-Covers ds os hs)
          (omega (arith, e, length-to_sdk_mappings ds)) in
      λ role. agree_at ds os role _ _ hs back refl refl,
  λ g.
      let each = rw (from_sdk-to_sdk ds) at (from_sdk-EachSame (to_sdk_mappings ds) u) in
      (ldap_mappings_match_iff ds os).1 (
        sym (length-to_sdk_mappings ds) ∙ length-Agree (to_sdk_mappings ds) os u v g,
        EachHolds-Agree ds (to_sdk_mappings ds) os each g,
      ),
)
