-- ===== src/Project/Handlers/Rounds.antt =====
-- Two methods in a row: what `Observe` of a project reports after an `Update` or a `Create`.
use opsmanager_crossplane_pr.Common.{
  ◌≡◌, refl, ap, ◌⊎◌, inl, inr, Bool, true, false, Option, none, some, List, [], ◌∷◌, String, arith,
}
use opsmanager_crossplane_pr.Errors.{Err, is_not_found}
use opsmanager_crossplane_pr.Effects.{ok, err, St}
use opsmanager_crossplane_pr.Managed.{set_external_name}
use opsmanager_crossplane_pr.Project.{
  LdapGroupMapping, OpsManagerProject, OpsManagerProjectParameters, SnapshotSchedule, ApiProject,
  ApiSchedule, ApiMapping, ProjectCall, get_by_name, list_configs, get_schedule, create, update,
  update_schedule, ProjectService,
}
use opsmanager_crossplane_pr.Project.Schedule.Payload.{TakenFrom, SetsNoZero}
use opsmanager_crossplane_pr.Project.Mappings.{to_sdk_mappings, late_init_project}
use opsmanager_crossplane_pr.Project.Mappings.Matching.{NodupRoles, ldap_mappings_match-from_sdk}
use opsmanager_crossplane_pr.Project.Handlers.{
  ldap_up_to_date, new_project, patch_of, observe, create_project,
}
use opsmanager_crossplane_pr.Project.Handlers.Methods.{looked_up, create_project-ProjectCreated}
use opsmanager_crossplane_pr.Project.Handlers.Converging.{
  found_up_to_date, observe_iff, ldap_up_to_date-sent, ScheduleSent, no_schedule, sent,
  sent-ScheduleKept,
}

-- The mappings of the API are those sent; or none were sent, which leaves any, and no role has two.
abbrev pub Took : List LdapGroupMapping → List ApiMapping → Type 0
Took ms os = (os ≡ to_sdk_mappings ms) ⊎ ((ms ≡ []) × NodupRoles os)

ldap_up_to_date-Took :
    (p : OpsManagerProjectParameters) (o : ApiProject)
    → NodupRoles (to_sdk_mappings p.ldap_group_mappings)
    → Took p.ldap_group_mappings o.ldap_group_mappings
    → ldap_up_to_date (late_init_project p o) o ≡ true
ldap_up_to_date-Took p o u (inl e) = ldap_up_to_date-sent p o p.ldap_group_mappings refl e (rw e u)
ldap_up_to_date-Took p o u (inr (e, v)) =
    let same = ldap_mappings_match-from_sdk o.ldap_group_mappings v in
    unfold ldap_up_to_date late_init_project in ground arith

-- The schedule, if there is one, sets no plain field to 0.
abbrev pub NoZeroIn : Option SnapshotSchedule → Type 0
NoZeroIn schedule = (d : SnapshotSchedule) → schedule ≡ some d → SetsNoZero d

-- The calls that ask only.
unfoldable pub is_read : ProjectCall → Bool
is_read (get_by_name name) = true
is_read (list_configs id) = true
is_read (get_schedule id c) = true
is_read c = false

module _ (svc : ProjectService) (name id : String) where
  -- The API has the project with mappings that it took.
  abbrev pub HasProject : List ProjectCall → List LdapGroupMapping → Type 0
  HasProject h ms =
      (o : ApiProject) × (svc.get_by_name h name ≡ ok o)
      × (o.id ≡ id)
      × Took ms o.ldap_group_mappings

  -- The API keeps what a write that it accepts has sent: the mappings of an update, which leaves the
  -- mappings where it sends none, and those fields of a cluster's schedule that the payload carries,
  -- which are the pointers that are set and the plain fields that are not 0. A call that only asks changes no
  -- answer, and the update of a schedule changes that schedule alone.
  pub record Keeps : Type 0 where
    pub mappings_sent :
        (h : List ProjectCall) (p : OpsManagerProjectParameters)
        → svc.update h id (patch_of p) ≡ ok tt
        → HasProject (update id (patch_of p) ∷ h) p.ldap_group_mappings
    pub schedule_sent :
        (h : List ProjectCall) (cluster : String) (schedule : ApiSchedule)
        → svc.update_schedule h id cluster schedule ≡ ok tt
        → (current : ApiSchedule) × (svc.get_schedule
              (update_schedule id cluster schedule ∷ h)
              id
              cluster
            ≡ ok current)
          × TakenFrom schedule current
    pub project_same :
        (h : List ProjectCall) (c : ProjectCall)
        → is_read c ≡ true
        → svc.get_by_name (c ∷ h) name ≡ svc.get_by_name h name
    pub configs_same :
        (h : List ProjectCall) (c : ProjectCall)
        → is_read c ≡ true
        → svc.list_configs (c ∷ h) id ≡ svc.list_configs h id
    pub schedule_same :
        (h : List ProjectCall) (c : ProjectCall) (cluster : String)
        → is_read c ≡ true
        → svc.get_schedule (c ∷ h) id cluster ≡ svc.get_schedule h id cluster
    pub project_apart :
        (h : List ProjectCall) (cluster : String) (schedule : ApiSchedule)
        → svc.get_by_name (update_schedule id cluster schedule ∷ h) name ≡ svc.get_by_name h name
    pub configs_apart :
        (h : List ProjectCall) (cluster : String) (schedule : ApiSchedule)
        → svc.list_configs (update_schedule id cluster schedule ∷ h) id ≡ svc.list_configs h id

module _ (svc : ProjectService) where
  observe_had :
      (t : St ProjectCall OpsManagerProject) (id : String)
      → NodupRoles (to_sdk_mappings t.cr.for_provider.ldap_group_mappings)
      → HasProject svc t.cr.for_provider.name id t.calls t.cr.for_provider.ldap_group_mappings
      → ScheduleSent svc t id
      → (observe svc t).0 ≡ ok found_up_to_date
  observe_had t id u (o, q, same, took) k = (observe_iff svc t).1 (
    o,
    q,
    ldap_up_to_date-Took t.cr.for_provider o u took,
    rw same (sent-ScheduleKept svc t id k),
  )

  -- If the spec has no schedule and gives no role two mappings, the lookup answers 404, `Create`
  -- returns no error, and the API answers the lookup after a creation that it accepted with that
  -- project, which has the mappings that were sent, the next `Observe` finds the project and finds
  -- it up to date.
  pub create_then_observe_project :
      (s : St ProjectCall OpsManagerProject) (e : Err)
      → ((h : List ProjectCall) (o : ApiProject)
          → svc.create h (new_project s.cr.for_provider) ≡ ok o
          → HasProject svc s.cr.for_provider.name o.id
              (create (new_project s.cr.for_provider) ∷ h)
              s.cr.for_provider.ldap_group_mappings)
      → s.cr.for_provider.snapshot_schedule ≡ none
      → NodupRoles (to_sdk_mappings s.cr.for_provider.ldap_group_mappings)
      → looked_up svc s ≡ err e
      → is_not_found (some e) ≡ true
      → (create_project svc s).0 ≡ ok tt
      → (observe svc (create_project svc s).1).0 ≡ ok found_up_to_date
  unfolding set_external_name
  create_then_observe_project s e keeps plain u missing n done =
      let t = (create_project svc s).1 in
      let c = create_project-ProjectCreated svc s e missing n done in
      let spec : t.cr.for_provider ≡ s.cr.for_provider =
        ap (λ (x : OpsManagerProject). x.for_provider) c.resource in
      observe_had t c.project.id (rw spec u) (rw (spec, c.sent) (keeps _ c.project c.accepted))
        (no_schedule (rw spec plain))
