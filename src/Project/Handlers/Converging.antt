-- ===== src/Project/Handlers/Converging.antt =====
-- When `Observe` finds the project up to date, and that it does after a write.
use opsmanager_crossplane_pr.Common.{
  ◌≡◌, refl, ◌↔◌, Bool, true, false, List, [], ◌∷◌, Option, none, some, String, arith,
}
use opsmanager_crossplane_pr.Effects.{ok, St}
use opsmanager_crossplane_pr.Managed.{ExternalObservation}
use opsmanager_crossplane_pr.Project.{
  LdapGroupMapping, OpsManagerProject, OpsManagerProjectParameters, SnapshotSchedule, ApiProject,
  ApiSchedule, BackupConfig, ProjectCall, list_configs, ProjectService,
}
use opsmanager_crossplane_pr.Project.Schedule.{to_sdk_schedule}
use opsmanager_crossplane_pr.Project.Schedule.Sync.{snapshot_schedule_matches_iff}
use opsmanager_crossplane_pr.Project.Schedule.Payload.{TakenFrom, SetsNoZero, InSync-taken}
use opsmanager_crossplane_pr.Project.Mappings.{
  ldap_mappings_match, to_sdk_mappings, late_init_project,
}
use opsmanager_crossplane_pr.Project.Mappings.Matching.{NodupRoles, ldap_mappings_match-to_sdk}
use opsmanager_crossplane_pr.Project.Handlers.{
  ldap_up_to_date, observed_cr, find_backup_cluster_id, first_cluster, observed_schedule,
  schedule_up_to_date, schedule_patch, observe, observe_found,
}
use opsmanager_crossplane_pr.Project.Handlers.Methods.{
  looked_up, after_lookup, ScheduleKept, undeclared, deleting, kept, observe-ScheduleKept,
}

abbrev pub found_up_to_date : ExternalObservation
found_up_to_date = record {
  resource_exists = true;
  resource_up_to_date = true;
  resource_late_initialized = false;
}

module _ (svc : ProjectService) (s : St ProjectCall OpsManagerProject) where
  kept_schedule :
      (id : String) (u : St ProjectCall OpsManagerProject)
      → u.calls ≡ (after_lookup svc s).calls
      → (schedule : Option SnapshotSchedule) (deleted : Bool)
      → s.cr.for_provider.snapshot_schedule ≡ schedule
      → s.cr.deleted ≡ deleted
      → ScheduleKept svc s id
      → (schedule_up_to_date svc schedule deleted id u).0 ≡ ok true
  unfolding schedule_up_to_date find_backup_cluster_id first_cluster observed_schedule
  kept_schedule id u c none deleted p q k = refl
  kept_schedule id u c (some schedule) true p q k = refl
  kept_schedule id u c (some schedule) false p q (undeclared e) = absurd (ground arith)
  kept_schedule id u c (some schedule) false p q (deleting e) = absurd (ground arith)
  kept_schedule id u c (some schedule) false p q (kept d b bs current e l g m) = ground arith

  -- `Observe` reports that the project exists and is up to date exactly if the API has it, its
  -- mappings count as up to date, and so does its schedule.
  pub observe_iff : ((observe svc s).0 ≡ ok found_up_to_date) ↔ (
      (o : ApiProject) × (looked_up svc s ≡ ok o)
      × (ldap_up_to_date (late_init_project s.cr.for_provider o) o ≡ true)
      × ScheduleKept svc s o.id)
  unfolding observe observe_found observed_cr late_init_project
  observe_iff = (
    λ h. observe-ScheduleKept svc s found_up_to_date h refl refl,
    λ (o, q, m, k).
        let u : St ProjectCall OpsManagerProject = record (after_lookup svc s) {
          cr = observed_cr o s.cr;
        } in
        let e =
          kept_schedule o.id u refl u.cr.for_provider.snapshot_schedule u.cr.deleted (ground arith)
            refl k in
        ground arith,
  )

pub ldap_up_to_date-sent :
    (p : OpsManagerProjectParameters) (o : ApiProject) (ms : List LdapGroupMapping)
    → p.ldap_group_mappings ≡ ms
    → o.ldap_group_mappings ≡ to_sdk_mappings ms
    → NodupRoles o.ldap_group_mappings
    → ldap_up_to_date (late_init_project p o) o ≡ true
unfolding ldap_up_to_date late_init_project to_sdk_mappings
ldap_up_to_date-sent p o [] d e u = ground arith
ldap_up_to_date-sent p o (m ∷ ms) d e u =
    let same : ldap_mappings_match (m ∷ ms) o.ldap_group_mappings ≡ true =
      rw e (ldap_mappings_match-to_sdk (m ∷ ms) (rw e at u)).0 in
    ground arith

module _ (svc : ProjectService) (s : St ProjectCall OpsManagerProject) where
  -- If the spec has a schedule and the resource is not being deleted, the spec sets no plain field to
  -- 0, and the API answers for the first cluster with a backup with a schedule that has all that the
  -- payload of `Update` carries.
  pub data ScheduleSent (id : String) : Type 0 where
    no_schedule : s.cr.for_provider.snapshot_schedule ≡ none → ScheduleSent id
    in_deletion : s.cr.deleted ≡ true → ScheduleSent id
    sent :
        (schedule : SnapshotSchedule) (c : BackupConfig) (cs : List BackupConfig)
        (current : ApiSchedule)
        → s.cr.for_provider.snapshot_schedule ≡ some schedule
        → SetsNoZero schedule
        → svc.list_configs (after_lookup svc s).calls id ≡ ok (c ∷ cs)
        → svc.get_schedule (list_configs id ∷ (after_lookup svc s).calls) id c.cluster_id
          ≡ ok current
        → TakenFrom (schedule_patch schedule id c.cluster_id) current
        → ScheduleSent id

  pub sent-ScheduleKept : (id : String) → ScheduleSent id → ScheduleKept svc s id
  unfolding schedule_patch to_sdk_schedule
  sent-ScheduleKept id (no_schedule e) = undeclared e
  sent-ScheduleKept id (in_deletion e) = deleting e
  sent-ScheduleKept id (sent schedule c cs current e n l g t) = kept schedule c cs current e l g (
      (snapshot_schedule_matches_iff schedule current).1
        (InSync-taken schedule id c.cluster_id current n t))

  -- If the API has the mappings that `Update` sends for the spec and all that the payload of the
  -- schedule carries, and no role has two mappings, `Observe` finds the project up to date.
  pub observe_after_write :
      (o : ApiProject)
      → looked_up svc s ≡ ok o
      → o.ldap_group_mappings ≡ to_sdk_mappings s.cr.for_provider.ldap_group_mappings
      → NodupRoles o.ldap_group_mappings
      → ScheduleSent o.id
      → (observe svc s).0 ≡ ok found_up_to_date
  observe_after_write o q e u k =
      (observe_iff svc s).1
        (o, q, ldap_up_to_date-sent s.cr.for_provider o _ refl e u, sent-ScheduleKept o.id k)
