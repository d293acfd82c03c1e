-- ===== src/Project/Handlers/Zero.antt =====
-- A schedule that sets a plain field to 0: what `Update` sends for it, and what `Observe` makes of it.
use opsmanager_crossplane_pr.Common.{
  ℤ, pos, ◌≡◌, ◌≢◌, refl, sym, ◌∙◌, true, false, Option, none, some, List, String, arith, int_eq,
}
use opsmanager_crossplane_pr.Effects.{ok, St}
use opsmanager_crossplane_pr.Project.{
  OpsManagerProject, SnapshotSchedule, ApiSchedule, ProjectCall, ProjectService,
}
use opsmanager_crossplane_pr.Project.Schedule.{
  int_differs, fields_match, snapshot_schedule_matches, or_zero, to_sdk_schedule,
}
use opsmanager_crossplane_pr.Project.Handlers.{
  patch_of, schedule_patch, find_backup_cluster_id, first_cluster, no_backup_config,
  update_snapshot, update_project, observe,
}
use opsmanager_crossplane_pr.Project.Handlers.Methods.{undeclared, deleting, kept}
use opsmanager_crossplane_pr.Project.Handlers.Converging.{found_up_to_date, observe_iff}

abbrev pub with_schedule :
    St ProjectCall OpsManagerProject → SnapshotSchedule → St ProjectCall OpsManagerProject
with_schedule s d = record s {
  cr = record s.cr { for_provider = record s.cr.for_provider { snapshot_schedule = some d } };
}

abbrev pub with_retention : SnapshotSchedule → Option ℤ → SnapshotSchedule
with_retention d n = record d { snapshot_retention_days = n }

never_matches :
    (d schedule : SnapshotSchedule) (current : ApiSchedule)
    → some (with_retention d (some (pos 0))) ≡ some schedule
    → current.snapshot_retention_days ≢ pos 0
    → snapshot_schedule_matches (some schedule) (some current) ≡ true
    → ⊥
unfolding snapshot_schedule_matches fields_match int_differs
never_matches d schedule current e n m = ground arith

module _ (svc : ProjectService) where
  -- For a schedule that sets the retention of snapshots to 0, `Update` returns and calls what it does
  -- for one that leaves it unset; and if the API never answers with a retention of 0, and the resource
  -- is not being deleted, `Observe` before and after that `Update` does not report that the project
  -- is up to date.
  pub explicit_zero :
      (s : St ProjectCall OpsManagerProject) (d : SnapshotSchedule)
      → ((h : List ProjectCall) (id cluster : String) (current : ApiSchedule)
          → svc.get_schedule h id cluster ≡ ok current
          → current.snapshot_retention_days ≢ pos 0)
      → s.cr.deleted ≡ false
      → let unset = update_project svc (with_schedule s (with_retention d none)) in
        let zero = with_schedule s (with_retention d (some (pos 0))) in
        let updated = update_project svc zero in
        (updated.0 ≡ unset.0)
        × (updated.1.calls ≡ unset.1.calls)
        × ((observe svc zero).0 ≢ ok found_up_to_date)
        × ((observe svc updated.1).0 ≢ ok found_up_to_date)
  unfolding update_project update_snapshot schedule_patch to_sdk_schedule or_zero patch_of
      find_backup_cluster_id first_cluster no_backup_config
  explicit_zero s d never alive =
      let zero = with_schedule s (with_retention d (some (pos 0))) in
      (
        ground arith,
        ground arith,
        drifts zero refl alive,
        drifts (update_project svc zero).1 (ground arith) (ground arith),
      )
    where
      drifts :
          (t : St ProjectCall OpsManagerProject)
          → t.cr.for_provider.snapshot_schedule ≡ some (with_retention d (some (pos 0)))
          → t.cr.deleted ≡ false
          → (observe svc t).0 ≢ ok found_up_to_date
      drifts t e a h =
          let (o, q, m, k) = (observe_iff svc t).0 h in
          elim k [
            | undeclared x ↦ absurd (ground arith)
            | deleting x ↦ absurd (ground arith)
            | kept schedule c cs current x l g y ↦
                never_matches d schedule current (sym e ∙ x) (never _ _ _ current g) y
          ]
