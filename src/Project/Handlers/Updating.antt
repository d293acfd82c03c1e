-- ===== src/Project/Handlers/Updating.antt =====
-- What `Update` of the project does.
use opsmanager_crossplane_pr.Common.{
  ◌≡◌, refl, List, [], ◌∷◌, Option, none, some, String, string_eq, arith, inl, inr,
}
use opsmanager_crossplane_pr.Effects.{ok, Result-cases, St}
use opsmanager_crossplane_pr.Project.{
  OpsManagerProject, SnapshotSchedule, BackupConfig, ProjectCall, list_configs, update,
  update_schedule, ProjectService,
}
use opsmanager_crossplane_pr.Project.Handlers.{
  patch_of, schedule_patch, find_backup_cluster_id, first_cluster, no_backup_config,
  update_snapshot, update_project,
}

module _ (svc : ProjectService) (s : St ProjectCall OpsManagerProject) where
  abbrev pub id_of : String
  id_of = s.cr.at_provider.id

  abbrev pub patched : List ProjectCall
  patched = update id_of (patch_of s.cr.for_provider) ∷ s.calls

  -- What an update of the project that returns no error has sent, the newest call first.
  pub data ProjectSent (calls : List ProjectCall) : Type 0 where
    mappings_only : s.cr.for_provider.snapshot_schedule ≡ none → calls ≡ patched → ProjectSent calls
    with_schedule :
        (schedule : SnapshotSchedule) (c : BackupConfig) (cs : List BackupConfig)
        → s.cr.for_provider.snapshot_schedule ≡ some schedule
        → svc.list_configs patched id_of ≡ ok (c ∷ cs)
        → svc.update_schedule
            (list_configs id_of ∷ patched)
            id_of
            c.cluster_id
            (schedule_patch schedule id_of c.cluster_id)
          ≡ ok tt
        → calls
          ≡ update_schedule id_of c.cluster_id (schedule_patch schedule id_of c.cluster_id)
            ∷ list_configs id_of
            ∷ patched
        → ProjectSent calls

  update_snapshot_sent :
      (u : St ProjectCall OpsManagerProject)
      → u.calls ≡ patched
      → (schedule : Option SnapshotSchedule) → s.cr.for_provider.snapshot_schedule ≡ schedule
      → (update_snapshot svc schedule id_of u).0 ≡ ok tt
      → let t = (update_snapshot svc schedule id_of u).1 in
        ProjectSent t.calls × (t.cr ≡ u.cr) × (t.events ≡ u.events)
  unfolding update_snapshot find_backup_cluster_id first_cluster no_backup_config
  update_snapshot_sent u c none p h = (mappings_only p c, refl, refl)
  update_snapshot_sent u c (some schedule) p h =
      elim (Result-cases (svc.list_configs u.calls id_of)) [
        | inr (e, r) ↦ absurd (ground arith)
        | inl ([], r) ↦ absurd (ground arith)
        | inl (b ∷ bs, r) ↦ (
          with_schedule schedule b bs p (ground arith) (ground arith) (ground arith),
          ground arith,
          ground arith,
        )
      ]

  -- If `Update` returns no error, the API has accepted the mappings; it has sent nothing else if
  -- the spec has no schedule, and otherwise the schedule of the first cluster with a backup, which
  -- the API has accepted too. The resource and the events are as before.
  pub update_project-ProjectSent :
      (update_project svc s).0 ≡ ok tt
      → let t = (update_project svc s).1 in
        (svc.update s.calls s.cr.at_provider.id (patch_of s.cr.for_provider) ≡ ok tt)
        × ProjectSent t.calls
        × (t.cr ≡ s.cr)
        × (t.events ≡ s.events)
  unfolding update_project
  update_project-ProjectSent h =
      elim (Result-cases (svc.update s.calls id_of (patch_of s.cr.for_provider))) [
        | inr (e, q) ↦ absurd (ground arith)
        | inl (a, q) ↦
            let u : St ProjectCall OpsManagerProject = record s { calls = patched } in
            let (sent, resource, events) =
              update_snapshot_sent u refl s.cr.for_provider.snapshot_schedule refl (ground arith) in
            let same : (update_project svc s).1.calls
                ≡ (update_snapshot svc s.cr.for_provider.snapshot_schedule id_of u).1.calls =
              ground arith in
            (ground arith, rw same sent, ground arith, ground arith)
      ]
