-- ===== src/Project/Handlers/Methods.antt =====
-- What `Observe` and `Create` of the project do.
use opsmanager_crossplane_pr.Common.{
  ◌≡◌, refl, ◌⊎◌, Bool, true, false, List, [], ◌∷◌, Option, none, some, String, ◌<>◌, string_eq,
  arith, inl, inr,
}
use opsmanager_crossplane_pr.Errors.{Err, is_not_found}
use opsmanager_crossplane_pr.Effects.{ok, err, Result, Result-cases, St, normal, Event}
use opsmanager_crossplane_pr.Managed.{ExternalObservation, set_external_name}
use opsmanager_crossplane_pr.Project.{
  OpsManagerProject, SnapshotSchedule, ApiProject, ApiSchedule, BackupConfig, ProjectCall,
  get_by_name, list_configs, create, ProjectService,
}
use opsmanager_crossplane_pr.Project.Schedule.{snapshot_schedule_matches}
use opsmanager_crossplane_pr.Project.Mappings.{late_init_project}
use opsmanager_crossplane_pr.Project.Handlers.{
  ldap_up_to_date, observed_cr, new_project, find_backup_cluster_id, first_cluster,
  observed_schedule, no_backup_config, schedule_up_to_date, observe, observe_found, create_project,
  create_new, adopt,
}

module _ (svc : ProjectService) (s : St ProjectCall OpsManagerProject) where
  -- The answer to the lookup by name, with which `Observe` and `Create` start.
  abbrev pub looked_up : Result ApiProject
  looked_up = svc.get_by_name s.calls s.cr.for_provider.name

  abbrev pub after_lookup : St ProjectCall OpsManagerProject
  after_lookup = record s { calls = get_by_name s.cr.for_provider.name ∷ s.calls }

  -- Without a schedule, or while the resource is being deleted, `Observe` calls only the lookup by
  -- name; a project that is found is up to date if its mappings are, for the spec with the
  -- mappings filled in.
  pub observe_plain :
      (o : ApiProject)
      → looked_up ≡ ok o
      → (s.cr.for_provider.snapshot_schedule ≡ none) ⊎ (s.cr.deleted ≡ true)
      → observe svc s ≡ (
        ok (record {
          resource_exists = true;
          resource_up_to_date = ldap_up_to_date (late_init_project s.cr.for_provider o) o;
          resource_late_initialized = false;
        }),
        record after_lookup { cr = observed_cr o s.cr },
      )
  unfolding observe observe_found schedule_up_to_date observed_cr late_init_project
  observe_plain o h c = ground arith

  -- What makes the schedule count as up to date: there is none to keep, or the API's schedule of the first
  -- cluster with a backup has what the spec asks for.
  pub data ScheduleKept (project_id : String) : Type 0 where
    undeclared : s.cr.for_provider.snapshot_schedule ≡ none → ScheduleKept project_id
    deleting : s.cr.deleted ≡ true → ScheduleKept project_id
    kept :
        (schedule : SnapshotSchedule) (c : BackupConfig) (cs : List BackupConfig)
        (current : ApiSchedule)
        → s.cr.for_provider.snapshot_schedule ≡ some schedule
        → svc.list_configs after_lookup.calls project_id ≡ ok (c ∷ cs)
        → svc.get_schedule (list_configs project_id ∷ after_lookup.calls) project_id c.cluster_id
          ≡ ok current
        → snapshot_schedule_matches (some schedule) (some current) ≡ true
        → ScheduleKept project_id

  schedule_kept :
      (id : String) (u : St ProjectCall OpsManagerProject)
      → u.calls ≡ after_lookup.calls
      → (schedule : Option SnapshotSchedule) (deleted : Bool)
      → s.cr.for_provider.snapshot_schedule ≡ schedule
      → s.cr.deleted ≡ deleted
      → (schedule_up_to_date svc schedule deleted id u).0 ≡ ok true
      → ScheduleKept id
  unfolding schedule_up_to_date find_backup_cluster_id first_cluster no_backup_config
      observed_schedule
  schedule_kept id u c none deleted p q h = undeclared p
  schedule_kept id u c (some schedule) true p q h = deleting q
  schedule_kept id u c (some schedule) false p q h =
      elim (Result-cases (svc.list_configs u.calls id)) [
        | inr (e, r) ↦ absurd (ground arith)
        | inl ([], r) ↦ absurd (ground arith)
        | inl (b ∷ bs, r) ↦
            elim (Result-cases (svc.get_schedule (list_configs id ∷ u.calls) id b.cluster_id)) [
              | inr (e, w) ↦ absurd (ground arith)
              | inl (current, w) ↦
                  kept schedule b bs current p (ground arith) (ground arith) (ground arith)
            ]
      ]

  -- If `Observe` reports that the project exists and is up to date, the API has it, its mappings
  -- count as up to date, and so does its schedule.
  pub observe-ScheduleKept :
      (v : ExternalObservation)
      → (observe svc s).0 ≡ ok v
      → v.resource_exists ≡ true
      → v.resource_up_to_date ≡ true
      → (o : ApiProject) × (looked_up ≡ ok o)
        × (ldap_up_to_date (late_init_project s.cr.for_provider o) o ≡ true)
        × ScheduleKept o.id
  unfolding observe observe_found observed_cr late_init_project
  observe-ScheduleKept v h ex up = elim (Result-cases looked_up) [
    | inr (e, q) ↦ absurd (ground arith)
    | inl (o, q) ↦
        let u : St ProjectCall OpsManagerProject = record after_lookup {
          cr = observed_cr o s.cr;
        } in
        let m = schedule_up_to_date svc u.cr.for_provider.snapshot_schedule u.cr.deleted o.id u in
        elim (Result-cases m.0) [
          | inr (e, r) ↦ absurd (ground arith)
          | inl (b, r) ↦ (
            o,
            q,
            ground arith,
            schedule_kept o.id u refl u.cr.for_provider.snapshot_schedule u.cr.deleted
                (ground arith) refl (ground arith),
          )
        ]
  ]

  abbrev pub event_of : String → String → Event
  event_of reason message = record { kind = normal; reason = reason; message = message }

  -- Unless the lookup answers that there is no such project, `Create` calls nothing but that
  -- lookup.
  pub create_project_once :
      ((e : Err) → looked_up ≡ err e → is_not_found (some e) ≡ false)
      → (create_project svc s).1.calls ≡ get_by_name s.cr.for_provider.name ∷ s.calls
  unfolding create_project
  create_project_once h = elim (Result-cases looked_up) [
    | inl (o, e) ↦ ground arith
    | inr (x, e) ↦ ground (arith, h x e)
  ]

  -- What a creation of the project that returns no error has sent and left.
  pub record ProjectCreated (t : St ProjectCall OpsManagerProject) : Type 0 where
    pub project : ApiProject
    pub sent : t.calls ≡ create (new_project s.cr.for_provider) ∷ after_lookup.calls
    pub accepted : svc.create after_lookup.calls (new_project s.cr.for_provider) ≡ ok project
    pub resource :
        t.cr
        ≡ set_external_name project.id (record s.cr { at_provider = record { id = project.id } })
    pub recorded :
        t.events
        ≡ event_of "CreatedProject" ("created Ops Manager project " <> project.id) ∷ s.events

  -- If the lookup answers 404 and `Create` returns no error, it has sent the project made from the
  -- spec, the API has accepted it, and the ID of the answer is the external name and in the status.
  pub create_project-ProjectCreated :
      (e : Err)
      → looked_up ≡ err e
      → is_not_found (some e) ≡ true
      → (create_project svc s).0 ≡ ok tt
      → ProjectCreated (create_project svc s).1
  unfolding create_project create_new adopt
  create_project-ProjectCreated e missing n done =
      elim (Result-cases (svc.create after_lookup.calls (new_project s.cr.for_provider))) [
        | inr (x, q) ↦ absurd (ground arith)
        | inl (p, q) ↦ record {
          project = p;
          sent = ground arith;
          accepted = q;
          resource = ground arith;
          recorded = ground arith;
        }
      ]
