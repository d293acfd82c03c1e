-- ===== src/Project/Removal.antt =====
-- `Delete` of the project: backups are stopped, then terminated, then the project is deleted.
pub mod Drain
pub mod Deleting
pub mod Rounds
pub mod Absence
pub mod Plan
use opsmanager_crossplane_pr.Common.{
  Bool, true, false, ◌&&◌, ◌||◌, not, Option, none, some, List, [], ◌∷◌, String, ◌<>◌, ◌==◌,
  string_eq, if◌then◌else◌,
}
use opsmanager_crossplane_pr.Errors.{Err, formatted, wrap, is_not_found}
use opsmanager_crossplane_pr.Effects.{
  Result, ok, err, normal, M, ◌>>=◌, ◌>>◌, return, fail, or_wrap, call, resource, emit,
}
use opsmanager_crossplane_pr.Project.{
  OpsManagerProject, BackupConfig, ProjectCall, list_configs, update_config, delete, ProjectService,
}

abbrev pub started : String
started = "STARTED"

abbrev pub stopped : String
stopped = "STOPPED"

abbrev pub terminating : String
terminating = "TERMINATING"

abbrev pub is_started : BackupConfig → Bool
is_started c = c.status_name == started

abbrev pub is_stopped : BackupConfig → Bool
is_stopped c = c.status_name == stopped

abbrev pub is_ending : BackupConfig → Bool
is_ending c = c.status_name == stopped || c.status_name == terminating

-- A patch sets the status alone.
abbrev pub status_patch : String → BackupConfig
status_patch status = record { cluster_id = ""; status_name = status }

-- What the two loops that send patches differ in.
pub record Phase : Type 0 where
  pub status : String
  pub reason : String
  pub message : String
  pub failure : String

abbrev pub stopping : Phase
stopping = record {
  status = stopped;
  reason = "StoppingBackupConfig";
  message = "stopping backup config for cluster ";
  failure = "cannot stop backup config";
}

abbrev pub ending : Phase
ending = record {
  status = terminating;
  reason = "TerminatingBackupConfig";
  message = "terminating backup config for cluster ";
  failure = "cannot terminate backup config";
}

module _ (svc : ProjectService) (project_id : String) where
  send_patch : Phase → BackupConfig → M ProjectCall OpsManagerProject (Unit {0})
  send_patch phase bc = do
    emit normal phase.reason (phase.message <> bc.cluster_id)
    let patch = status_patch phase.status
    r ←
        call (update_config project_id bc.cluster_id patch)
          (λ h. svc.update_config h project_id bc.cluster_id patch)
    or_wrap phase.failure r

  -- The first and the third loop.
  unfoldable pub patch_all :
      Phase → (BackupConfig → Bool) → List BackupConfig → M ProjectCall OpsManagerProject (Unit {0})
  unfolding send_patch
  patch_all phase test [] s = (ok tt, s)
  patch_all phase test (bc ∷ bcs) s =
      let (r, t) = (if test bc then send_patch phase bc else return tt) s in
      elim r [ ok a ↦ patch_all phase test bcs t | err e ↦ (err e, t) ]

  -- The second and the fourth loop.
  unfoldable pub wait_for :
      String
      → (BackupConfig → Bool)
      → List BackupConfig
      → M ProjectCall OpsManagerProject (Unit {0})
  wait_for text test [] s = (ok tt, s)
  wait_for text test (bc ∷ bcs) s =
      let rest = wait_for text test bcs s in
      if test bc then (err (formatted text (bc.cluster_id ∷ [])), s) else rest

  unfoldable pub drain : List BackupConfig → M ProjectCall OpsManagerProject (Unit {0})
  drain configs = do
    patch_all stopping is_started configs
    wait_for "waiting for backup config %s to stop" is_started configs
    patch_all ending is_stopped configs
    wait_for "waiting for backup config %s to terminate" is_ending configs

  unfoldable pub deleted : Result (Unit {0}) → M ProjectCall OpsManagerProject (Unit {0})
  deleted (ok a) = emit normal "DeletedProject" ("deleted Ops Manager project " <> project_id)
  deleted (err e) =
      if is_not_found (some e)
      then return tt
      else fail (wrap "cannot delete project from Ops Manager" e)

  unfoldable pub delete_listed :
      Result (List BackupConfig) → M ProjectCall OpsManagerProject (Unit {0})
  delete_listed r = do
    configs ← or_wrap "cannot list backup configs for project" r
    drain configs
    gone ← call (delete project_id) (λ h. svc.delete h project_id)
    deleted gone

module _ (svc : ProjectService) where
  unfoldable pub delete_project : M ProjectCall OpsManagerProject (Unit {0})
  delete_project s =
      let id = s.cr.at_provider.id in
      if id == ""
      then (ok tt, s)
      else ((do r ← call (list_configs id) (λ h. svc.list_configs h id); delete_listed svc id r) s)
