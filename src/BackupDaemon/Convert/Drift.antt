-- ===== src/BackupDaemon/Convert/Drift.antt =====
-- What it means that a daemon is up to date.
use opsmanager_crossplane_pr.Common.{
  ◌≡◌, refl, ◌≢◌, ◌↔◌, ◌⊎◌, Bool, true, false, Option, none, some, elements, string_eq, bool_eq,
  arith,
}
use opsmanager_crossplane_pr.Labels.Compare.{Agrees, labels_differ_iff, flag_differs_iff}
use opsmanager_crossplane_pr.BackupDaemon.{BackupDaemonParameters, Daemon}
use opsmanager_crossplane_pr.BackupDaemon.Convert.{set_flag_differs, daemon_is_up_to_date}

-- A flag that the spec sets is that of the API, which is always set.
set_flag_differs_iff :
    (p : Option Bool) (d : Bool) → (set_flag_differs p d ≡ false) ↔ Agrees p (some d)
unfolding set_flag_differs
set_flag_differs_iff none d = (λ h b e. cc, λ h. refl)
set_flag_differs_iff (some b) d = (λ h c e. ground arith, λ h. ground (arith, h b refl))

pub record InSync (p : BackupDaemonParameters) (d : Daemon) (labels_adopted : Bool) : Type 0 where
  pub labels : (labels_adopted ≡ true) ⊎ (p.labels ≢ none) → elements p.labels ≡ elements d.labels
  pub assignment : Agrees p.assignment_enabled d.assignment_enabled
  pub backup_jobs : Agrees p.backup_jobs_enabled (some d.backup_jobs_enabled)
  pub garbage_collection : Agrees p.garbage_collection_enabled (some d.garbage_collection_enabled)
  pub resource_usage : Agrees p.resource_usage_enabled (some d.resource_usage_enabled)
  pub head_disk_type : p.head_disk_type ≢ "" → p.head_disk_type ≡ d.head_disk_type

up_to_date-InSync :
    (p : BackupDaemonParameters) (d : Daemon) (labels_adopted : Bool)
    → daemon_is_up_to_date p d labels_adopted ≡ true
    → InSync p d labels_adopted
unfolding daemon_is_up_to_date
up_to_date-InSync p d b h = record {
  labels = (labels_differ_iff p.labels d.labels b).0 (ground arith);
  assignment = (flag_differs_iff p.assignment_enabled d.assignment_enabled).0 (ground arith);
  backup_jobs = (set_flag_differs_iff p.backup_jobs_enabled d.backup_jobs_enabled).0 (ground arith);
  garbage_collection =
      (set_flag_differs_iff p.garbage_collection_enabled d.garbage_collection_enabled).0
        (ground arith);
  resource_usage =
      (set_flag_differs_iff p.resource_usage_enabled d.resource_usage_enabled).0 (ground arith);
  head_disk_type = ground arith;
}

InSync-up_to_date :
    (p : BackupDaemonParameters) (d : Daemon) (labels_adopted : Bool)
    → InSync p d labels_adopted
    → daemon_is_up_to_date p d labels_adopted ≡ true
unfolding daemon_is_up_to_date
InSync-up_to_date p d b s =
    let labels = (labels_differ_iff p.labels d.labels b).1 s.labels in
    let assignment = (flag_differs_iff p.assignment_enabled d.assignment_enabled).1 s.assignment in
    let jobs = (set_flag_differs_iff p.backup_jobs_enabled d.backup_jobs_enabled).1 s.backup_jobs in
    let garbage =
      (set_flag_differs_iff p.garbage_collection_enabled d.garbage_collection_enabled).1
        s.garbage_collection in
    let usage =
      (set_flag_differs_iff p.resource_usage_enabled d.resource_usage_enabled).1 s.resource_usage in
    ground arith

-- A daemon is reported up to date exactly if its labels are those of the spec, where they are
-- adopted or the spec sets them, and each of the four flags and the disk type that the spec sets has
-- its value in the API; no other field counts.
pub daemon_is_up_to_date_iff :
    (p : BackupDaemonParameters) (d : Daemon) (labels_adopted : Bool)
    → (daemon_is_up_to_date p d labels_adopted ≡ true) ↔ InSync p d labels_adopted
daemon_is_up_to_date_iff p d b = (up_to_date-InSync p d b, InSync-up_to_date p d b)
