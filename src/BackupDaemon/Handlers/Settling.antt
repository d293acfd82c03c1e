-- ===== src/BackupDaemon/Handlers/Settling.antt =====
-- What a daemon's resource takes over in `Observe` leaves it up to date.
use opsmanager_crossplane_pr.Common.{
  ◌≡◌, refl, true, Bool, Option, none, some, ◌≢◌, fill, fill_lem, elements, zero_string, List,
  String, inl, inr, Bool-cases, string_eq, arith,
}
use opsmanager_crossplane_pr.BackupDaemon.{BackupDaemonResource, Daemon, DaemonService}
use mathlib.Core.Bool.{cond}
use opsmanager_crossplane_pr.Labels.{labels_adopted, adopted_labels}
use opsmanager_crossplane_pr.Labels.Compare.{Agrees}
use opsmanager_crossplane_pr.BackupDaemon.Convert.Drift.{InSync}
use opsmanager_crossplane_pr.BackupDaemon.Convert.{late_init_daemon, or_else}
use opsmanager_crossplane_pr.BackupDaemon.Handlers.{observed_cr, take_over, adopt_labels}

adopted_in_sync :
    (p d : Option (List String))
    → elements p ≡ elements d
    → elements (adopted_labels p d) ≡ elements d
unfolding adopted_labels
adopted_in_sync none none h = refl
adopted_in_sync none (some l) h = ground arith
adopted_in_sync (some p) d h = ground arith

Agrees-or_else : (p d : Option Bool) → Agrees p d → Agrees (or_else p d) d
unfolding or_else
Agrees-or_else none d h b e = e
Agrees-or_else (some a) d h b e = h b e

disk_type-fill : (p d : String) → (p ≢ "" → p ≡ d) → fill p d ≢ "" → fill p d ≡ d
disk_type-fill p d h n = ground (arith, fill_lem p d)

module _ (svc : DaemonService) (d : Daemon) (cr : BackupDaemonResource)
    (sync : InSync cr.for_provider d true) where
  taken-InSync : InSync (take_over svc d cr).for_provider d true
  unfolding take_over late_init_daemon
  taken-InSync =
      let p = cr.for_provider in
      record {
        labels = sync.labels;
        assignment = Agrees-or_else p.assignment_enabled d.assignment_enabled sync.assignment;
        backup_jobs =
            Agrees-or_else p.backup_jobs_enabled (some d.backup_jobs_enabled) sync.backup_jobs;
        garbage_collection =
            Agrees-or_else p.garbage_collection_enabled (some d.garbage_collection_enabled)
              sync.garbage_collection;
        resource_usage =
            Agrees-or_else p.resource_usage_enabled (some d.resource_usage_enabled)
              sync.resource_usage;
        head_disk_type = disk_type-fill p.head_disk_type d.head_disk_type sync.head_disk_type;
      }

  adopted-InSync : InSync (adopt_labels d (take_over svc d cr)).for_provider d true
  unfolding adopt_labels
  adopted-InSync = record {
    assignment = taken-InSync.assignment;
    backup_jobs = taken-InSync.backup_jobs;
    garbage_collection = taken-InSync.garbage_collection;
    resource_usage = taken-InSync.resource_usage;
    head_disk_type = taken-InSync.head_disk_type;
    labels = λ n.
        adopted_in_sync (take_over svc d cr).for_provider.labels d.labels
          (taken-InSync.labels (inl refl));
  }

  -- What is up to date stays so when the resource takes over what the API has.
  pub observed-InSync : InSync (observed_cr svc d cr).for_provider d true
  unfolding observed_cr
  observed-InSync = elim (Bool-cases (labels_adopted (take_over svc d cr))) [
    | inl a ↦ rw (a, cond) taken-InSync
    | inr a ↦ rw (a, cond) adopted-InSync
  ]
