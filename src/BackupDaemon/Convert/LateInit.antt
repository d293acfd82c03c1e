-- ===== src/BackupDaemon/Convert/LateInit.antt =====
-- What late initialisation of a daemon does, and when it comes to rest.
use opsmanager_crossplane_pr.Common.{
  ◌≡◌, refl, Bool, false, ◌||◌, Option, none, some, is_none, arith, ◌==◌, string_eq, int_eq,
  zero_string, zero_int, pos, if◌then◌else◌, fill_lem, fills-fill,
}
use opsmanager_crossplane_pr.BackupDaemon.{BackupDaemonParameters, Daemon}
use opsmanager_crossplane_pr.BackupDaemon.Convert.{late_init_daemon, head_of, or_else}

-- An unset field takes the daemon's value, and a set one keeps its own.
abbrev pub late_spec : BackupDaemonParameters → Daemon → BackupDaemonParameters
late_spec p d = record p {
  assignment_enabled =
      if is_none p.assignment_enabled then d.assignment_enabled else p.assignment_enabled;
  uri = if p.uri == "" then d.uri else p.uri;
  write_concern = if p.write_concern == "" then d.write_concern else p.write_concern;
  ssl = if is_none p.ssl then d.ssl else p.ssl;
  encrypted_credentials =
      if is_none p.encrypted_credentials then d.encrypted_credentials else p.encrypted_credentials;
  backup_jobs_enabled =
      if is_none p.backup_jobs_enabled then some d.backup_jobs_enabled else p.backup_jobs_enabled;
  garbage_collection_enabled =
      if is_none p.garbage_collection_enabled
      then some d.garbage_collection_enabled
      else p.garbage_collection_enabled;
  resource_usage_enabled =
      if is_none p.resource_usage_enabled
      then some d.resource_usage_enabled
      else p.resource_usage_enabled;
  restore_queryable_jobs_enabled =
      if is_none p.restore_queryable_jobs_enabled
      then some d.restore_queryable_jobs_enabled
      else p.restore_queryable_jobs_enabled;
  head_disk_type = if p.head_disk_type == "" then d.head_disk_type else p.head_disk_type;
  num_workers = if p.num_workers == pos 0 then d.num_workers else p.num_workers;
  head_root_directory =
      if p.head_root_directory == "" then head_of d.machine else p.head_root_directory;
}

or_else_lem : (p d : Option Bool) → or_else p d ≡ (if is_none p then d else p)
unfolding or_else
or_else_lem none d = refl
or_else_lem (some b) d = refl

-- Late initialisation gives each optional field but the labels the daemon's value if it is unset.
-- All else stays as it is.
pub late_init_daemon_params :
    (p : BackupDaemonParameters) (d : Daemon) → (late_init_daemon p d).0 ≡ late_spec p d
unfolding late_init_daemon
late_init_daemon_params p d = λ i. record p {
  assignment_enabled = or_else_lem p.assignment_enabled d.assignment_enabled i;
  uri = fill_lem p.uri d.uri i;
  write_concern = fill_lem p.write_concern d.write_concern i;
  ssl = or_else_lem p.ssl d.ssl i;
  encrypted_credentials = or_else_lem p.encrypted_credentials d.encrypted_credentials i;
  backup_jobs_enabled = or_else_lem p.backup_jobs_enabled (some d.backup_jobs_enabled) i;
  garbage_collection_enabled =
      or_else_lem p.garbage_collection_enabled (some d.garbage_collection_enabled) i;
  resource_usage_enabled = or_else_lem p.resource_usage_enabled (some d.resource_usage_enabled) i;
  restore_queryable_jobs_enabled =
      or_else_lem p.restore_queryable_jobs_enabled (some d.restore_queryable_jobs_enabled) i;
  head_disk_type = fill_lem p.head_disk_type d.head_disk_type i;
  num_workers = fill_lem p.num_workers d.num_workers i;
  head_root_directory = fill_lem p.head_root_directory (head_of d.machine) i;
}

is_none-or_else : (p : Option Bool) (b : Bool) → is_none (or_else p (some b)) ≡ false
unfolding or_else
is_none-or_else none b = refl
is_none-or_else (some a) b = refl

-- A second run, with the same daemon, reports a change again exactly if one of the three flags
-- that the API may leave out is still unset after the first.
pub late_init_daemon_again :
    (p : BackupDaemonParameters) (d : Daemon)
    → let q = (late_init_daemon p d).0 in
      (late_init_daemon q d).1
      ≡ (is_none q.assignment_enabled || (is_none q.ssl || is_none q.encrypted_credentials))
unfolding late_init_daemon
late_init_daemon_again p d = simp (fills-fill, is_none-or_else) (ground arith)
