-- ===== src/BackupDaemon/Convert.antt =====
-- `lateInitDaemon`, `applyParameters`, `isUpToDate` and `daemonAPIID`.
pub mod LateInit
pub mod Apply
pub mod Drift
use opsmanager_crossplane_pr.Common.{
  ℤ, pos, Bool, true, false, ◌&&◌, ◌||◌, Option, none, some, List, [], ◌∷◌, String, ◌<>◌, is_none,
  any, fill, fills, zero_string, zero_int, ◌==◌, ◌!=◌, string_eq, bool_eq, int_eq, if◌then◌else◌,
}
use opsmanager_crossplane_pr.Labels.{flag_differs, labels_differ}
use opsmanager_crossplane_pr.BackupDaemon.{BackupDaemonParameters, Daemon, Machine}

-- `if p == nil { p = d }`
unfoldable pub or_else : Option Bool → Option Bool → Option Bool
or_else none d = d
or_else (some b) d = some b

-- `p.HeadRootDirectory` of a machine that may be nil.
unfoldable pub head_of : Option Machine → String
head_of none = ""
head_of (some m) = m.head_root_directory

-- Where `lateInitDaemon` sets `changed`, in its order.
unfoldable pub late_changes : BackupDaemonParameters → Daemon → List Bool
late_changes p d =
    is_none p.assignment_enabled
    ∷ fills p.uri d.uri
    ∷ fills p.write_concern d.write_concern
    ∷ is_none p.ssl
    ∷ is_none p.encrypted_credentials
    ∷ is_none p.backup_jobs_enabled
    ∷ is_none p.garbage_collection_enabled
    ∷ is_none p.resource_usage_enabled
    ∷ is_none p.restore_queryable_jobs_enabled
    ∷ fills p.head_disk_type d.head_disk_type
    ∷ fills p.num_workers d.num_workers
    ∷ fills p.head_root_directory (head_of d.machine)
    ∷ []

unfoldable pub late_init_daemon : BackupDaemonParameters → Daemon → BackupDaemonParameters × Bool
unfolding late_changes
late_init_daemon p d = (
  record p {
    assignment_enabled = or_else p.assignment_enabled d.assignment_enabled;
    uri = fill p.uri d.uri;
    write_concern = fill p.write_concern d.write_concern;
    ssl = or_else p.ssl d.ssl;
    encrypted_credentials = or_else p.encrypted_credentials d.encrypted_credentials;
    backup_jobs_enabled = or_else p.backup_jobs_enabled (some d.backup_jobs_enabled);
    garbage_collection_enabled =
        or_else p.garbage_collection_enabled (some d.garbage_collection_enabled);
    resource_usage_enabled = or_else p.resource_usage_enabled (some d.resource_usage_enabled);
    restore_queryable_jobs_enabled =
        or_else p.restore_queryable_jobs_enabled (some d.restore_queryable_jobs_enabled);
    head_disk_type = fill p.head_disk_type d.head_disk_type;
    num_workers = fill p.num_workers d.num_workers;
    head_root_directory = fill p.head_root_directory (head_of d.machine);
  },
  any (late_changes p d),
)

-- `if p != nil { d = p }` and `if p != nil { d = *p }`
unfoldable pub override {ℓ} : {A : Type ℓ} → Option A → Option A → Option A
override none d = d
override (some a) d = some a

unfoldable pub override_flag : Option Bool → Bool → Bool
override_flag none d = d
override_flag (some b) d = b

-- `if p != "" { d = p }`
unfoldable pub override_text : String → String → String
override_text p d = if p != "" then p else d

-- `d.Machine`, allocated where it is nil.
unfoldable pub machine_or_new : Option Machine → Machine
machine_or_new none = record { machine = ""; head_root_directory = "" }
machine_or_new (some m) = m

unfoldable pub override_head : String → Option Machine → Option Machine
unfolding machine_or_new
override_head p m =
    if p != "" then some (record (machine_or_new m) { head_root_directory = p }) else m

-- What the daemon is after `applyParameters`.
unfoldable pub apply_parameters : BackupDaemonParameters → Daemon → Daemon
apply_parameters p d = record d {
  labels = override p.labels d.labels;
  assignment_enabled = override p.assignment_enabled d.assignment_enabled;
  uri = override_text p.uri d.uri;
  write_concern = override_text p.write_concern d.write_concern;
  ssl = override p.ssl d.ssl;
  encrypted_credentials = override p.encrypted_credentials d.encrypted_credentials;
  backup_jobs_enabled = override_flag p.backup_jobs_enabled d.backup_jobs_enabled;
  garbage_collection_enabled =
      override_flag p.garbage_collection_enabled d.garbage_collection_enabled;
  resource_usage_enabled = override_flag p.resource_usage_enabled d.resource_usage_enabled;
  restore_queryable_jobs_enabled =
      override_flag p.restore_queryable_jobs_enabled d.restore_queryable_jobs_enabled;
  head_disk_type = override_text p.head_disk_type d.head_disk_type;
  num_workers = if p.num_workers != pos 0 then p.num_workers else d.num_workers;
  machine = override_head p.head_root_directory d.machine;
}

-- `p != nil && *p != d`
unfoldable pub set_flag_differs : Option Bool → Bool → Bool
set_flag_differs none d = false
set_flag_differs (some b) d = b != d

unfoldable pub daemon_is_up_to_date : BackupDaemonParameters → Daemon → Bool → Bool
daemon_is_up_to_date p d labels_adopted =
    if labels_differ p.labels d.labels labels_adopted
    then false
    else if flag_differs p.assignment_enabled d.assignment_enabled
    then false
    else if set_flag_differs p.backup_jobs_enabled d.backup_jobs_enabled
    then false
    else if set_flag_differs p.garbage_collection_enabled d.garbage_collection_enabled
    then false
    else if set_flag_differs p.resource_usage_enabled d.resource_usage_enabled
    then false
    else if p.head_disk_type != "" && p.head_disk_type != d.head_disk_type
    then false
    else true

module _ (path_escape : String → String) where
  unfoldable pub machine_id : String → Option Machine → String
  machine_id id none = id
  machine_id id (some m) = m.machine <> ("/" <> path_escape m.head_root_directory)

  unfoldable pub daemon_api_id : Daemon → String
  unfolding machine_id
  daemon_api_id d = machine_id d.id d.machine
