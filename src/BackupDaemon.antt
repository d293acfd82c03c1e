-- ===== src/BackupDaemon.antt =====
-- The backup daemon's controller, internal/controller/backupdaemon/backupdaemon.go, with the types
-- of apis/v1alpha1/backupdaemon_types.go.
pub mod Convert
pub mod Handlers
use opsmanager_crossplane_pr.Common.{ℤ, Bool, Option, List, String}
use opsmanager_crossplane_pr.Effects.{Result}
use opsmanager_crossplane_pr.Managed.{Managed}

pub record BackupDaemonParameters : Type 0 where
  pub machine : String
  pub labels : Option (List String)
  pub assignment_enabled : Option Bool
  pub uri : String
  pub write_concern : String
  pub ssl : Option Bool
  pub encrypted_credentials : Option Bool
  pub backup_jobs_enabled : Option Bool
  pub garbage_collection_enabled : Option Bool
  pub resource_usage_enabled : Option Bool
  pub restore_queryable_jobs_enabled : Option Bool
  pub head_disk_type : String
  pub num_workers : ℤ
  pub head_root_directory : String

pub record BackupDaemonObservation : Type 0 where
  pub configured : Bool

abbrev pub BackupDaemonResource : Type 0
BackupDaemonResource = Managed BackupDaemonParameters BackupDaemonObservation

-- `opsmngr.Machine`
pub record Machine : Type 0 where
  pub machine : String
  pub head_root_directory : String

-- `opsmngr.Daemon` with the struct that it embeds.
pub record Daemon : Type 0 where
  pub id : String
  pub uri : String
  pub write_concern : String
  pub labels : Option (List String)
  pub ssl : Option Bool
  pub assignment_enabled : Option Bool
  pub encrypted_credentials : Option Bool
  pub used_size : ℤ
  pub backup_jobs_enabled : Bool
  pub configured : Bool
  pub garbage_collection_enabled : Bool
  pub resource_usage_enabled : Bool
  pub restore_queryable_jobs_enabled : Bool
  pub head_disk_type : String
  pub num_workers : ℤ
  pub machine : Option Machine

pub data DaemonCall : Type 0 where
  get : String → DaemonCall
  list : DaemonCall
  update : String → Daemon → DaemonCall

-- What answers the calls, and `url.PathEscape`.
pub record DaemonService : Type 0 where
  pub get : List DaemonCall → String → Result Daemon
  pub list : List DaemonCall → Result (List Daemon)
  pub update : List DaemonCall → String → Daemon → Result (Unit {0})
  pub path_escape : String → String
