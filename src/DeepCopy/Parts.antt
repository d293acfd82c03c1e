-- ===== src/DeepCopy/Parts.antt =====
-- The deep copies of the parts of each custom resource: its `Spec`, its `Status`, whose observation
-- has no references, and the observation alone.
use opsmanager_crossplane_pr.Common.{Option}
use opsmanager_crossplane_pr.BackupDaemon.{BackupDaemonObservation}
use opsmanager_crossplane_pr.Project.{OpsManagerProjectObservation}
use opsmanager_crossplane_pr.S3Store.{S3StoreObservation}
use opsmanager_crossplane_pr.DeepCopy.Memory.{Alloc, return}
use opsmanager_crossplane_pr.DeepCopy.Copying.{Copying, copy_or_nil}
use opsmanager_crossplane_pr.DeepCopy.Daemons.{DaemonCell, daemon_parameters}
use opsmanager_crossplane_pr.DeepCopy.Projects.{ProjectCell, project_parameters}
use opsmanager_crossplane_pr.DeepCopy.Stores.{S3StoreCell, store_parameters}
use opsmanager_crossplane_pr.DeepCopy.Kinds.{Spec, Status, copy_spec, copy_status}

module _ {M MV : Type 0} (managed : Copying M MV) where
  unfoldable pub copy_backup_daemon_spec : Spec M DaemonCell → Alloc (Spec M DaemonCell)
  copy_backup_daemon_spec = copy_spec managed daemon_parameters

  unfoldable pub deep_copy_backup_daemon_spec :
      Option (Spec M DaemonCell) → Alloc (Option (Spec M DaemonCell))
  deep_copy_backup_daemon_spec = copy_or_nil copy_backup_daemon_spec

  unfoldable pub copy_project_spec : Spec M ProjectCell → Alloc (Spec M ProjectCell)
  copy_project_spec = copy_spec managed project_parameters

  unfoldable pub deep_copy_project_spec :
      Option (Spec M ProjectCell) → Alloc (Option (Spec M ProjectCell))
  deep_copy_project_spec = copy_or_nil copy_project_spec

  unfoldable pub copy_blockstore_spec : Spec M S3StoreCell → Alloc (Spec M S3StoreCell)
  copy_blockstore_spec = copy_spec managed store_parameters

  unfoldable pub deep_copy_blockstore_spec :
      Option (Spec M S3StoreCell) → Alloc (Option (Spec M S3StoreCell))
  deep_copy_blockstore_spec = copy_or_nil copy_blockstore_spec

  unfoldable pub copy_oplog_store_spec : Spec M S3StoreCell → Alloc (Spec M S3StoreCell)
  copy_oplog_store_spec = copy_spec managed store_parameters

  unfoldable pub deep_copy_oplog_store_spec :
      Option (Spec M S3StoreCell) → Alloc (Option (Spec M S3StoreCell))
  deep_copy_oplog_store_spec = copy_or_nil copy_oplog_store_spec

module _ {R RV : Type 0} (resource : Copying R RV) where
  unfoldable pub copy_backup_daemon_status :
      Status R BackupDaemonObservation → Alloc (Status R BackupDaemonObservation)
  copy_backup_daemon_status = copy_status resource

  unfoldable pub deep_copy_backup_daemon_status :
      Option (Status R BackupDaemonObservation) → Alloc (Option (Status R BackupDaemonObservation))
  deep_copy_backup_daemon_status = copy_or_nil copy_backup_daemon_status

  unfoldable pub copy_project_status :
      Status R OpsManagerProjectObservation → Alloc (Status R OpsManagerProjectObservation)
  copy_project_status = copy_status resource

  unfoldable pub deep_copy_project_status :
      Option (Status R OpsManagerProjectObservation)
      → Alloc (Option (Status R OpsManagerProjectObservation))
  deep_copy_project_status = copy_or_nil copy_project_status

  unfoldable pub copy_blockstore_status :
      Status R S3StoreObservation → Alloc (Status R S3StoreObservation)
  copy_blockstore_status = copy_status resource

  unfoldable pub deep_copy_blockstore_status :
      Option (Status R S3StoreObservation) → Alloc (Option (Status R S3StoreObservation))
  deep_copy_blockstore_status = copy_or_nil copy_blockstore_status

  unfoldable pub copy_oplog_store_status :
      Status R S3StoreObservation → Alloc (Status R S3StoreObservation)
  copy_oplog_store_status = copy_status resource

  unfoldable pub deep_copy_oplog_store_status :
      Option (Status R S3StoreObservation) → Alloc (Option (Status R S3StoreObservation))
  deep_copy_oplog_store_status = copy_or_nil copy_oplog_store_status

unfoldable pub copy_backup_daemon_observation :
    BackupDaemonObservation → Alloc BackupDaemonObservation
copy_backup_daemon_observation = return

unfoldable pub deep_copy_backup_daemon_observation :
    Option BackupDaemonObservation → Alloc (Option BackupDaemonObservation)
deep_copy_backup_daemon_observation = copy_or_nil copy_backup_daemon_observation

unfoldable pub copy_project_observation :
    OpsManagerProjectObservation → Alloc OpsManagerProjectObservation
copy_project_observation = return

unfoldable pub deep_copy_project_observation :
    Option OpsManagerProjectObservation → Alloc (Option OpsManagerProjectObservation)
deep_copy_project_observation = copy_or_nil copy_project_observation

unfoldable pub copy_blockstore_observation : S3StoreObservation → Alloc S3StoreObservation
copy_blockstore_observation = return

unfoldable pub deep_copy_blockstore_observation :
    Option S3StoreObservation → Alloc (Option S3StoreObservation)
deep_copy_blockstore_observation = copy_or_nil copy_blockstore_observation

unfoldable pub copy_oplog_store_observation : S3StoreObservation → Alloc S3StoreObservation
copy_oplog_store_observation = return

unfoldable pub deep_copy_oplog_store_observation :
    Option S3StoreObservation → Alloc (Option S3StoreObservation)
deep_copy_oplog_store_observation = copy_or_nil copy_oplog_store_observation
