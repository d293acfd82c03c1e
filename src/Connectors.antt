-- ===== src/Connectors.antt =====
-- The `connector` and `external` of each controller: from the client that `Connect` opens, an
-- external client takes the services of its controller.
pub mod Opening
use opsmanager_crossplane_pr.Common.{Bool, Option, List, String}
use opsmanager_crossplane_pr.Effects.{Result, ok, err, St, M, ◌>>=◌, return, resource}
use opsmanager_crossplane_pr.Managed.{Managed}
use opsmanager_crossplane_pr.Clients.Resolve.{ConnectCall, Cluster, connect}
use opsmanager_crossplane_pr.BackupDaemon.{BackupDaemonResource, Daemon, DaemonCall, DaemonService}
use opsmanager_crossplane_pr.S3Store.{S3Store, ApiStore, S3Call, S3Service}
use opsmanager_crossplane_pr.Project.{
  OpsManagerProject, ApiProject, BackupConfig, ApiSchedule, ProjectCall, ProjectService,
}

-- `opsmngr.S3BlockstoreConfigService` and `opsmngr.S3OplogStoreConfigService`
pub record S3ConfigService : Type 0 where
  pub get : List S3Call → String → Result ApiStore
  pub create : List S3Call → ApiStore → Result (Unit {0})
  pub update : List S3Call → String → ApiStore → Result (Unit {0})
  pub delete : List S3Call → String → Result (Unit {0})

-- `opsmngr.DaemonConfigService`
pub record DaemonConfigService : Type 0 where
  pub get : List DaemonCall → String → Result Daemon
  pub list : List DaemonCall → Result (List Daemon)
  pub update : List DaemonCall → String → Daemon → Result (Unit {0})

-- `opsmngr.ProjectsService`
pub record ProjectsService : Type 0 where
  pub get_by_name : List ProjectCall → String → Result ApiProject
  pub create : List ProjectCall → ApiProject → Result ApiProject
  pub update : List ProjectCall → String → ApiProject → Result (Unit {0})
  pub delete : List ProjectCall → String → Result (Unit {0})

-- `opsmngr.BackupConfigsService`
pub record BackupConfigsService : Type 0 where
  pub list : List ProjectCall → String → Result (List BackupConfig)
  pub update : List ProjectCall → String → String → BackupConfig → Result (Unit {0})

-- `opsmngr.SnapshotScheduleService`
pub record SnapshotScheduleService : Type 0 where
  pub get : List ProjectCall → String → String → Result ApiSchedule
  pub update : List ProjectCall → String → String → ApiSchedule → Result (Unit {0})

-- `opsmngr.Client`, the services that the controllers use.
pub record OpsManager : Type 0 where
  pub daemon_config : DaemonConfigService
  pub s3_blockstore_config : S3ConfigService
  pub s3_oplog_store_config : S3ConfigService
  pub projects : ProjectsService
  pub backup_configs : BackupConfigsService
  pub snapshot_schedule : SnapshotScheduleService

-- What an S3 store's methods use beside the API: the Kubernetes client, and the backoff of a retry.
pub record Kube : Type 0 where
  pub secret : List S3Call → String → String → Result (List (String × String))
  pub elapsed : List S3Call → Bool

unfoldable pub daemon_external : (String → String) → OpsManager → DaemonService
daemon_external path_escape client = record {
  get = client.daemon_config.get;
  list = client.daemon_config.list;
  update = client.daemon_config.update;
  path_escape = path_escape;
}

-- The struct `external` of the S3 controllers, with a service.
unfoldable pub s3_external : Kube → S3ConfigService → S3Service
s3_external kube service = record {
  get = service.get;
  create = service.create;
  update = service.update;
  delete = service.delete;
  secret = kube.secret;
  elapsed = kube.elapsed;
}

unfoldable pub blockstore_external : Kube → OpsManager → S3Service
unfolding s3_external
blockstore_external kube client = s3_external kube client.s3_blockstore_config

unfoldable pub oplog_store_external : Kube → OpsManager → S3Service
unfolding s3_external
oplog_store_external kube client = s3_external kube client.s3_oplog_store_config

unfoldable pub project_external : OpsManager → ProjectService
project_external client = record {
  get_by_name = client.projects.get_by_name;
  create = client.projects.create;
  update = client.projects.update;
  delete = client.projects.delete;
  list_configs = client.backup_configs.list;
  update_config = client.backup_configs.update;
  get_schedule = client.snapshot_schedule.get;
  update_schedule = client.snapshot_schedule.update;
}

module _ (cluster : Cluster OpsManager) {P O : Type 0} where
  -- `Connect`, with the external client that it makes of the opened one.
  unfoldable pub connect_external : {E : Type 0} → (OpsManager → E) → M ConnectCall (Managed P O) E
  connect_external external = do
    cr ← resource
    client ← connect cluster cr.provider_config_ref
    return (external client)

module _ (cluster : Cluster OpsManager) where
  unfoldable pub connect_daemon :
      (String → String) → M ConnectCall BackupDaemonResource DaemonService
  unfolding connect_external daemon_external
  connect_daemon path_escape = connect_external cluster (daemon_external path_escape)

  unfoldable pub connect_blockstore : Kube → M ConnectCall S3Store S3Service
  unfolding connect_external blockstore_external
  connect_blockstore kube = connect_external cluster (blockstore_external kube)

  unfoldable pub connect_oplog_store : Kube → M ConnectCall S3Store S3Service
  unfolding connect_external oplog_store_external
  connect_oplog_store kube = connect_external cluster (oplog_store_external kube)

  unfoldable pub connect_project : M ConnectCall OpsManagerProject ProjectService
  unfolding connect_external project_external
  connect_project = connect_external cluster project_external
