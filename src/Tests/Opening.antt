-- ===== src/Tests/Opening.antt =====
-- Connections with a configuration of the cluster.
use opsmanager_crossplane_pr.Common.{◌≡◌, refl, true, [], String, some, none}
use opsmanager_crossplane_pr.Effects.{ok, err, St}
use opsmanager_crossplane_pr.Clients.Resolve.{ConnectCall, Cluster}
use opsmanager_crossplane_pr.BackupDaemon.{BackupDaemonResource}
use opsmanager_crossplane_pr.S3Store.{S3Store}
use opsmanager_crossplane_pr.Project.{OpsManagerProject}
use opsmanager_crossplane_pr.Connectors.{
  OpsManager, S3ConfigService, Kube, daemon_external, connect_daemon, connect_blockstore,
  connect_oplog_store, connect_project,
}
use opsmanager_crossplane_pr.Connectors.Opening.{
  Outcome, DaemonFrom, S3StoreFrom, ProjectFrom, connectors-Outcome,
}
use opsmanager_crossplane_pr.Tests.{not_found}
use opsmanager_crossplane_pr.Tests.Connecting.{cluster, cluster_reference}
use opsmanager_crossplane_pr.Tests.Daemons
use opsmanager_crossplane_pr.Tests.Stores
use opsmanager_crossplane_pr.Tests.Projects.{at_start, idle, with_configs}

abbrev no_stores : S3ConfigService
no_stores = record {
  get = λ h id. err not_found;
  create = λ h o. ok tt;
  update = λ h id o. ok tt;
  delete = λ h id. ok tt;
}

abbrev client : OpsManager
client =
    let svc = with_configs idle in
    record {
      daemon_config = record {
        get = λ h id. err not_found;
        list = λ h. ok [];
        update = λ h id d. ok tt;
      };
      s3_blockstore_config = no_stores;
      s3_oplog_store_config = no_stores;
      projects = record {
        get_by_name = svc.get_by_name;
        create = svc.create;
        update = svc.update;
        delete = svc.delete;
      };
      backup_configs = record { list = svc.list_configs; update = svc.update_config };
      snapshot_schedule = record { get = svc.get_schedule; update = svc.update_schedule };
    }

abbrev opening : Cluster OpsManager
opening = record {
  track = cluster.track;
  config = cluster.config;
  secret = cluster.secret;
  new_client = λ url creds. ok client;
}

abbrev daemon_at : St ConnectCall BackupDaemonResource
daemon_at = record {
  cr = record Daemons.cr { provider_config_ref = cluster_reference };
  calls = [];
  events = [];
}

abbrev store_at : St ConnectCall S3Store
store_at = record {
  cr = record Stores.cr { provider_config_ref = cluster_reference };
  calls = [];
  events = [];
}

-- This resource names no configuration.
abbrev project_at : St ConnectCall OpsManagerProject
project_at = record { cr = at_start.cr; calls = []; events = [] }

abbrev kube : Kube
kube = record { secret = λ h ns name. err not_found; elapsed = λ h. true }

connectors-Outcome_example :
    Outcome opening (DaemonFrom (λ x. x)) daemon_at (connect_daemon opening (λ x. x) daemon_at)
    × Outcome opening
        (λ client e. S3StoreFrom kube client.s3_blockstore_config e)
        store_at
        (connect_blockstore opening kube store_at)
    × Outcome opening
        (λ client e. S3StoreFrom kube client.s3_oplog_store_config e)
        store_at
        (connect_oplog_store opening kube store_at)
    × Outcome opening ProjectFrom project_at (connect_project opening project_at)
connectors-Outcome_example = connectors-Outcome opening (λ x. x) kube daemon_at store_at project_at

-- With the reference a daemon is connected, and without it nothing is called.
connected : (connect_daemon opening (λ x. x) daemon_at).0 ≡ ok (daemon_external (λ x. x) client)
unfolding connect_daemon opsmanager_crossplane_pr.Clients.Resolve.connect
    opsmanager_crossplane_pr.Common.string_eq
    opsmanager_crossplane_pr.Clients.Resolve.read_credentials
connected = refl

not_connected : (connect_project opening project_at).1.calls ≡ []
unfolding connect_project opsmanager_crossplane_pr.Clients.Resolve.connect
not_connected = refl
