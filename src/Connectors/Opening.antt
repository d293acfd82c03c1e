-- ===== src/Connectors/Opening.antt =====
-- What `Connect` of each controller returns: the services of which client, and when none.
use opsmanager_crossplane_pr.Common.{◌≡◌, refl, inl, inr, String, arith}
use opsmanager_crossplane_pr.Errors.{Err}
use opsmanager_crossplane_pr.Effects.{Result, ok, err, Result-cases, St}
use opsmanager_crossplane_pr.Managed.{Managed}
use opsmanager_crossplane_pr.Clients.Resolve.{ConnectCall, Cluster, connect, read_credentials}
use opsmanager_crossplane_pr.Clients.Resolve.Access.{Granted, connect_iff}
use opsmanager_crossplane_pr.BackupDaemon.{BackupDaemonResource, DaemonService}
use opsmanager_crossplane_pr.S3Store.{S3Store, S3Service}
use opsmanager_crossplane_pr.Project.{OpsManagerProject, ProjectService}
use opsmanager_crossplane_pr.Connectors.{
  OpsManager, S3ConfigService, Kube, connect_external, s3_external, daemon_external,
  blockstore_external, oplog_store_external, project_external, connect_daemon, connect_blockstore,
  connect_oplog_store, connect_project,
}

-- The external client of the daemons calls the daemon configuration of the client.
pub record DaemonFrom (escape : String → String) (client : OpsManager) (e : DaemonService)
    : Type 0 where
  pub get : e.get ≡ client.daemon_config.get
  pub list : e.list ≡ client.daemon_config.list
  pub update : e.update ≡ client.daemon_config.update
  pub path_escape : e.path_escape ≡ escape

-- The external client of a kind of S3 stores calls this service, and reads secrets in Kubernetes.
pub record S3StoreFrom (kube : Kube) (service : S3ConfigService) (e : S3Service) : Type 0 where
  pub get : e.get ≡ service.get
  pub create : e.create ≡ service.create
  pub update : e.update ≡ service.update
  pub delete : e.delete ≡ service.delete
  pub secret : e.secret ≡ kube.secret
  pub elapsed : e.elapsed ≡ kube.elapsed

-- The external client of the projects calls three services of the client.
pub record ProjectFrom (client : OpsManager) (e : ProjectService) : Type 0 where
  pub get_by_name : e.get_by_name ≡ client.projects.get_by_name
  pub create : e.create ≡ client.projects.create
  pub update : e.update ≡ client.projects.update
  pub delete : e.delete ≡ client.projects.delete
  pub list_configs : e.list_configs ≡ client.backup_configs.list
  pub update_config : e.update_config ≡ client.backup_configs.update
  pub get_schedule : e.get_schedule ≡ client.snapshot_schedule.get
  pub update_schedule : e.update_schedule ≡ client.snapshot_schedule.update

s3_external-S3StoreFrom :
    (kube : Kube) (service : S3ConfigService) → S3StoreFrom kube service (s3_external kube service)
unfolding s3_external
s3_external-S3StoreFrom kube service = record {
  get = refl;
  create = refl;
  update = refl;
  delete = refl;
  secret = refl;
  elapsed = refl;
}

module _ (cluster : Cluster OpsManager) where
  connect_frame :
      {P O : Type 0} (s : St ConnectCall (Managed P O))
      → let t = (connect cluster s.cr.provider_config_ref s).1 in
        (t.cr ≡ s.cr) × (t.events ≡ s.events)
  unfolding connect read_credentials
  connect_frame s = ground arith

  module _ {P O E : Type 0} where
    -- What `Connect` has been: it returns an external client made from a client that was granted for
    -- the reference of the resource, or fails, and then no client is granted. The resource and the
    -- events are as before.
    pub data Outcome (From : OpsManager → E → Type 0) (s : St ConnectCall (Managed P O))
        (r : Result E × St ConnectCall (Managed P O)) : Type 0 where
      opened :
          (client : OpsManager) (e : E)
          → Granted cluster s.cr.provider_config_ref s.calls client
          → r.0 ≡ ok e
          → From client e
          → r.1.cr ≡ s.cr
          → r.1.events ≡ s.events
          → Outcome From s r
      refused :
          (x : Err)
          → ((client : OpsManager) → ¬ Granted cluster s.cr.provider_config_ref s.calls client)
          → r.0 ≡ err x
          → r.1.cr ≡ s.cr
          → r.1.events ≡ s.events
          → Outcome From s r

    connect_external-Outcome :
        (external : OpsManager → E) (From : OpsManager → E → Type 0)
        → ((client : OpsManager) → From client (external client))
        → (s : St ConnectCall (Managed P O)) → Outcome From s (connect_external cluster external s)
    unfolding connect_external
    connect_external-Outcome external From made s =
        let ref = s.cr.provider_config_ref in
        let (same, events) = connect_frame s in
        elim (Result-cases (connect cluster ref s).0) [
          | inl (client, q) ↦
              opened client (external client) ((connect_iff cluster ref s client).0 q)
                (ground arith) (made client) (ground arith) (ground arith)
          | inr (x, q) ↦
              refused x
                (λ client g.
                  let back = (connect_iff cluster ref s client).1 g in absurd (ground arith))
                (ground arith) (ground arith) (ground arith)
        ]

  -- `Connect` of each of the four controllers returns an external client exactly if a client is
  -- granted for the reference of the resource, and then one that calls the services of its own kind
  -- in that client: the daemon configuration, the blockstore configuration, the oplog store
  -- configuration, or the projects, backup configs and snapshot schedules. It changes neither the
  -- resource nor the events.
  pub connectors-Outcome :
      (path_escape : String → String) (kube : Kube) (d : St ConnectCall BackupDaemonResource)
      (s : St ConnectCall S3Store) (p : St ConnectCall OpsManagerProject)
      → Outcome (DaemonFrom path_escape) d (connect_daemon cluster path_escape d)
        × Outcome
            (λ client e. S3StoreFrom kube client.s3_blockstore_config e)
            s
            (connect_blockstore cluster kube s)
        × Outcome
            (λ client e. S3StoreFrom kube client.s3_oplog_store_config e)
            s
            (connect_oplog_store cluster kube s)
        × Outcome ProjectFrom p (connect_project cluster p)
  unfolding connect_daemon daemon_external connect_blockstore blockstore_external
      connect_oplog_store oplog_store_external connect_project project_external
  connectors-Outcome path_escape kube d s p = (
    connect_external-Outcome (daemon_external path_escape) _
        (λ client. record { get = refl; list = refl; update = refl; path_escape = refl }) d,
    connect_external-Outcome (blockstore_external kube) _
        (λ client. s3_external-S3StoreFrom kube client.s3_blockstore_config) s,
    connect_external-Outcome (oplog_store_external kube) _
        (λ client. s3_external-S3StoreFrom kube client.s3_oplog_store_config) s,
    connect_external-Outcome project_external _
        (λ client. record {
          get_by_name = refl;
          create = refl;
          update = refl;
          delete = refl;
          list_configs = refl;
          update_config = refl;
          get_schedule = refl;
          update_schedule = refl;
        })
        p,
  )
