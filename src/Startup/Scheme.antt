-- ===== src/Startup/Scheme.antt =====
-- The scheme of the process: what the `init` functions of apis/v1alpha1 and apis/v1beta1 register
-- with the builder of their package, and `init` of cmd/provider/main.go.
pub mod Known
use opsmanager_crossplane_pr.Common.{Bool, List, [], ◌∷◌, ◌++◌, String}
use opsmanager_crossplane_pr.Effects.{Result, ok, err}
use opsmanager_crossplane_pr.Startup.{GroupVersionKind}
use opsmanager_crossplane_pr.Startup.Setup.{group}

-- `schema.GroupVersion`
pub record GroupVersion : Type 0 where
  pub group : String
  pub version : String

-- `gv.WithKind(kind)`
abbrev pub with_kind : GroupVersion → String → GroupVersionKind
with_kind gv kind = record { group = gv.group; version = gv.version; kind = kind }

-- `scheme.Builder`: the group and version, and the types of the objects that were registered, by
-- their names.
pub record SchemeBuilder : Type 0 where
  pub group_version : GroupVersion
  pub objects : List String

-- `SchemeBuilder.Register(&A{}, &B{})`
unfoldable pub register_objects : List String → SchemeBuilder → SchemeBuilder
register_objects types b = record b { objects = b.objects ++ types }

abbrev pub v1alpha1_group_version : GroupVersion
v1alpha1_group_version = record { group = group; version = "v1alpha1" }

abbrev pub v1beta1_group_version : GroupVersion
v1beta1_group_version = record { group = group; version = "v1beta1" }

unfoldable pub init_backup_daemon : SchemeBuilder → SchemeBuilder
unfolding register_objects
init_backup_daemon = register_objects ("BackupDaemon" ∷ "BackupDaemonList" ∷ [])

unfoldable pub init_project : SchemeBuilder → SchemeBuilder
unfolding register_objects
init_project = register_objects ("OpsManagerProject" ∷ "OpsManagerProjectList" ∷ [])

unfoldable pub init_blockstore : SchemeBuilder → SchemeBuilder
unfolding register_objects
init_blockstore = register_objects ("S3Blockstore" ∷ "S3BlockstoreList" ∷ [])

unfoldable pub init_oplog_store : SchemeBuilder → SchemeBuilder
unfolding register_objects
init_oplog_store = register_objects ("S3OplogStore" ∷ "S3OplogStoreList" ∷ [])

unfoldable pub init_provider_config : SchemeBuilder → SchemeBuilder
unfolding register_objects
init_provider_config b =
    register_objects ("ClusterProviderConfigUsage" ∷ "ClusterProviderConfigUsageList" ∷ [])
      (register_objects ("ClusterProviderConfig" ∷ "ClusterProviderConfigList" ∷ []) b)

-- The builder of apis/v1alpha1 after the `init` functions of its files, in the order of the files.
unfoldable pub v1alpha1_builder : SchemeBuilder
unfolding init_backup_daemon init_project init_blockstore init_oplog_store
v1alpha1_builder = init_oplog_store (
    init_blockstore (
      init_project
        (init_backup_daemon (record { group_version = v1alpha1_group_version; objects = [] }))))

-- That of apis/v1beta1.
unfoldable pub v1beta1_builder : SchemeBuilder
unfolding init_provider_config
v1beta1_builder =
    init_provider_config (record { group_version = v1beta1_group_version; objects = [] })

-- `runtime.Scheme`, client-go's `AddToScheme` and that of a builder.
pub record SchemeLibrary : Type 1 where
  pub Scheme : Type 0
  pub new_scheme : Scheme
  pub add_client_go : Scheme → Result Scheme
  pub add_to_scheme : SchemeBuilder → Scheme → Result Scheme
  pub recognizes : Scheme → GroupVersionKind → Bool

module _ (library : SchemeLibrary) where
  -- `utilruntime.Must(err)` before the next statement: an error is a panic, with which the process
  -- ends.
  abbrev pub must :
      Result library.Scheme → (library.Scheme → Result library.Scheme) → Result library.Scheme
  must (ok s) next = next s
  must (err e) next = err e

  -- `init` of the main package, from its last statement on, from its second on, and all of it.
  abbrev pub add_v1beta1 : library.Scheme → Result library.Scheme
  add_v1beta1 s = must (library.add_to_scheme v1beta1_builder s) ok

  abbrev pub add_v1alpha1 : library.Scheme → Result library.Scheme
  add_v1alpha1 s = must (library.add_to_scheme v1alpha1_builder s) add_v1beta1

  -- The scheme that it leaves.
  unfoldable pub init : Result library.Scheme
  init = must (library.add_client_go library.new_scheme) add_v1alpha1
