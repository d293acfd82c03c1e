-- ===== src/DeepCopy/Lists/Objects.antt =====
-- `DeepCopyObject` of the kinds and the list kinds, which gives a `runtime.Object`.
use opsmanager_crossplane_pr.Common.{◌≡◌, refl, Option, none, some}
use opsmanager_crossplane_pr.BackupDaemon.{BackupDaemonObservation}
use opsmanager_crossplane_pr.Project.{OpsManagerProjectParameters, OpsManagerProjectObservation}
use opsmanager_crossplane_pr.S3Store.{S3StoreObservation}
use opsmanager_crossplane_pr.DeepCopy.Memory.{Alloc}
use opsmanager_crossplane_pr.DeepCopy.Copying.{Copying, Below, IsDeep}
use opsmanager_crossplane_pr.DeepCopy.Daemons.{DaemonCell}
use opsmanager_crossplane_pr.DeepCopy.Projects.{
  ProjectCell, project_parameters, project_parameters-IsDeep,
}
use opsmanager_crossplane_pr.DeepCopy.Stores.{S3StoreCell}
use opsmanager_crossplane_pr.DeepCopy.Configs.{ConfigSpecCell}
use opsmanager_crossplane_pr.DeepCopy.Kinds.{
  Kind, kind_copying, kind-IsDeep, deep_copy_backup_daemon, deep_copy_project, deep_copy_blockstore,
  deep_copy_oplog_store,
}
use opsmanager_crossplane_pr.DeepCopy.Providers.{
  ClusterProviderConfig, ClusterProviderConfigUsage, deep_copy_provider_config, deep_copy_usage,
}
use opsmanager_crossplane_pr.DeepCopy.Lists.{
  KindList, Store, InStore, copy_project_list, deep_copy_backup_daemon_list, deep_copy_project_list,
  deep_copy_blockstore_list, deep_copy_oplog_store_list, deep_copy_provider_config_list,
  deep_copy_usage_list,
}
use opsmanager_crossplane_pr.DeepCopy.Lists.Copied.{WithinList, ListCopied, copy_list-ListCopied}

-- A `runtime.Object`: nil, or a pointer, which may itself be nil.
abbrev pub Object : Type 0 → Type 0
Object A = Option (Option A)

-- `if c := in.DeepCopy(); c != nil { return c }; return nil`
unfoldable pub as_object : {A : Type 0} → Option A → Object A
as_object none = none
as_object (some c) = some (some c)

abbrev pub DeepCopyObject : Type 0 → Type 0
DeepCopyObject A = Option A → Alloc (Object A)

abbrev pub DeepCopyListObject : Type 0 → Type 0 → Type 0
DeepCopyListObject L I = Option (KindList L I) → InStore I (Object (KindList L I))

-- The copy `c` as an object, over the heap or over the memory of a list.
abbrev pub object_of : {A B H : Type 0} → (A → H → Option B × H) → A → H → Object B × H
object_of copy a h = let (c, g) = copy a h in (as_object c, g)

module _ {X XV M MV R RV : Type 0} (meta : Copying X XV) (managed : Copying M MV)
    (resource : Copying R RV) where
  unfoldable pub backup_daemon_object :
      DeepCopyObject (Kind X M R DaemonCell BackupDaemonObservation)
  unfolding as_object deep_copy_backup_daemon
  backup_daemon_object = object_of (deep_copy_backup_daemon meta managed resource)

  unfoldable pub project_object :
      DeepCopyObject (Kind X M R ProjectCell OpsManagerProjectObservation)
  unfolding as_object deep_copy_project
  project_object = object_of (deep_copy_project meta managed resource)

  unfoldable pub blockstore_object : DeepCopyObject (Kind X M R S3StoreCell S3StoreObservation)
  unfolding as_object deep_copy_blockstore
  blockstore_object = object_of (deep_copy_blockstore meta managed resource)

  unfoldable pub oplog_store_object : DeepCopyObject (Kind X M R S3StoreCell S3StoreObservation)
  unfolding as_object deep_copy_oplog_store
  oplog_store_object = object_of (deep_copy_oplog_store meta managed resource)

  module _ {L LV : Type 0} (list_meta : Copying L LV) where
    unfoldable pub backup_daemon_list_object :
        DeepCopyListObject L (Kind X M R DaemonCell BackupDaemonObservation)
    unfolding as_object deep_copy_backup_daemon_list
    backup_daemon_list_object =
        object_of (deep_copy_backup_daemon_list list_meta meta managed resource)

    unfoldable pub project_list_object :
        DeepCopyListObject L (Kind X M R ProjectCell OpsManagerProjectObservation)
    unfolding as_object deep_copy_project_list
    project_list_object = object_of (deep_copy_project_list list_meta meta managed resource)

    unfoldable pub blockstore_list_object :
        DeepCopyListObject L (Kind X M R S3StoreCell S3StoreObservation)
    unfolding as_object deep_copy_blockstore_list
    blockstore_list_object = object_of (deep_copy_blockstore_list list_meta meta managed resource)

    unfoldable pub oplog_store_list_object :
        DeepCopyListObject L (Kind X M R S3StoreCell S3StoreObservation)
    unfolding as_object deep_copy_oplog_store_list
    oplog_store_list_object = object_of (deep_copy_oplog_store_list list_meta meta managed resource)

module _ {X XV R RV : Type 0} (meta : Copying X XV) (status : Copying R RV) where
  unfoldable pub provider_config_object : DeepCopyObject (ClusterProviderConfig X ConfigSpecCell R)
  unfolding as_object deep_copy_provider_config
  provider_config_object = object_of (deep_copy_provider_config meta status)

  module _ {L LV : Type 0} (list_meta : Copying L LV) where
    unfoldable pub provider_config_list_object :
        DeepCopyListObject L (ClusterProviderConfig X ConfigSpecCell R)
    unfolding as_object deep_copy_provider_config_list
    provider_config_list_object = object_of (deep_copy_provider_config_list list_meta meta status)

module _ {X XV U UV : Type 0} (meta : Copying X XV) (typed : Copying U UV) where
  unfoldable pub usage_object : DeepCopyObject (ClusterProviderConfigUsage X U)
  unfolding as_object deep_copy_usage
  usage_object = object_of (deep_copy_usage meta typed)

  module _ {L LV : Type 0} (list_meta : Copying L LV) where
    unfoldable pub usage_list_object : DeepCopyListObject L (ClusterProviderConfigUsage X U)
    unfolding as_object deep_copy_usage_list
    usage_list_object = object_of (deep_copy_usage_list list_meta meta typed)

module _ {X XV M MV R RV : Type 0} (meta : Copying X XV) (managed : Copying M MV)
    (resource : Copying R RV) where
  abbrev pub project_item :
      Copying
        (Kind X M R ProjectCell OpsManagerProjectObservation)
        (Kind XV MV RV OpsManagerProjectParameters OpsManagerProjectObservation)
  project_item = kind_copying meta managed resource project_parameters

module _ {L LV X XV M MV R RV : Type 0} (list_meta : Copying L LV) (meta : Copying X XV)
    (managed : Copying M MV) (resource : Copying R RV) where
  -- If the copies of `ListMeta`, `ObjectMeta`, `ManagedResourceSpec` and `ResourceStatus` are deep,
  -- `DeepCopyObject` of a list of projects that lies in the memory is a pointer that is not nil, to
  -- a list that reads as the source, reaches only new memory, and leaves the memory that was there
  -- as it was; and that of nil is nil, not a pointer that is nil.
  pub project_list_object-ListCopied :
      IsDeep list_meta
      → IsDeep meta
      → IsDeep managed
      → IsDeep resource
      → (m : Store (Kind X M R ProjectCell OpsManagerProjectObservation))
      → (l : KindList L (Kind X M R ProjectCell OpsManagerProjectObservation))
      → WithinList list_meta
          (project_item meta managed resource)
          (Below m.heap.next)
          (Below m.next)
          m
          l
      → let (o, k) = project_list_object meta managed resource list_meta (some l) m in
        ((q : KindList L (Kind X M R ProjectCell OpsManagerProjectObservation)) × (o
            ≡ some (some q))
          × ListCopied list_meta (project_item meta managed resource) m l q k)
        × (project_list_object meta managed resource list_meta none m ≡ (none, m))
  unfolding project_list_object as_object deep_copy_project_list copy_project_list
  project_list_object-ListCopied ld xd md rd m l w =
      let deep =
        kind-IsDeep meta managed resource project_parameters xd md rd project_parameters-IsDeep in
      let c = copy_list-ListCopied list_meta (project_item meta managed resource) ld deep m l w in
      ((_, refl, c), refl)
