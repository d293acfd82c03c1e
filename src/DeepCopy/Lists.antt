-- ===== src/DeepCopy/Lists.antt =====
-- The list kinds: their deep copies, over a memory that has the arrays of items beside the heap.
pub mod Copied
pub mod Items
pub mod Objects
use opsmanager_crossplane_pr.Common.{ℕ, suc, Option, none, some, List, [], String, nat_eq}
use opsmanager_crossplane_pr.BackupDaemon.{BackupDaemonObservation}
use opsmanager_crossplane_pr.Project.{OpsManagerProjectObservation}
use opsmanager_crossplane_pr.S3Store.{S3StoreObservation}
use opsmanager_crossplane_pr.DeepCopy.Memory.{Ref, Heap, set, Alloc}
use opsmanager_crossplane_pr.DeepCopy.Copying.{Copying}
use opsmanager_crossplane_pr.DeepCopy.Copying.Slices.{copy_each, view_each}
use opsmanager_crossplane_pr.DeepCopy.Daemons.{DaemonCell, daemon_parameters}
use opsmanager_crossplane_pr.DeepCopy.Projects.{ProjectCell, project_parameters}
use opsmanager_crossplane_pr.DeepCopy.Stores.{S3StoreCell, store_parameters}
use opsmanager_crossplane_pr.DeepCopy.Configs.{ConfigSpecCell}
use opsmanager_crossplane_pr.DeepCopy.Kinds.{TypeMeta, Kind, kind_copying}
use opsmanager_crossplane_pr.DeepCopy.Providers.{
  ClusterProviderConfig, ClusterProviderConfigUsage, provider_config, usage,
}

-- A list kind with items `I`. `ListMeta` is third-party code, and a parameter `L`.
pub record KindList (L I : Type 0) : Type 0 where
  pub type_meta : TypeMeta
  pub list_meta : L
  pub items : Option (Ref (List I))

-- The heap that the items refer to, and the arrays, of which those below `next` are allocated.
pub record Store (I : Type 0) : Type 0 where
  pub heap : Heap
  pub next : ℕ
  pub arrays : ℕ → List I

-- What a `KindList` reads as.
pub record ListValue (LV V : Type 0) : Type 0 where
  pub type_meta : TypeMeta
  pub list_meta : LV
  pub items : Option (List V)

abbrev pub InStore : Type 0 → Type 0 → Type 0
InStore I A = Store I → A × Store I

module _ {I : Type 0} where
  infixl 5 ◌>>=◌ ◌>>◌
  abbrev pub ◌>>=◌ : {A B : Type 0} → InStore I A → (A → InStore I B) → InStore I B
  ◌>>=◌ f g m = let (a, k) = f m in g a k

  abbrev pub ◌>>◌ : {B : Type 0} → InStore I (Unit {0}) → InStore I B → InStore I B
  f >> g = f >>= λ _. g

  abbrev pub return : {A : Type 0} → A → InStore I A
  return a m = (a, m)

  abbrev pub in_heap : {A : Type 0} → Alloc A → InStore I A
  in_heap f m = let (a, h) = f m.heap in (a, record m { heap = h })

  -- `make([]I, n)`, reads and writes of a whole array.
  abbrev pub make_array : InStore I (Ref (List I))
  make_array m =
      (record { address = m.next }, record m { next = suc m.next; arrays = set m.arrays m.next [] })

  abbrev pub load_array : Ref (List I) → InStore I (List I)
  load_array r m = (m.arrays r.address, m)

  abbrev pub store_array : Ref (List I) → List I → InStore I (Unit {0})
  store_array r v m = (tt, record m { arrays = set m.arrays r.address v })

module _ {L LV I V : Type 0} (meta : Copying L LV) (item : Copying I V) where
  -- `if in.Items != nil { *out = make(…); for i := range *in { … } }`
  unfoldable pub copy_items : Option (Ref (List I)) → InStore I (Option (Ref (List I)))
  copy_items none = return none
  copy_items (some r) = do
    q ← make_array
    xs ← load_array r
    ys ← in_heap (copy_each item xs)
    store_array q ys
    return (some q)

  unfoldable pub copy_list : KindList L I → InStore I (KindList L I)
  unfolding copy_items
  copy_list l = do
    m ← in_heap (meta.copy l.list_meta)
    items ← copy_items l.items
    return (record l { list_meta = m; items = items })

  abbrev pub view_items : Store I → Option (Ref (List I)) → Option (List V)
  view_items m none = none
  view_items m (some r) = some (view_each item m.heap (m.arrays r.address))

  unfoldable pub view_list : Store I → KindList L I → ListValue LV V
  view_list m l = record {
    type_meta = l.type_meta;
    list_meta = meta.view m.heap l.list_meta;
    items = view_items m l.items;
  }

-- `DeepCopy` of a list kind, with what its `DeepCopyInto` does: nil for nil.
abbrev pub list_or_nil : {I A : Type 0} → (A → InStore I A) → Option A → InStore I (Option A)
list_or_nil into none = return none
list_or_nil into (some a) = do c ← into a; return (some c)

-- `DeepCopyInto` and `DeepCopy` of a list kind.
abbrev pub CopyList : Type 0 → Type 0 → Type 0
CopyList L I = KindList L I → InStore I (KindList L I)

abbrev pub DeepCopyList : Type 0 → Type 0 → Type 0
DeepCopyList L I = Option (KindList L I) → InStore I (Option (KindList L I))

module _ {L LV X XV M MV R RV : Type 0} (list_meta : Copying L LV) (meta : Copying X XV)
    (managed : Copying M MV) (resource : Copying R RV) where
  unfoldable pub copy_backup_daemon_list :
      CopyList L (Kind X M R DaemonCell BackupDaemonObservation)
  unfolding copy_list
  copy_backup_daemon_list =
      copy_list list_meta (kind_copying meta managed resource daemon_parameters)

  unfoldable pub deep_copy_backup_daemon_list :
      DeepCopyList L (Kind X M R DaemonCell BackupDaemonObservation)
  unfolding copy_backup_daemon_list
  deep_copy_backup_daemon_list = list_or_nil copy_backup_daemon_list

  unfoldable pub copy_project_list :
      CopyList L (Kind X M R ProjectCell OpsManagerProjectObservation)
  unfolding copy_list
  copy_project_list = copy_list list_meta (kind_copying meta managed resource project_parameters)

  unfoldable pub deep_copy_project_list :
      DeepCopyList L (Kind X M R ProjectCell OpsManagerProjectObservation)
  unfolding copy_project_list
  deep_copy_project_list = list_or_nil copy_project_list

  unfoldable pub copy_blockstore_list : CopyList L (Kind X M R S3StoreCell S3StoreObservation)
  unfolding copy_list
  copy_blockstore_list = copy_list list_meta (kind_copying meta managed resource store_parameters)

  unfoldable pub deep_copy_blockstore_list :
      DeepCopyList L (Kind X M R S3StoreCell S3StoreObservation)
  unfolding copy_blockstore_list
  deep_copy_blockstore_list = list_or_nil copy_blockstore_list

  unfoldable pub copy_oplog_store_list : CopyList L (Kind X M R S3StoreCell S3StoreObservation)
  unfolding copy_list
  copy_oplog_store_list = copy_list list_meta (kind_copying meta managed resource store_parameters)

  unfoldable pub deep_copy_oplog_store_list :
      DeepCopyList L (Kind X M R S3StoreCell S3StoreObservation)
  unfolding copy_oplog_store_list
  deep_copy_oplog_store_list = list_or_nil copy_oplog_store_list

module _ {L LV X XV R RV : Type 0} (list_meta : Copying L LV) (meta : Copying X XV)
    (status : Copying R RV) where
  unfoldable pub copy_provider_config_list : CopyList L (ClusterProviderConfig X ConfigSpecCell R)
  unfolding copy_list
  copy_provider_config_list = copy_list list_meta (provider_config meta status)

  unfoldable pub deep_copy_provider_config_list :
      DeepCopyList L (ClusterProviderConfig X ConfigSpecCell R)
  unfolding copy_provider_config_list
  deep_copy_provider_config_list = list_or_nil copy_provider_config_list

module _ {L LV X XV U UV : Type 0} (list_meta : Copying L LV) (meta : Copying X XV)
    (typed : Copying U UV) where
  unfoldable pub copy_usage_list : CopyList L (ClusterProviderConfigUsage X U)
  unfolding copy_list
  copy_usage_list = copy_list list_meta (usage meta typed)

  unfoldable pub deep_copy_usage_list : DeepCopyList L (ClusterProviderConfigUsage X U)
  unfolding copy_usage_list
  deep_copy_usage_list = list_or_nil copy_usage_list
