-- ===== src/DeepCopy/Lists/Items.antt =====
-- `GetItems` of the list kinds, of apis/v1alpha1/zz_generated.managedlist.go and
-- apis/v1beta1/zz_generated.pculist.go.
pub mod Writes
use opsmanager_crossplane_pr.Common.{ℕ, zero, suc, Option, none, some, List, [], ◌∷◌}
use opsmanager_crossplane_pr.BackupDaemon.{BackupDaemonObservation}
use opsmanager_crossplane_pr.Project.{OpsManagerProjectObservation}
use opsmanager_crossplane_pr.S3Store.{S3StoreObservation}
use opsmanager_crossplane_pr.DeepCopy.Memory.{Ref, set}
use opsmanager_crossplane_pr.DeepCopy.Daemons.{DaemonCell}
use opsmanager_crossplane_pr.DeepCopy.Projects.{ProjectCell}
use opsmanager_crossplane_pr.DeepCopy.Stores.{S3StoreCell}
use opsmanager_crossplane_pr.DeepCopy.Kinds.{Kind}
use opsmanager_crossplane_pr.DeepCopy.Providers.{ClusterProviderConfigUsage}
use opsmanager_crossplane_pr.DeepCopy.Lists.{KindList, Store}

-- `&l.Items[i]`: a pointer into an array.
pub record ItemPointer : Type 0 where
  pub array : ℕ
  pub index : ℕ

-- `l[i]`, and `l[i] = v`, which in Go panics where there is no such element.
unfoldable pub get_elem? : {A : Type 0} → List A → ℕ → Option A
get_elem? [] n = none
get_elem? (x ∷ xs) zero = some x
get_elem? (x ∷ xs) (suc n) = get_elem? xs n

unfoldable pub update : {A : Type 0} → ℕ → A → List A → List A
update n v [] = []
update zero v (x ∷ xs) = v ∷ xs
update (suc n) v (x ∷ xs) = x ∷ update n v xs

-- The loop of `GetItems` from an index on, over the elements that are left.
unfoldable pub pointers : {I : Type 0} → ℕ → ℕ → List I → List ItemPointer
pointers a i [] = []
pointers a i (x ∷ xs) = record { array = a; index = i } ∷ pointers a (suc i) xs

module _ {I : Type 0} where
  -- The elements of a list, of which a nil slice has none.
  abbrev pub items_of : Store I → Option (Ref (List I)) → List I
  items_of m none = []
  items_of m (some r) = m.arrays r.address

  abbrev pub pointers_to : Store I → Option (Ref (List I)) → List ItemPointer
  pointers_to m none = []
  pointers_to m (some r) = pointers r.address 0 (m.arrays r.address)

  unfoldable pub get_items : {L : Type 0} → KindList L I → Store I → List ItemPointer
  unfolding pointers
  get_items l m = pointers_to m l.items

  -- `*p` and `*p = v`
  unfoldable pub read_item : ItemPointer → Store I → Option I
  unfolding get_elem?
  read_item p m = get_elem? (m.arrays p.array) p.index

  unfoldable pub write_item : ItemPointer → I → Store I → Store I
  unfolding update
  write_item p v m = record m {
    arrays = set m.arrays p.array (update p.index v (m.arrays p.array));
  }

-- `GetItems` of a list kind.
abbrev pub GetItems : Type 0 → Type 0 → Type 0
GetItems L I = KindList L I → Store I → List ItemPointer

module _ {L X M R : Type 0} where
  unfoldable pub get_backup_daemon_items :
      GetItems L (Kind X M R DaemonCell BackupDaemonObservation)
  unfolding get_items
  get_backup_daemon_items = get_items

  unfoldable pub get_project_items :
      GetItems L (Kind X M R ProjectCell OpsManagerProjectObservation)
  unfolding get_items
  get_project_items = get_items

  unfoldable pub get_blockstore_items : GetItems L (Kind X M R S3StoreCell S3StoreObservation)
  unfolding get_items
  get_blockstore_items = get_items

  unfoldable pub get_oplog_store_items : GetItems L (Kind X M R S3StoreCell S3StoreObservation)
  unfolding get_items
  get_oplog_store_items = get_items

unfoldable pub get_usage_items : {L X U : Type 0} → GetItems L (ClusterProviderConfigUsage X U)
unfolding get_items
get_usage_items = get_items
