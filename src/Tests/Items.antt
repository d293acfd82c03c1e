-- ===== src/Tests/Items.antt =====
-- A list of one project, its copy, and a write through the copy's pointer.
use opsmanager_crossplane_pr.Common.{◌≡◌, refl, some, none, [], ◌∷◌, String, arith}
use opsmanager_crossplane_pr.Project.{OpsManagerProjectObservation}
use opsmanager_crossplane_pr.DeepCopy.Memory.Areas.{mappings_area, schedule_area}
use opsmanager_crossplane_pr.DeepCopy.Copying.{Below, flat, flat-IsDeep}
use opsmanager_crossplane_pr.DeepCopy.Projects.{
  ProjectCell, project_parameters, project_parameters-IsDeep,
}
use opsmanager_crossplane_pr.DeepCopy.Kinds.{Kind, kind-IsDeep}
use opsmanager_crossplane_pr.DeepCopy.Lists.{KindList, Store, copy_list, view_list}
use opsmanager_crossplane_pr.DeepCopy.Lists.Copied.{WithinList, ListCopied}
use opsmanager_crossplane_pr.DeepCopy.Lists.Items.{
  ItemPointer, get_elem?, update, items_of, get_items, read_item, write_item,
}
use opsmanager_crossplane_pr.DeepCopy.Lists.Items.Writes.{copy_list-write_item}
use opsmanager_crossplane_pr.DeepCopy.Lists.Objects.{
  project_list_object, project_item, project_list_object-ListCopied,
}
use opsmanager_crossplane_pr.Tests.Copies.{memory, shop_resource, shop_inside}

abbrev ShopKind : Type 0
ShopKind = Kind String String String ProjectCell OpsManagerProjectObservation

abbrev shelf : Store ShopKind
shelf = record { heap = memory; next = 1; arrays = λ a. shop_resource ∷ [] }

abbrev shops : KindList String ShopKind
shops = record {
  type_meta = record { kind = "OpsManagerProjectList"; api_version = "v1alpha1" };
  list_meta = "7";
  items = some (record { address = 0 });
}

shops_inside : WithinList flat (project_item flat flat flat) (Below 4) (Below 1) shelf shops
shops_inside = (tt, (omega arith, ((tt, ((tt, shop_inside), tt)), tt)))

-- The pointer to the only item of the copy.
abbrev first : ItemPointer
first = record { array = 1; index = 0 }

abbrev renamed : ShopKind
renamed = record shop_resource { object_meta = "renamed" }

copy_list-write_item_example :
    let (q, k) = copy_list flat (project_item flat flat flat) shops shelf in
    (read_item first (write_item first renamed k) ≡ some renamed)
    × (items_of (write_item first renamed k) q.items ≡ update 0 renamed (items_of k q.items))
    × (view_list flat (project_item flat flat flat) (write_item first renamed k) shops
        ≡ view_list flat (project_item flat flat flat) shelf shops)
unfolding copy_list get_items get_elem? opsmanager_crossplane_pr.Common.nat_eq
    native.Mathlib.Decide.ℕ_discrete opsmanager_crossplane_pr.DeepCopy.Copying.Slices.copy_each
copy_list-write_item_example =
    copy_list-write_item flat (project_item flat flat flat) flat-IsDeep
      (kind-IsDeep flat flat flat project_parameters flat-IsDeep flat-IsDeep flat-IsDeep
        project_parameters-IsDeep)
      shelf shops shops_inside 0 first renamed refl

project_list_object-ListCopied_example :
    let (o, k) = project_list_object flat flat flat flat (some shops) shelf in
    ((q : KindList String ShopKind) × (o ≡ some (some q))
      × ListCopied flat (project_item flat flat flat) shelf shops q k)
    × (project_list_object flat flat flat (flat {A = String}) none shelf ≡ (none, shelf))
project_list_object-ListCopied_example =
    project_list_object-ListCopied flat flat flat flat flat-IsDeep flat-IsDeep flat-IsDeep
      flat-IsDeep shelf shops shops_inside
