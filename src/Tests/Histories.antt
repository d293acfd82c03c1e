-- ===== src/Tests/Histories.antt =====
-- Several methods of a controller in a row, and what they have called.
use opsmanager_crossplane_pr.Common.{◌≡◌, refl, true}
use opsmanager_crossplane_pr.Effects.{St}
use opsmanager_crossplane_pr.Project.{OpsManagerProject, ProjectCall}
use opsmanager_crossplane_pr.Project.Handlers.{observe, update_project}
use opsmanager_crossplane_pr.Project.Removal.{delete_project}
use opsmanager_crossplane_pr.Project.History.{
  guarded, start, edited, observed, updated, removed, guarded_project,
}
use opsmanager_crossplane_pr.S3Blockstore.{blockstore_texts}
use opsmanager_crossplane_pr.S3Store.{S3Store, S3Call}
use opsmanager_crossplane_pr.S3Store.History
use opsmanager_crossplane_pr.S3Store.Handlers.{create_store, delete_store}
use opsmanager_crossplane_pr.Tests.Draining.{draining}
use opsmanager_crossplane_pr.Tests.Projects
use opsmanager_crossplane_pr.Tests.Stores

abbrev project_before : St ProjectCall OpsManagerProject
project_before = (update_project draining (observe draining Projects.at_start).1).1

abbrev again : St ProjectCall OpsManagerProject → St ProjectCall OpsManagerProject
again s = (delete_project draining s).1

-- The resource is marked as deleted, and five deletions follow.
abbrev project_after : St ProjectCall OpsManagerProject
project_after =
    let marked : St ProjectCall OpsManagerProject = record project_before {
      cr = record Projects.at_start.cr { deleted = true };
    } in
    again (again (again (again (again marked))))

guarded_project_example : guarded draining project_after.calls ≡ true
unfolding guarded
guarded_project_example = guarded_project draining Projects.at_start project_after refl (
    removed (
      removed (
        removed (
          removed (
            removed (
              edited (record Projects.at_start.cr { deleted = true })
                (updated (observed start))))))))

abbrev store_after : St S3Call S3Store
store_after =
    (delete_store Stores.in_use blockstore_texts
      (create_store Stores.in_use blockstore_texts Stores.at_start).1).1
