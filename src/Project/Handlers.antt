-- ===== src/Project/Handlers.antt =====
-- `Observe`, `Create` and `Update`, with `findBackupClusterID`.
pub mod Methods
pub mod Updating
pub mod Converging
pub mod Rounds
pub mod Zero
use opsmanager_crossplane_pr.Common.{
  Bool, true, false, ◌&&◌, ◌||◌, not, Option, none, some, List, [], ◌∷◌, String, ◌<>◌, is_empty,
  if◌then◌else◌,
}
use opsmanager_crossplane_pr.Errors.{Err, new_error, wrap, is_not_found}
use opsmanager_crossplane_pr.Effects.{
  Result, ok, err, normal, warning, M, ◌>>=◌, ◌>>◌, return, fail, or_wrap, call, resource, modify,
  emit,
}
use opsmanager_crossplane_pr.Managed.{ExternalObservation, absent, set_external_name, set_available}
use opsmanager_crossplane_pr.Project.{
  OpsManagerProject, OpsManagerProjectParameters, SnapshotSchedule, ApiProject, BackupConfig,
  ApiSchedule, ProjectCall, get_by_name, list_configs, create, update, get_schedule,
  update_schedule, ProjectService,
}
use opsmanager_crossplane_pr.Project.Schedule.{snapshot_schedule_matches, to_sdk_schedule}
use opsmanager_crossplane_pr.Project.Mappings.{
  ldap_mappings_match, to_sdk_mappings, late_init_project,
}

abbrev pub err_no_backup_config : String
err_no_backup_config =
    "snapshotSchedule declared but no cluster in the project has backup enabled; waiting for a backup config to appear"

-- `ldapUpToDate`, of the spec after late initialisation.
unfoldable pub ldap_up_to_date : OpsManagerProjectParameters → ApiProject → Bool
ldap_up_to_date p o =
    is_empty p.ldap_group_mappings
    || ldap_mappings_match p.ldap_group_mappings o.ldap_group_mappings

-- What `Observe` writes into the resource once the project is found.
unfoldable pub observed_cr : ApiProject → OpsManagerProject → OpsManagerProject
unfolding set_external_name set_available
observed_cr o cr =
    let named =
      set_available (set_external_name o.id (record cr { at_provider = record { id = o.id } })) in
    record named { for_provider = late_init_project cr.for_provider o }

-- What `Create` sends: `WithDefaultAlertsSettings` points to false.
unfoldable pub new_project : OpsManagerProjectParameters → ApiProject
new_project p = record {
  id = "";
  name = p.name;
  org_id = p.org_id;
  ldap_group_mappings = to_sdk_mappings p.ldap_group_mappings;
  with_default_alerts_settings = some false;
}

unfoldable pub patch_of : OpsManagerProjectParameters → ApiProject
patch_of p = record {
  id = "";
  name = "";
  org_id = "";
  ldap_group_mappings = to_sdk_mappings p.ldap_group_mappings;
  with_default_alerts_settings = none;
}

-- The payload of the schedule, with the IDs that the API wants.
unfoldable pub schedule_patch : SnapshotSchedule → String → String → ApiSchedule
schedule_patch schedule group_id cluster_id = record (to_sdk_schedule schedule) {
  cluster_id = cluster_id;
  group_id = group_id;
}

module _ (svc : ProjectService) where
  no_backup_config : {A : Type 0} → M ProjectCall OpsManagerProject A
  no_backup_config = do
    emit warning "NoBackupConfig" err_no_backup_config
    fail (new_error err_no_backup_config)

  first_cluster : List BackupConfig → M ProjectCall OpsManagerProject String
  unfolding no_backup_config
  first_cluster [] = no_backup_config
  first_cluster (c ∷ cs) = return c.cluster_id

  unfoldable pub find_backup_cluster_id : String → M ProjectCall OpsManagerProject String
  unfolding first_cluster
  find_backup_cluster_id project_id = do
    r ← call (list_configs project_id) (λ h. svc.list_configs h project_id)
    configs ← or_wrap "cannot list backup configs for project" r
    first_cluster configs

  observed_schedule : SnapshotSchedule → Result ApiSchedule → M ProjectCall OpsManagerProject Bool
  unfolding no_backup_config
  observed_schedule schedule (ok current) =
      return (snapshot_schedule_matches (some schedule) (some current))
  observed_schedule schedule (err e) =
      if is_not_found (some e)
      then no_backup_config
      else fail (wrap "cannot get snapshot schedule from Ops Manager" e)

  -- `scheduleUpToDate`: true without a schedule, and while the resource is being deleted.
  unfoldable pub schedule_up_to_date :
      Option SnapshotSchedule → Bool → String → M ProjectCall OpsManagerProject Bool
  unfolding observed_schedule find_backup_cluster_id
  schedule_up_to_date none deleted project_id = return true
  schedule_up_to_date (some schedule) true project_id = return true
  schedule_up_to_date (some schedule) false project_id = do
    cluster_id ← find_backup_cluster_id project_id
    r ← call (get_schedule project_id cluster_id) (λ h. svc.get_schedule h project_id cluster_id)
    observed_schedule schedule r

  observe_found : Result ApiProject → M ProjectCall OpsManagerProject ExternalObservation
  observe_found (ok o) = do
    modify (observed_cr o)
    cr ← resource
    schedule_ok ← schedule_up_to_date cr.for_provider.snapshot_schedule cr.deleted o.id
    return (record {
      resource_exists = true;
      resource_up_to_date = ldap_up_to_date cr.for_provider o && schedule_ok;
      resource_late_initialized = false;
    })
  observe_found (err e) =
      if is_not_found (some e)
      then return absent
      else fail (wrap "cannot get project from Ops Manager" e)

  unfoldable pub observe : M ProjectCall OpsManagerProject ExternalObservation
  unfolding observe_found
  observe = do
    cr ← resource
    r ← call (get_by_name cr.for_provider.name) (λ h. svc.get_by_name h cr.for_provider.name)
    observe_found r

  adopt : String → OpsManagerProject → OpsManagerProject
  unfolding set_external_name
  adopt id cr = set_external_name id (record cr { at_provider = record { id = id } })

  create_new : M ProjectCall OpsManagerProject (Unit {0})
  unfolding adopt
  create_new = do
    cr ← resource
    let project = new_project cr.for_provider
    r ← call (create project) (λ h. svc.create h project)
    created ← or_wrap "cannot create project in Ops Manager" r
    modify (adopt created.id)
    emit normal "CreatedProject" ("created Ops Manager project " <> created.id)

  create_checked : Result ApiProject → M ProjectCall OpsManagerProject (Unit {0})
  unfolding create_new
  create_checked (ok existing) = do
    modify (adopt existing.id)
    modify (λ c. record c { for_provider = late_init_project c.for_provider existing })
    emit normal "AdoptedProject" ("adopted existing Ops Manager project " <> existing.id)
  create_checked (err e) =
      if is_not_found (some e)
      then create_new
      else fail (wrap "cannot get project from Ops Manager" e)

  unfoldable pub create_project : M ProjectCall OpsManagerProject (Unit {0})
  unfolding create_checked
  create_project = do
    cr ← resource
    r ← call (get_by_name cr.for_provider.name) (λ h. svc.get_by_name h cr.for_provider.name)
    create_checked r

  update_snapshot : Option SnapshotSchedule → String → M ProjectCall OpsManagerProject (Unit {0})
  unfolding find_backup_cluster_id
  update_snapshot none id = return tt
  update_snapshot (some schedule) id = do
    cluster_id ← find_backup_cluster_id id
    let patch = schedule_patch schedule id cluster_id
    r ← call (update_schedule id cluster_id patch) (λ h. svc.update_schedule h id cluster_id patch)
    or_wrap "cannot update snapshot schedule in Ops Manager" r

  unfoldable pub update_project : M ProjectCall OpsManagerProject (Unit {0})
  unfolding update_snapshot
  update_project = do
    cr ← resource
    let id = cr.at_provider.id
    let patch = patch_of cr.for_provider
    r ← call (update id patch) (λ h. svc.update h id patch)
    or_wrap "cannot update project LDAP group mappings in Ops Manager" r
    update_snapshot cr.for_provider.snapshot_schedule id
