-- ===== src/Tests/Projects.antt =====
-- The projects: one with a schedule, two backup configs, and three answers to their listing.
use opsmanager_crossplane_pr.Common.{
  ◌≡◌, ◌≢◌, ◌==◌, ◌↔◌, refl, ap, arith, Bool, true, false, List, [], ◌∷◌, Option, none, some,
  String, pos, string_eq, inl, inr,
}
use opsmanager_crossplane_pr.Errors.{Err}
use opsmanager_crossplane_pr.Effects.{ok, err, St}
use opsmanager_crossplane_pr.Project.{
  LdapGroupMapping, SnapshotSchedule, OpsManagerProjectParameters, OpsManagerProject, ApiMapping,
  ApiProject, BackupConfig, ApiSchedule, ProjectCall, get_by_name, list_configs, delete,
  update_config, create, update, ProjectService,
}
use opsmanager_crossplane_pr.Project.Schedule.{snapshot_schedule_matches, to_sdk_schedule}
use opsmanager_crossplane_pr.Project.Schedule.Sync.{InSync, snapshot_schedule_matches_iff}
use opsmanager_crossplane_pr.Project.Mappings.{
  ldap_mappings_match, to_sdk_mappings, from_sdk_mappings, late_init_project,
}
use opsmanager_crossplane_pr.Project.Mappings.Matching.{
  last_groups, ldap_mappings_match-from_sdk, ldap_mappings_match-to_sdk,
}
use opsmanager_crossplane_pr.Project.Handlers.{
  observe, update_project, ldap_up_to_date, patch_of, find_backup_cluster_id, schedule_patch,
}
use opsmanager_crossplane_pr.Project.Handlers.Converging.{found_up_to_date, observe_iff}
use opsmanager_crossplane_pr.Project.Handlers.Methods.{looked_up, ScheduleKept}
use opsmanager_crossplane_pr.Project.Handlers.Updating.{ProjectSent, update_project-ProjectSent}
use opsmanager_crossplane_pr.Project.Removal.{
  delete_project, stopping, ending, status_patch, is_started, is_stopped,
}
use opsmanager_crossplane_pr.Project.Removal.Drain.{here, later, SentOnly, patches}
use opsmanager_crossplane_pr.Project.Removal.Deleting.{
  delete_waits_for_stop, ProjectDeleted, delete_project-ProjectDeleted,
}
use opsmanager_crossplane_pr.Project.Removal.Plan.{any, plan, delete_project-plan}
use opsmanager_crossplane_pr.Tests.{not_found}

-- Texts that the test tells apart are not equal.
pub text_ne : {a b : String} → (a == b) ≡ false → a ≢ b
text_ne h e = ground arith

abbrev readers : LdapGroupMapping
readers = record { role_name = "GROUP_READ_ONLY"; ldap_groups = "cn=a" ∷ "cn=b" ∷ [] }

abbrev pub schedule : SnapshotSchedule
schedule = record {
  snapshot_retention_days = some (pos 7);
  daily_snapshot_retention_days = some (pos 14);
  weekly_snapshot_retention_weeks = none;
  monthly_snapshot_retention_months = none;
  point_in_time_window_hours = none;
  snapshot_interval_hours = some (pos 6);
  cluster_checkpoint_interval_min = none;
  reference_hour_of_day = some (pos 3);
  reference_minute_of_hour = none;
}

abbrev spec : OpsManagerProjectParameters
spec = record {
  name = "shop";
  org_id = "org";
  ldap_group_mappings = readers ∷ [];
  snapshot_schedule = some schedule;
}

abbrev pub stored : ApiProject
stored = record {
  id = "p1";
  name = "shop";
  org_id = "org";
  ldap_group_mappings =
      record { role_name = "GROUP_READ_ONLY"; ldap_groups = "cn=b" ∷ "cn=a" ∷ [] } ∷ [];
  with_default_alerts_settings = none;
}

abbrev pub config : String → String → BackupConfig
config id status = record { cluster_id = id; status_name = status }

abbrev pub with_configs : List BackupConfig → ProjectService
with_configs cs = record {
  get_by_name = λ h name. ok stored;
  create = λ h p. ok stored;
  update = λ h id p. ok tt;
  delete = λ h id. ok tt;
  list_configs = λ h id. ok cs;
  update_config = λ h id c p. ok tt;
  get_schedule = λ h id c. ok (to_sdk_schedule schedule);
  update_schedule = λ h id c p. ok tt;
}

abbrev running : List BackupConfig
running = config "c1" "INACTIVE" ∷ config "c2" "STARTED" ∷ []

abbrev paused : List BackupConfig
paused = config "c1" "TERMINATING" ∷ config "c2" "STOPPED" ∷ []

abbrev pub idle : List BackupConfig
idle = config "c1" "INACTIVE" ∷ config "c2" "INACTIVE" ∷ []

abbrev cr : OpsManagerProject
cr = record {
  annotations = [];
  deleted = false;
  ready = false;
  provider_config_ref = none;
  for_provider = spec;
  at_provider = record { id = "p1" };
}

abbrev pub at_start : St ProjectCall OpsManagerProject
at_start = record { cr = cr; calls = []; events = [] }

delete_project-ProjectDeleted_example :
    ProjectDeleted (with_configs idle) at_start (delete_project (with_configs idle) at_start).1
unfolding delete_project string_eq opsmanager_crossplane_pr.Project.Removal.delete_listed
    opsmanager_crossplane_pr.Project.Removal.drain
    opsmanager_crossplane_pr.Project.Removal.patch_all
    opsmanager_crossplane_pr.Project.Removal.wait_for
    opsmanager_crossplane_pr.Project.Removal.deleted
delete_project-ProjectDeleted_example =
    delete_project-ProjectDeleted (with_configs idle) at_start refl

delete_waits_for_stop_example :
    let t = delete_project (with_configs running) at_start in
    ((e : Err) × (t.0 ≡ err e)) × SentOnly "p1" stopping (list_configs "p1" ∷ []) t.1.calls
unfolding string_eq
delete_waits_for_stop_example =
    delete_waits_for_stop (with_configs running) at_start running (text_ne refl) refl
      (later (here refl))

delete_project-plan_example :
    (delete_project (with_configs paused) at_start).1.calls
    ≡ update_config "p1" "c2" (status_patch "TERMINATING") ∷ list_configs "p1" ∷ []
unfolding patches string_eq plan any
delete_project-plan_example =
    delete_project-plan (with_configs paused) at_start paused (text_ne refl) refl (λ h c p. refl)

observe_iff_example : ((observe (with_configs running) at_start).0 ≡ ok found_up_to_date) ↔ (
    (o : ApiProject) × (looked_up (with_configs running) at_start ≡ ok o)
    × (ldap_up_to_date (late_init_project spec o) o ≡ true)
    × ScheduleKept (with_configs running) at_start o.id)
observe_iff_example = observe_iff (with_configs running) at_start

-- An API that has what `Update` sends.
abbrev written : ApiProject
written = record stored { ldap_group_mappings = to_sdk_mappings (readers ∷ []) }

abbrev in_step : ProjectService
in_step = record (with_configs running) {
  get_by_name = λ h name. ok written;
  get_schedule = λ h id c. ok (schedule_patch schedule id c);
}

abbrev nothing_stored : ProjectService
nothing_stored = record (with_configs []) { get_by_name = λ h name. err not_found }

update_project-ProjectSent_example :
    let t = (update_project (with_configs running) at_start).1 in
    ((with_configs running).update [] "p1" (patch_of spec) ≡ ok tt)
    × ProjectSent (with_configs running) at_start t.calls
    × (t.cr ≡ cr)
    × (t.events ≡ [])
unfolding update_project find_backup_cluster_id
update_project-ProjectSent_example = update_project-ProjectSent (with_configs running) at_start refl

snapshot_schedule_matches_iff_example :
    (snapshot_schedule_matches (some schedule) (some (to_sdk_schedule schedule)) ≡ true)
    ↔ InSync schedule (to_sdk_schedule schedule)
snapshot_schedule_matches_iff_example =
    snapshot_schedule_matches_iff schedule (to_sdk_schedule schedule)

ldap_mappings_match-to_sdk_example :
    (ldap_mappings_match (readers ∷ []) (to_sdk_mappings (readers ∷ [])) ≡ true)
    × (from_sdk_mappings (to_sdk_mappings (readers ∷ [])) ≡ readers ∷ [])
unfolding to_sdk_mappings last_groups
ldap_mappings_match-to_sdk_example = ldap_mappings_match-to_sdk (readers ∷ []) (refl, tt)

ldap_mappings_match-from_sdk_example :
    ldap_mappings_match (from_sdk_mappings stored.ldap_group_mappings) stored.ldap_group_mappings
    ≡ true
unfolding last_groups
ldap_mappings_match-from_sdk_example =
    ldap_mappings_match-from_sdk stored.ldap_group_mappings (refl, tt)

abbrev owners : ApiMapping
owners = record { role_name = "GROUP_OWNER"; ldap_groups = "cn=root" ∷ [] }

abbrev other_readers : LdapGroupMapping
other_readers = record { role_name = "GROUP_READ_ONLY"; ldap_groups = "cn=c" ∷ [] }

-- A role that the spec lists twice, with other groups, does not match what is sent for it.
duplicate_drifts :
    ldap_mappings_match
      (readers ∷ other_readers ∷ [])
      (to_sdk_mappings (readers ∷ other_readers ∷ []))
    ≡ false
unfolding ldap_mappings_match opsmanager_crossplane_pr.Common.nat_eq
    native.Mathlib.Decide.ℕ_discrete to_sdk_mappings
    opsmanager_crossplane_pr.Project.Mappings.all_match
    opsmanager_crossplane_pr.Project.Mappings.groups_match opsmanager_crossplane_pr.Common.lookup
    opsmanager_crossplane_pr.Project.Mappings.observed_map opsmanager_crossplane_pr.Common.insert
    string_eq opsmanager_crossplane_pr.Labels.string_slices_equal
    opsmanager_crossplane_pr.Project.Mappings.sort_strings
duplicate_drifts = refl
