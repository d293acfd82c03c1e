-- ===== src/Project.antt =====
-- The project's controller, internal/controller/project/project.go, with the types of
-- apis/v1alpha1/project_types.go.
pub mod Schedule
pub mod Mappings
pub mod Handlers
pub mod Removal
pub mod History
use opsmanager_crossplane_pr.Common.{ℤ, Bool, Option, List, String}
use opsmanager_crossplane_pr.Effects.{Result}
use opsmanager_crossplane_pr.Managed.{Managed}

pub record LdapGroupMapping : Type 0 where
  pub role_name : String
  pub ldap_groups : List String

pub record SnapshotSchedule : Type 0 where
  pub snapshot_retention_days : Option ℤ
  pub daily_snapshot_retention_days : Option ℤ
  pub weekly_snapshot_retention_weeks : Option ℤ
  pub monthly_snapshot_retention_months : Option ℤ
  pub point_in_time_window_hours : Option ℤ
  pub snapshot_interval_hours : Option ℤ
  pub cluster_checkpoint_interval_min : Option ℤ
  pub reference_hour_of_day : Option ℤ
  pub reference_minute_of_hour : Option ℤ

pub record OpsManagerProjectParameters : Type 0 where
  pub name : String
  pub org_id : String
  pub ldap_group_mappings : List LdapGroupMapping
  pub snapshot_schedule : Option SnapshotSchedule

pub record OpsManagerProjectObservation : Type 0 where
  pub id : String

abbrev pub OpsManagerProject : Type 0
OpsManagerProject = Managed OpsManagerProjectParameters OpsManagerProjectObservation

-- `opsmngr.LDAPGroupMapping`
pub record ApiMapping : Type 0 where
  pub role_name : String
  pub ldap_groups : List String

-- `opsmngr.Project`, the fields that the provider reads or writes.
pub record ApiProject : Type 0 where
  pub id : String
  pub name : String
  pub org_id : String
  pub ldap_group_mappings : List ApiMapping
  pub with_default_alerts_settings : Option Bool

-- `opsmngr.BackupConfig`, likewise.
pub record BackupConfig : Type 0 where
  pub cluster_id : String
  pub status_name : String

-- `opsmngr.SnapshotSchedule`, without its links and time zone.
pub record ApiSchedule : Type 0 where
  pub cluster_id : String
  pub group_id : String
  pub snapshot_retention_days : ℤ
  pub daily_snapshot_retention_days : Option ℤ
  pub weekly_snapshot_retention_weeks : Option ℤ
  pub monthly_snapshot_retention_months : Option ℤ
  pub point_in_time_window_hours : Option ℤ
  pub snapshot_interval_hours : ℤ
  pub cluster_checkpoint_interval_min : ℤ
  pub reference_hour_of_day : Option ℤ
  pub reference_minute_of_hour : Option ℤ

pub data ProjectCall : Type 0 where
  get_by_name delete list_configs : String → ProjectCall
  create : ApiProject → ProjectCall
  update : String → ApiProject → ProjectCall
  update_config : String → String → BackupConfig → ProjectCall
  get_schedule : String → String → ProjectCall
  update_schedule : String → String → ApiSchedule → ProjectCall

-- What answers the calls, after the calls made before, the newest first.
pub record ProjectService : Type 0 where
  pub get_by_name : List ProjectCall → String → Result ApiProject
  pub create : List ProjectCall → ApiProject → Result ApiProject
  pub update : List ProjectCall → String → ApiProject → Result (Unit {0})
  pub delete : List ProjectCall → String → Result (Unit {0})
  pub list_configs : List ProjectCall → String → Result (List BackupConfig)
  pub update_config : List ProjectCall → String → String → BackupConfig → Result (Unit {0})
  pub get_schedule : List ProjectCall → String → String → Result ApiSchedule
  pub update_schedule : List ProjectCall → String → String → ApiSchedule → Result (Unit {0})
