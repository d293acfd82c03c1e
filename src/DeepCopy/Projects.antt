-- ===== src/DeepCopy/Projects.antt =====
-- The deep copies of `LDAPGroupMapping`, `SnapshotSchedule` and `OpsManagerProjectParameters`.
use opsmanager_crossplane_pr.Common.{ℤ, refl, Option, List, String, elements}
use opsmanager_crossplane_pr.DeepCopy.Memory.{
  Ref, MappingCell, ScheduleCell, Heap, Alloc, ◌>>=◌, return,
}
use opsmanager_crossplane_pr.DeepCopy.Memory.Areas.{
  bool_area, int_area, texts_area, selector_area, mappings_area, schedule_area,
}
use opsmanager_crossplane_pr.DeepCopy.Copying.{
  copy_or_nil, Copying, IsDeep, flat, ◌⊗◌, ◌&◌, ◌⊕◌, both-IsDeep, of_fields-IsDeep,
}
use opsmanager_crossplane_pr.DeepCopy.Copying.Slices.{each, each-IsDeep}
use opsmanager_crossplane_pr.DeepCopy.Copying.References.{
  behind, copy_behind, view_behind, behind-IsDeep, value, copy_value, value-IsDeep,
}
use opsmanager_crossplane_pr.Project.{
  LdapGroupMapping, SnapshotSchedule, OpsManagerProjectParameters,
}

unfoldable pub copy_mapping : MappingCell → Alloc MappingCell
copy_mapping p = do
  ldap_groups ← copy_value p.ldap_groups
  return (record p { ldap_groups = ldap_groups })

unfoldable pub view_mapping : Heap → MappingCell → LdapGroupMapping
view_mapping h p = record {
  role_name = p.role_name;
  ldap_groups = elements (view_behind flat h p.ldap_groups);
}

abbrev pub mapping_fields : Copying (Option (Ref (List String))) (Option (List String))
mapping_fields = value

-- The interface of `MappingCell`.
abbrev pub mapping : Copying MappingCell LdapGroupMapping
mapping = record {
  copy = copy_mapping;
  view = view_mapping;
  Within = λ P h p. mapping_fields.Within P h (p.ldap_groups);
}

pub mapping-IsDeep : IsDeep mapping
unfolding copy_mapping view_mapping
mapping-IsDeep =
    of_fields-IsDeep (λ (p : MappingCell). p.ldap_groups) (λ p t. record p { ldap_groups = t })
      (λ p t. record { role_name = p.role_name; ldap_groups = elements t }) mapping_fields
      value-IsDeep (λ p t. refl) (λ p t v. refl)

unfoldable pub copy_schedule : ScheduleCell → Alloc ScheduleCell
copy_schedule p = do
  snapshot_retention_days ← copy_value p.snapshot_retention_days
  daily_snapshot_retention_days ← copy_value p.daily_snapshot_retention_days
  weekly_snapshot_retention_weeks ← copy_value p.weekly_snapshot_retention_weeks
  monthly_snapshot_retention_months ← copy_value p.monthly_snapshot_retention_months
  point_in_time_window_hours ← copy_value p.point_in_time_window_hours
  snapshot_interval_hours ← copy_value p.snapshot_interval_hours
  cluster_checkpoint_interval_min ← copy_value p.cluster_checkpoint_interval_min
  reference_hour_of_day ← copy_value p.reference_hour_of_day
  reference_minute_of_hour ← copy_value p.reference_minute_of_hour
  return (record p {
    snapshot_retention_days = snapshot_retention_days;
    daily_snapshot_retention_days = daily_snapshot_retention_days;
    weekly_snapshot_retention_weeks = weekly_snapshot_retention_weeks;
    monthly_snapshot_retention_months = monthly_snapshot_retention_months;
    point_in_time_window_hours = point_in_time_window_hours;
    snapshot_interval_hours = snapshot_interval_hours;
    cluster_checkpoint_interval_min = cluster_checkpoint_interval_min;
    reference_hour_of_day = reference_hour_of_day;
    reference_minute_of_hour = reference_minute_of_hour;
  })

unfoldable pub view_schedule : Heap → ScheduleCell → SnapshotSchedule
view_schedule h p = record {
  snapshot_retention_days = view_behind flat h p.snapshot_retention_days;
  daily_snapshot_retention_days = view_behind flat h p.daily_snapshot_retention_days;
  weekly_snapshot_retention_weeks = view_behind flat h p.weekly_snapshot_retention_weeks;
  monthly_snapshot_retention_months = view_behind flat h p.monthly_snapshot_retention_months;
  point_in_time_window_hours = view_behind flat h p.point_in_time_window_hours;
  snapshot_interval_hours = view_behind flat h p.snapshot_interval_hours;
  cluster_checkpoint_interval_min = view_behind flat h p.cluster_checkpoint_interval_min;
  reference_hour_of_day = view_behind flat h p.reference_hour_of_day;
  reference_minute_of_hour = view_behind flat h p.reference_minute_of_hour;
}

abbrev pub schedule_fields :
    Copying
      (Option (Ref ℤ)
        ⊗ Option (Ref ℤ)
        ⊗ Option (Ref ℤ)
        ⊗ Option (Ref ℤ)
        ⊗ Option (Ref ℤ)
        ⊗ Option (Ref ℤ)
        ⊗ Option (Ref ℤ)
        ⊗ Option (Ref ℤ)
        ⊗ Option (Ref ℤ))
      (Option ℤ
        ⊗ Option ℤ
        ⊗ Option ℤ
        ⊗ Option ℤ
        ⊗ Option ℤ
        ⊗ Option ℤ
        ⊗ Option ℤ
        ⊗ Option ℤ
        ⊗ Option ℤ)
schedule_fields = value ⊕ value ⊕ value ⊕ value ⊕ value ⊕ value ⊕ value ⊕ value ⊕ value

-- The interface of `ScheduleCell`.
abbrev pub schedule : Copying ScheduleCell SnapshotSchedule
schedule = record {
  copy = copy_schedule;
  view = view_schedule;
  Within = λ P h p. schedule_fields.Within P h (
      p.snapshot_retention_days & p.daily_snapshot_retention_days
      & p.weekly_snapshot_retention_weeks & p.monthly_snapshot_retention_months
      & p.point_in_time_window_hours & p.snapshot_interval_hours & p.cluster_checkpoint_interval_min
      & p.reference_hour_of_day & p.reference_minute_of_hour);
}

pub schedule-IsDeep : IsDeep schedule
unfolding copy_schedule view_schedule
schedule-IsDeep =
    of_fields-IsDeep
      (λ (p : ScheduleCell).
        p.snapshot_retention_days & p.daily_snapshot_retention_days
        & p.weekly_snapshot_retention_weeks & p.monthly_snapshot_retention_months
        & p.point_in_time_window_hours & p.snapshot_interval_hours
        & p.cluster_checkpoint_interval_min & p.reference_hour_of_day & p.reference_minute_of_hour)
      (λ p t. record p {
        snapshot_retention_days = t.0;
        daily_snapshot_retention_days = t.1.0;
        weekly_snapshot_retention_weeks = t.1.1.0;
        monthly_snapshot_retention_months = t.1.1.1.0;
        point_in_time_window_hours = t.1.1.1.1.0;
        snapshot_interval_hours = t.1.1.1.1.1.0;
        cluster_checkpoint_interval_min = t.1.1.1.1.1.1.0;
        reference_hour_of_day = t.1.1.1.1.1.1.1.0;
        reference_minute_of_hour = t.1.1.1.1.1.1.1.1;
      })
      (λ p t. record {
        snapshot_retention_days = t.0;
        daily_snapshot_retention_days = t.1.0;
        weekly_snapshot_retention_weeks = t.1.1.0;
        monthly_snapshot_retention_months = t.1.1.1.0;
        point_in_time_window_hours = t.1.1.1.1.0;
        snapshot_interval_hours = t.1.1.1.1.1.0;
        cluster_checkpoint_interval_min = t.1.1.1.1.1.1.0;
        reference_hour_of_day = t.1.1.1.1.1.1.1.0;
        reference_minute_of_hour = t.1.1.1.1.1.1.1.1;
      })
      schedule_fields
      (both-IsDeep value-IsDeep (
        both-IsDeep value-IsDeep (
          both-IsDeep value-IsDeep (
            both-IsDeep value-IsDeep (
              both-IsDeep value-IsDeep (
                both-IsDeep value-IsDeep
                  (both-IsDeep value-IsDeep (both-IsDeep value-IsDeep value-IsDeep))))))))
      (λ p t. refl) (λ p t v. refl)

-- `OpsManagerProjectParameters`, with its pointers.
pub record ProjectCell : Type 0 where
  pub name : String
  pub org_id : String
  pub ldap_group_mappings : Option (Ref (List MappingCell))
  pub snapshot_schedule : Option (Ref ScheduleCell)

unfoldable pub copy_project_parameters : ProjectCell → Alloc ProjectCell
copy_project_parameters p = do
  ldap_group_mappings ← copy_behind (each mapping) p.ldap_group_mappings
  snapshot_schedule ← copy_behind schedule p.snapshot_schedule
  return (record p {
    ldap_group_mappings = ldap_group_mappings;
    snapshot_schedule = snapshot_schedule;
  })

unfoldable pub view_project_parameters : Heap → ProjectCell → OpsManagerProjectParameters
view_project_parameters h p = record {
  name = p.name;
  org_id = p.org_id;
  ldap_group_mappings = elements (view_behind (each mapping) h p.ldap_group_mappings);
  snapshot_schedule = view_behind schedule h p.snapshot_schedule;
}

abbrev pub project_parameters_fields :
    Copying
      (Option (Ref (List MappingCell)) ⊗ Option (Ref ScheduleCell))
      (Option (List LdapGroupMapping) ⊗ Option SnapshotSchedule)
project_parameters_fields = (behind (each mapping)) ⊕ (behind schedule)

-- The interface of `ProjectCell`.
abbrev pub project_parameters : Copying ProjectCell OpsManagerProjectParameters
project_parameters = record {
  copy = copy_project_parameters;
  view = view_project_parameters;
  Within =
      λ P h p. project_parameters_fields.Within P h (p.ldap_group_mappings & p.snapshot_schedule);
}

pub project_parameters-IsDeep : IsDeep project_parameters
unfolding copy_project_parameters view_project_parameters
project_parameters-IsDeep =
    of_fields-IsDeep (λ (p : ProjectCell). p.ldap_group_mappings & p.snapshot_schedule)
      (λ p t. record p { ldap_group_mappings = t.0; snapshot_schedule = t.1 })
      (λ p t. record {
        name = p.name;
        org_id = p.org_id;
        ldap_group_mappings = elements (t.0);
        snapshot_schedule = t.1;
      })
      project_parameters_fields
      (both-IsDeep (behind-IsDeep (each mapping) (each-IsDeep mapping mapping-IsDeep))
        (behind-IsDeep schedule schedule-IsDeep))
      (λ p t. refl) (λ p t v. refl)

unfoldable pub deep_copy_mapping : Option MappingCell → Alloc (Option MappingCell)
deep_copy_mapping = copy_or_nil copy_mapping

unfoldable pub deep_copy_schedule : Option ScheduleCell → Alloc (Option ScheduleCell)
deep_copy_schedule = copy_or_nil copy_schedule

unfoldable pub deep_copy_project_parameters : Option ProjectCell → Alloc (Option ProjectCell)
deep_copy_project_parameters = copy_or_nil copy_project_parameters
