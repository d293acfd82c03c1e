-- ===== src/Tests/Keeping.antt =====
-- An API of projects that keeps the mappings and the schedule that it is sent.
use opsmanager_crossplane_pr.Common.{
  ℤ, pos, ◌≡◌, ◌≢◌, refl, ap, Option, none, some, ◌==◌, int_eq, if◌then◌else◌, List, [], ◌∷◌, inl,
  string_eq,
}
use opsmanager_crossplane_pr.Effects.{Result, ok, err, St}
use opsmanager_crossplane_pr.Project.{
  OpsManagerProject, ApiProject, ApiMapping, ApiSchedule, ProjectCall, get_by_name, get_schedule,
  create, update, update_schedule, ProjectService,
}
use opsmanager_crossplane_pr.Project.Schedule.{to_sdk_schedule}
use opsmanager_crossplane_pr.Project.Mappings.{to_sdk_mappings}
use opsmanager_crossplane_pr.Project.Handlers.{observe, create_project, update_project, new_project}
use opsmanager_crossplane_pr.Project.Handlers.Converging.{found_up_to_date}
use opsmanager_crossplane_pr.Project.Handlers.Rounds.{create_then_observe_project}
use opsmanager_crossplane_pr.Project.Handlers.Zero.{with_schedule, with_retention, explicit_zero}
use opsmanager_crossplane_pr.Tests.{not_found}
use opsmanager_crossplane_pr.Tests.Projects.{at_start, idle, schedule, stored, with_configs}

mappings_now : List ProjectCall → List ApiMapping
mappings_now [] = []
mappings_now (update id p ∷ h) = p.ldap_group_mappings
mappings_now (create p ∷ h) = p.ldap_group_mappings
mappings_now (c ∷ h) = mappings_now h

-- A field that a payload does not carry stays as it was.
merge_plain : ℤ → ℤ → ℤ
merge_plain sent before = if sent == pos 0 then before else sent

merge_pointer : Option ℤ → Option ℤ → Option ℤ
merge_pointer none before = before
merge_pointer (some n) before = some n

merge : ApiSchedule → ApiSchedule → ApiSchedule
unfolding merge_plain merge_pointer
merge sent before = record before {
  snapshot_retention_days = merge_plain sent.snapshot_retention_days before.snapshot_retention_days;
  snapshot_interval_hours = merge_plain sent.snapshot_interval_hours before.snapshot_interval_hours;
  cluster_checkpoint_interval_min =
      merge_plain sent.cluster_checkpoint_interval_min before.cluster_checkpoint_interval_min;
  daily_snapshot_retention_days =
      merge_pointer sent.daily_snapshot_retention_days before.daily_snapshot_retention_days;
  weekly_snapshot_retention_weeks =
      merge_pointer sent.weekly_snapshot_retention_weeks before.weekly_snapshot_retention_weeks;
  monthly_snapshot_retention_months =
      merge_pointer sent.monthly_snapshot_retention_months before.monthly_snapshot_retention_months;
  point_in_time_window_hours =
      merge_pointer sent.point_in_time_window_hours before.point_in_time_window_hours;
  reference_hour_of_day = merge_pointer sent.reference_hour_of_day before.reference_hour_of_day;
  reference_minute_of_hour =
      merge_pointer sent.reference_minute_of_hour before.reference_minute_of_hour;
}

schedule_now : List ProjectCall → ApiSchedule
schedule_now [] = to_sdk_schedule schedule
schedule_now (update_schedule id c s ∷ h) = merge s (schedule_now h)
schedule_now (c ∷ h) = schedule_now h

abbrev project_now : List ProjectCall → ApiProject
project_now h = record stored { ldap_group_mappings = mappings_now h }

abbrev keeping : ProjectService
keeping = record (with_configs idle) {
  get_by_name = λ h name. ok (project_now h);
  get_schedule = λ h id c. ok (schedule_now h);
}

-- A project without a schedule, which the API does not have at first.
abbrev unborn : St ProjectCall OpsManagerProject
unborn = record at_start {
  cr = record at_start.cr {
    for_provider = record at_start.cr.for_provider { snapshot_schedule = none };
  };
}

looked_up_now : List ProjectCall → Result ApiProject
looked_up_now [] = err not_found
looked_up_now (c ∷ h) = ok (project_now (c ∷ h))

abbrev creating : ProjectService
creating = record keeping { get_by_name = λ h name. looked_up_now h }

create_then_observe_project_example :
    (observe creating (create_project creating unborn).1).0 ≡ ok found_up_to_date
unfolding create_project to_sdk_mappings looked_up_now mappings_now new_project
    opsmanager_crossplane_pr.Project.Mappings.Matching.last_groups
    opsmanager_crossplane_pr.Errors.is_not_found opsmanager_crossplane_pr.Common.nat_eq
    native.Mathlib.Decide.ℕ_discrete
create_then_observe_project_example =
    create_then_observe_project creating unborn not_found
      (λ h o a. (
        project_now (create (new_project unborn.cr.for_provider) ∷ h),
        refl,
        ap (λ r. elim r [ ok x ↦ x.id | err e ↦ "" ]) a,
        inl refl,
      ))
      refl (refl, tt) refl refl refl

-- An API that answers with one schedule, which keeps 7 days.
seven_days :
    (current : ApiSchedule)
    → ok (to_sdk_schedule schedule) ≡ ok current
    → current.snapshot_retention_days ≢ pos 0
unfolding to_sdk_schedule opsmanager_crossplane_pr.Project.Schedule.or_zero
seven_days current e z = cc

explicit_zero_example :
    let unset =
      update_project (with_configs idle) (with_schedule at_start (with_retention schedule none)) in
    let zero = with_schedule at_start (with_retention schedule (some (pos 0))) in
    let updated = update_project (with_configs idle) zero in
    (updated.0 ≡ unset.0)
    × (updated.1.calls ≡ unset.1.calls)
    × ((observe (with_configs idle) zero).0 ≢ ok found_up_to_date)
    × ((observe (with_configs idle) updated.1).0 ≢ ok found_up_to_date)
explicit_zero_example =
    explicit_zero (with_configs idle) at_start schedule (λ h id c current e. seven_days current e)
      refl
