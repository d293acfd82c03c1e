-- ===== src/Project/Schedule.antt =====
-- `snapshotScheduleMatches`, `intPtrEq` and `toSDKSchedule`.
pub mod Sync
pub mod Payload
use opsmanager_crossplane_pr.Common.{
  ℤ, pos, Bool, true, false, ◌&&◌, not, Option, none, some, ◌==◌, ◌!=◌, int_eq, if◌then◌else◌,
}
use opsmanager_crossplane_pr.Project.{SnapshotSchedule, ApiSchedule}

unfoldable pub int_ptr_eq : Option ℤ → Option ℤ → Bool
int_ptr_eq none observed = true
int_ptr_eq (some d) none = false
int_ptr_eq (some d) (some o) = d == o

-- `desired != nil && *desired != observed`
unfoldable pub int_differs : Option ℤ → ℤ → Bool
int_differs none o = false
int_differs (some d) o = d != o

unfoldable pub fields_match : SnapshotSchedule → ApiSchedule → Bool
fields_match d o =
    if int_differs d.snapshot_retention_days o.snapshot_retention_days
    then false
    else if int_differs d.snapshot_interval_hours o.snapshot_interval_hours
    then false
    else if int_differs d.cluster_checkpoint_interval_min o.cluster_checkpoint_interval_min
    then false
    else if not (int_ptr_eq d.daily_snapshot_retention_days o.daily_snapshot_retention_days)
    then false
    else if not (int_ptr_eq d.weekly_snapshot_retention_weeks o.weekly_snapshot_retention_weeks)
    then false
    else if not (int_ptr_eq d.monthly_snapshot_retention_months o.monthly_snapshot_retention_months)
    then false
    else if not (int_ptr_eq d.point_in_time_window_hours o.point_in_time_window_hours)
    then false
    else if not (int_ptr_eq d.reference_hour_of_day o.reference_hour_of_day)
    then false
    else if not (int_ptr_eq d.reference_minute_of_hour o.reference_minute_of_hour)
    then false
    else true

-- The desired schedule may be nil; the observed one is what the API has returned.
unfoldable pub snapshot_schedule_matches : Option SnapshotSchedule → Option ApiSchedule → Bool
snapshot_schedule_matches none observed = true
snapshot_schedule_matches (some d) none = true
snapshot_schedule_matches (some d) (some o) = fields_match d o

-- A plain field of the payload, whose zero value is 0.
unfoldable pub or_zero : Option ℤ → ℤ
or_zero none = pos 0
or_zero (some n) = n

unfoldable pub to_sdk_schedule : SnapshotSchedule → ApiSchedule
to_sdk_schedule s = record {
  cluster_id = "";
  group_id = "";
  snapshot_retention_days = or_zero s.snapshot_retention_days;
  snapshot_interval_hours = or_zero s.snapshot_interval_hours;
  cluster_checkpoint_interval_min = or_zero s.cluster_checkpoint_interval_min;
  daily_snapshot_retention_days = s.daily_snapshot_retention_days;
  weekly_snapshot_retention_weeks = s.weekly_snapshot_retention_weeks;
  monthly_snapshot_retention_months = s.monthly_snapshot_retention_months;
  point_in_time_window_hours = s.point_in_time_window_hours;
  reference_hour_of_day = s.reference_hour_of_day;
  reference_minute_of_hour = s.reference_minute_of_hour;
}
