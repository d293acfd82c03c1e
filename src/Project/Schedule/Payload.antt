-- ===== src/Project/Schedule/Payload.antt =====
-- What an API that follows the comments of apis/v1alpha1/project_types.go takes from a payload.
use opsmanager_crossplane_pr.Common.{ℤ, pos, ◌≡◌, ◌≢◌, ◌∙◌, ap, Option, none, some, String, int_eq}
use opsmanager_crossplane_pr.Project.{SnapshotSchedule, ApiSchedule}
use opsmanager_crossplane_pr.Project.Schedule.{or_zero, to_sdk_schedule}
use opsmanager_crossplane_pr.Project.Schedule.Sync.{Holds, InSync}

-- The API has each field that the payload carries: the plain fields that are not 0, which is also
-- their value where they are unset, and the pointers that are not nil. A field that is not carried
-- has any value, such as the one that it had before.
pub record TakenFrom (payload current : ApiSchedule) : Type 0 where
  pub snapshot_retention_days :
      payload.snapshot_retention_days ≢ pos 0
      → current.snapshot_retention_days ≡ payload.snapshot_retention_days
  pub snapshot_interval_hours :
      payload.snapshot_interval_hours ≢ pos 0
      → current.snapshot_interval_hours ≡ payload.snapshot_interval_hours
  pub cluster_checkpoint_interval_min :
      payload.cluster_checkpoint_interval_min ≢ pos 0
      → current.cluster_checkpoint_interval_min ≡ payload.cluster_checkpoint_interval_min
  pub daily_snapshot_retention_days :
      Holds payload.daily_snapshot_retention_days current.daily_snapshot_retention_days
  pub weekly_snapshot_retention_weeks :
      Holds payload.weekly_snapshot_retention_weeks current.weekly_snapshot_retention_weeks
  pub monthly_snapshot_retention_months :
      Holds payload.monthly_snapshot_retention_months current.monthly_snapshot_retention_months
  pub point_in_time_window_hours :
      Holds payload.point_in_time_window_hours current.point_in_time_window_hours
  pub reference_hour_of_day : Holds payload.reference_hour_of_day current.reference_hour_of_day
  pub reference_minute_of_hour :
      Holds payload.reference_minute_of_hour current.reference_minute_of_hour

-- None of the plain fields is set to 0 explicitly, which the payload cannot tell from unset.
pub record SetsNoZero (s : SnapshotSchedule) : Type 0 where
  pub snapshot_retention_days : s.snapshot_retention_days ≢ some (pos 0)
  pub snapshot_interval_hours : s.snapshot_interval_hours ≢ some (pos 0)
  pub cluster_checkpoint_interval_min : s.cluster_checkpoint_interval_min ≢ some (pos 0)

Holds-or_zero :
    (d : Option ℤ) (current : ℤ)
    → d ≢ some (pos 0)
    → (or_zero d ≢ pos 0 → current ≡ or_zero d)
    → Holds d (some current)
unfolding or_zero
Holds-or_zero none current n took m e = cc
Holds-or_zero (some d) current n took m e = ap some (took (λ z. n (ap some z))) ∙ e

-- If the spec sets no plain field to 0, an API that has what the payload carries is in step with it.
pub InSync-taken :
    (s : SnapshotSchedule) (group_id cluster_id : String) (current : ApiSchedule)
    → SetsNoZero s
    → TakenFrom
        (record (to_sdk_schedule s) { cluster_id = cluster_id; group_id = group_id })
        current
    → InSync s current
unfolding to_sdk_schedule
InSync-taken s group_id cluster_id current n t = record {
  snapshot_retention_days =
      Holds-or_zero s.snapshot_retention_days current.snapshot_retention_days
        n.snapshot_retention_days t.snapshot_retention_days;
  snapshot_interval_hours =
      Holds-or_zero s.snapshot_interval_hours current.snapshot_interval_hours
        n.snapshot_interval_hours t.snapshot_interval_hours;
  cluster_checkpoint_interval_min =
      Holds-or_zero s.cluster_checkpoint_interval_min current.cluster_checkpoint_interval_min
        n.cluster_checkpoint_interval_min t.cluster_checkpoint_interval_min;
  daily_snapshot_retention_days = t.daily_snapshot_retention_days;
  weekly_snapshot_retention_weeks = t.weekly_snapshot_retention_weeks;
  monthly_snapshot_retention_months = t.monthly_snapshot_retention_months;
  point_in_time_window_hours = t.point_in_time_window_hours;
  reference_hour_of_day = t.reference_hour_of_day;
  reference_minute_of_hour = t.reference_minute_of_hour;
}
