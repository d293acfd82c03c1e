-- ===== src/Project/Schedule/Sync.antt =====
-- What it means that a schedule matches, and what the payload keeps of the spec.
use opsmanager_crossplane_pr.Common.{
  ℤ, pos, ◌≡◌, refl, ◌↔◌, true, false, not, Option, none, some, arith, int_eq,
}
use opsmanager_crossplane_pr.Project.{SnapshotSchedule, ApiSchedule}
use opsmanager_crossplane_pr.Project.Schedule.{
  int_ptr_eq, int_differs, fields_match, snapshot_schedule_matches, or_zero, to_sdk_schedule,
}

-- The API has the value that the spec sets, if it sets one.
abbrev pub Holds : Option ℤ → Option ℤ → Type 0
Holds d o = (n : ℤ) → d ≡ some n → o ≡ some n

int_ptr_eq_iff : (d o : Option ℤ) → (not (int_ptr_eq d o) ≡ false) ↔ Holds d o
unfolding int_ptr_eq
int_ptr_eq_iff none o = (λ h n e. cc, λ h. refl)
int_ptr_eq_iff (some d) none = (λ h n e. cc, λ h. cc (h d refl))
int_ptr_eq_iff (some d) (some o) = (λ h n e. ground arith, λ h. ground (arith, h d refl))

int_differs_iff : (d : Option ℤ) (o : ℤ) → (int_differs d o ≡ false) ↔ Holds d (some o)
unfolding int_differs
int_differs_iff none o = (λ h n e. cc, λ h. refl)
int_differs_iff (some d) o = (λ h n e. ground arith, λ h. ground (arith, h d refl))

-- Each of the nine fields that the spec sets has its value in the API.
pub record InSync (d : SnapshotSchedule) (o : ApiSchedule) : Type 0 where
  pub snapshot_retention_days : Holds d.snapshot_retention_days (some o.snapshot_retention_days)
  pub snapshot_interval_hours : Holds d.snapshot_interval_hours (some o.snapshot_interval_hours)
  pub cluster_checkpoint_interval_min :
      Holds d.cluster_checkpoint_interval_min (some o.cluster_checkpoint_interval_min)
  pub daily_snapshot_retention_days :
      Holds d.daily_snapshot_retention_days o.daily_snapshot_retention_days
  pub weekly_snapshot_retention_weeks :
      Holds d.weekly_snapshot_retention_weeks o.weekly_snapshot_retention_weeks
  pub monthly_snapshot_retention_months :
      Holds d.monthly_snapshot_retention_months o.monthly_snapshot_retention_months
  pub point_in_time_window_hours : Holds d.point_in_time_window_hours o.point_in_time_window_hours
  pub reference_hour_of_day : Holds d.reference_hour_of_day o.reference_hour_of_day
  pub reference_minute_of_hour : Holds d.reference_minute_of_hour o.reference_minute_of_hour

matches-InSync : (d : SnapshotSchedule) (o : ApiSchedule) → fields_match d o ≡ true → InSync d o
unfolding fields_match
matches-InSync d o h = record {
  snapshot_retention_days =
      (int_differs_iff d.snapshot_retention_days o.snapshot_retention_days).0 (ground arith);
  snapshot_interval_hours =
      (int_differs_iff d.snapshot_interval_hours o.snapshot_interval_hours).0 (ground arith);
  cluster_checkpoint_interval_min =
      (int_differs_iff d.cluster_checkpoint_interval_min o.cluster_checkpoint_interval_min).0
        (ground arith);
  daily_snapshot_retention_days =
      (int_ptr_eq_iff d.daily_snapshot_retention_days o.daily_snapshot_retention_days).0
        (ground arith);
  weekly_snapshot_retention_weeks =
      (int_ptr_eq_iff d.weekly_snapshot_retention_weeks o.weekly_snapshot_retention_weeks).0
        (ground arith);
  monthly_snapshot_retention_months =
      (int_ptr_eq_iff d.monthly_snapshot_retention_months o.monthly_snapshot_retention_months).0
        (ground arith);
  point_in_time_window_hours =
      (int_ptr_eq_iff d.point_in_time_window_hours o.point_in_time_window_hours).0 (ground arith);
  reference_hour_of_day =
      (int_ptr_eq_iff d.reference_hour_of_day o.reference_hour_of_day).0 (ground arith);
  reference_minute_of_hour =
      (int_ptr_eq_iff d.reference_minute_of_hour o.reference_minute_of_hour).0 (ground arith);
}

InSync-matches : (d : SnapshotSchedule) (o : ApiSchedule) → InSync d o → fields_match d o ≡ true
unfolding fields_match
InSync-matches d o s =
    let h0 =
      (int_differs_iff d.snapshot_retention_days o.snapshot_retention_days).1
        s.snapshot_retention_days in
    let h1 =
      (int_differs_iff d.snapshot_interval_hours o.snapshot_interval_hours).1
        s.snapshot_interval_hours in
    let h2 =
      (int_differs_iff d.cluster_checkpoint_interval_min o.cluster_checkpoint_interval_min).1
        s.cluster_checkpoint_interval_min in
    let h3 =
      (int_ptr_eq_iff d.daily_snapshot_retention_days o.daily_snapshot_retention_days).1
        s.daily_snapshot_retention_days in
    let h4 =
      (int_ptr_eq_iff d.weekly_snapshot_retention_weeks o.weekly_snapshot_retention_weeks).1
        s.weekly_snapshot_retention_weeks in
    let h5 =
      (int_ptr_eq_iff d.monthly_snapshot_retention_months o.monthly_snapshot_retention_months).1
        s.monthly_snapshot_retention_months in
    let h6 =
      (int_ptr_eq_iff d.point_in_time_window_hours o.point_in_time_window_hours).1
        s.point_in_time_window_hours in
    let h7 =
      (int_ptr_eq_iff d.reference_hour_of_day o.reference_hour_of_day).1 s.reference_hour_of_day in
    let h8 =
      (int_ptr_eq_iff d.reference_minute_of_hour o.reference_minute_of_hour).1
        s.reference_minute_of_hour in
    ground arith

-- An observed schedule matches the spec exactly if every field that the spec sets has its value in
-- the API; fields that the spec leaves unset are not compared.
pub snapshot_schedule_matches_iff :
    (d : SnapshotSchedule) (o : ApiSchedule)
    → (snapshot_schedule_matches (some d) (some o) ≡ true) ↔ InSync d o
unfolding snapshot_schedule_matches
snapshot_schedule_matches_iff d o = (matches-InSync d o, InSync-matches d o)

-- A schedule that sets the retention, the interval or the checkpoint interval to 0 is sent as the
-- same payload as one that leaves that field unset.
pub to_sdk_schedule_zero :
    (s : SnapshotSchedule)
    → (to_sdk_schedule (record s { snapshot_retention_days = some (pos 0) })
        ≡ to_sdk_schedule (record s { snapshot_retention_days = none }))
      × (to_sdk_schedule (record s { snapshot_interval_hours = some (pos 0) })
          ≡ to_sdk_schedule (record s { snapshot_interval_hours = none }))
      × (to_sdk_schedule (record s { cluster_checkpoint_interval_min = some (pos 0) })
          ≡ to_sdk_schedule (record s { cluster_checkpoint_interval_min = none }))
unfolding to_sdk_schedule or_zero
to_sdk_schedule_zero s = (refl, refl, refl)
