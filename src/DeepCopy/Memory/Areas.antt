-- ===== src/DeepCopy/Memory/Areas.antt =====
-- Where the heap keeps each type.
use opsmanager_crossplane_pr.Common.{refl, ℤ, pos, Bool, false, none, List, [], String, nat_eq}
use opsmanager_crossplane_pr.Managed.{SecretKeySelector}
use opsmanager_crossplane_pr.DeepCopy.Memory.{
  MappingCell, ScheduleCell, set, set_same, same_but, Area,
}

instance unfoldable pub bool_area : Area Bool
bool_area = record {
  read = λ h a. h.bools a;
  write = λ a v h. record h { bools = set h.bools a v };
  zero_value = false;
  read-write = λ a v h. set_same h.bools a v;
  next-write = λ a v h. refl;
  read_same = λ P h g s a p. s.bools a p;
  write_same = λ P a v h n. record {
    bools = λ b p. same_but h.bools a v b (n b p);
    ints = λ b p. refl;
    texts = λ b p. refl;
    selectors = λ b p. refl;
    mappings = λ b p. refl;
    schedules = λ b p. refl;
  };
}

instance unfoldable pub int_area : Area ℤ
int_area = record {
  read = λ h a. h.ints a;
  write = λ a v h. record h { ints = set h.ints a v };
  zero_value = pos 0;
  read-write = λ a v h. set_same h.ints a v;
  next-write = λ a v h. refl;
  read_same = λ P h g s a p. s.ints a p;
  write_same = λ P a v h n. record {
    bools = λ b p. refl;
    ints = λ b p. same_but h.ints a v b (n b p);
    texts = λ b p. refl;
    selectors = λ b p. refl;
    mappings = λ b p. refl;
    schedules = λ b p. refl;
  };
}

instance unfoldable pub texts_area : Area (List String)
texts_area = record {
  read = λ h a. h.texts a;
  write = λ a v h. record h { texts = set h.texts a v };
  zero_value = [];
  read-write = λ a v h. set_same h.texts a v;
  next-write = λ a v h. refl;
  read_same = λ P h g s a p. s.texts a p;
  write_same = λ P a v h n. record {
    bools = λ b p. refl;
    ints = λ b p. refl;
    texts = λ b p. same_but h.texts a v b (n b p);
    selectors = λ b p. refl;
    mappings = λ b p. refl;
    schedules = λ b p. refl;
  };
}

instance unfoldable pub selector_area : Area SecretKeySelector
selector_area = record {
  read = λ h a. h.selectors a;
  write = λ a v h. record h { selectors = set h.selectors a v };
  zero_value = record { namespace = ""; name = ""; key = "" };
  read-write = λ a v h. set_same h.selectors a v;
  next-write = λ a v h. refl;
  read_same = λ P h g s a p. s.selectors a p;
  write_same = λ P a v h n. record {
    bools = λ b p. refl;
    ints = λ b p. refl;
    texts = λ b p. refl;
    selectors = λ b p. same_but h.selectors a v b (n b p);
    mappings = λ b p. refl;
    schedules = λ b p. refl;
  };
}

instance unfoldable pub mappings_area : Area (List MappingCell)
mappings_area = record {
  read = λ h a. h.mappings a;
  write = λ a v h. record h { mappings = set h.mappings a v };
  zero_value = [];
  read-write = λ a v h. set_same h.mappings a v;
  next-write = λ a v h. refl;
  read_same = λ P h g s a p. s.mappings a p;
  write_same = λ P a v h n. record {
    bools = λ b p. refl;
    ints = λ b p. refl;
    texts = λ b p. refl;
    selectors = λ b p. refl;
    mappings = λ b p. same_but h.mappings a v b (n b p);
    schedules = λ b p. refl;
  };
}

instance unfoldable pub schedule_area : Area ScheduleCell
schedule_area = record {
  read = λ h a. h.schedules a;
  write = λ a v h. record h { schedules = set h.schedules a v };
  zero_value = record {
    snapshot_retention_days = none;
    daily_snapshot_retention_days = none;
    weekly_snapshot_retention_weeks = none;
    monthly_snapshot_retention_months = none;
    point_in_time_window_hours = none;
    snapshot_interval_hours = none;
    cluster_checkpoint_interval_min = none;
    reference_hour_of_day = none;
    reference_minute_of_hour = none;
  };
  read-write = λ a v h. set_same h.schedules a v;
  next-write = λ a v h. refl;
  read_same = λ P h g s a p. s.schedules a p;
  write_same = λ P a v h n. record {
    bools = λ b p. refl;
    ints = λ b p. refl;
    texts = λ b p. refl;
    selectors = λ b p. refl;
    mappings = λ b p. refl;
    schedules = λ b p. same_but h.schedules a v b (n b p);
  };
}
