-- ===== src/Tests/Copies.antt =====
-- Deep copies of a project and of a store in a heap of four cells.
use opsmanager_crossplane_pr.Common.{◌≡◌, none, some, [], ◌∷◌, String, pos, true, arith}
use opsmanager_crossplane_pr.DeepCopy.Memory.{Heap}
use opsmanager_crossplane_pr.DeepCopy.Memory.Areas.{int_area, mappings_area, schedule_area}
use opsmanager_crossplane_pr.DeepCopy.Copying.{Below, Copied, flat, flat-IsDeep}
use opsmanager_crossplane_pr.DeepCopy.Stores.{S3StoreCell}
use opsmanager_crossplane_pr.DeepCopy.Projects.{
  ProjectCell, copy_project_parameters, view_project_parameters, project_parameters,
}
use opsmanager_crossplane_pr.DeepCopy.Kinds.{Kind, copy_project, kind_copying}
use opsmanager_crossplane_pr.DeepCopy.Independence.{project_copy_stays, copy_project-Copied}
use opsmanager_crossplane_pr.Project.{OpsManagerProjectObservation}

-- The groups of a mapping, the mapping, the schedule and its retention.
abbrev pub memory : Heap
memory = record {
  next = 4;
  bools = λ a. true;
  ints = λ a. pos 7;
  texts = λ a. "admins" ∷ [];
  selectors = λ a. record { namespace = "ops"; name = "aws"; key = "secret" };
  mappings = λ a. record { role_name = "OWNER"; ldap_groups = some (record { address = 0 }) } ∷ [];
  schedules = λ a. record {
    snapshot_retention_days = some (record { address = 3 });
    daily_snapshot_retention_days = none;
    weekly_snapshot_retention_weeks = none;
    monthly_snapshot_retention_months = none;
    point_in_time_window_hours = none;
    snapshot_interval_hours = none;
    cluster_checkpoint_interval_min = none;
    reference_hour_of_day = none;
    reference_minute_of_hour = none;
  };
}

abbrev pub shop : ProjectCell
shop = record {
  name = "shop";
  org_id = "org";
  ldap_group_mappings = some (record { address = 1 });
  snapshot_schedule = some (record { address = 2 });
}

pub shop_inside : project_parameters.Within (Below 4) memory shop
unfolding mappings_area schedule_area
shop_inside = (
  (omega arith, ((omega arith, tt), tt)),
  (omega arith, ((omega arith, tt), (tt, (tt, (tt, (tt, (tt, (tt, (tt, tt))))))))),
)

-- The retention of the source is overwritten.
abbrev pub source_written : Heap
source_written = int_area.write 3 (pos 99) (copy_project_parameters shop memory).1

project_copy_stays_example :
    view_project_parameters source_written (copy_project_parameters shop memory).0
    ≡ view_project_parameters memory shop
project_copy_stays_example = project_copy_stays memory shop source_written shop_inside (
    int_area.write_same _ 3 (pos 99) (copy_project_parameters shop memory).1
      (λ b p e. omega (arith, p.0, e)))

-- The parts that are not of the repository are texts.
abbrev pub shop_resource : Kind String String String ProjectCell OpsManagerProjectObservation
shop_resource = record {
  type_meta = record { kind = "OpsManagerProject"; api_version = "v1alpha1" };
  object_meta = "shop";
  spec = record { managed = "default"; for_provider = shop };
  status = record { resource = "ready"; at_provider = record { id = "p1" } };
}

copy_project-Copied_example :
    let (q, g) = copy_project flat flat flat shop_resource memory in
    Copied (kind_copying flat flat flat project_parameters) memory shop_resource q g
copy_project-Copied_example =
    copy_project-Copied flat flat flat flat-IsDeep flat-IsDeep flat-IsDeep memory shop_resource
      (tt, ((tt, shop_inside), tt))

-- A store with labels and a flag.
abbrev pub labelled : S3StoreCell
labelled = record {
  id = "bucket";
  uri = "mongodb://meta";
  labels = some (record { address = 0 });
  assignment_enabled = some (record { address = 1 });
  ssl = none;
  write_concern = "";
  encrypted_credentials = none;
  load_factor = none;
  max_capacity_gb = none;
  provisioned = none;
  sync_source = "";
  username = "";
  s3_bucket_endpoint = "https://s3";
  s3_bucket_name = "backups";
  s3_auth_method = "KEYS";
  aws_access_key = "AKIA";
  aws_secret_key_secret_ref = some (record { address = 2 });
  s3_max_connections = pos 0;
  path_style_access_enabled = none;
  sse_enabled = none;
  accepted_tos = none;
  disable_proxy_s3 = none;
}
