-- ===== src/DeepCopy/Daemons.antt =====
-- The deep copy of `BackupDaemonParameters`.
use opsmanager_crossplane_pr.Common.{ℤ, refl, Bool, Option, List, String}
use opsmanager_crossplane_pr.DeepCopy.Memory.{Ref, Heap, Alloc, ◌>>=◌, return}
use opsmanager_crossplane_pr.DeepCopy.Memory.Areas.{
  bool_area, int_area, texts_area, selector_area, mappings_area, schedule_area,
}
use opsmanager_crossplane_pr.DeepCopy.Copying.{
  copy_or_nil, Copying, IsDeep, flat, ◌⊗◌, ◌&◌, ◌⊕◌, both-IsDeep, of_fields-IsDeep,
}
use opsmanager_crossplane_pr.DeepCopy.Copying.References.{
  view_behind, value, copy_value, value-IsDeep,
}
use opsmanager_crossplane_pr.BackupDaemon.{BackupDaemonParameters}

-- `BackupDaemonParameters`, with its pointers.
pub record DaemonCell : Type 0 where
  pub machine : String
  pub labels : Option (Ref (List String))
  pub assignment_enabled : Option (Ref Bool)
  pub uri : String
  pub write_concern : String
  pub ssl : Option (Ref Bool)
  pub encrypted_credentials : Option (Ref Bool)
  pub backup_jobs_enabled : Option (Ref Bool)
  pub garbage_collection_enabled : Option (Ref Bool)
  pub resource_usage_enabled : Option (Ref Bool)
  pub restore_queryable_jobs_enabled : Option (Ref Bool)
  pub head_disk_type : String
  pub num_workers : ℤ
  pub head_root_directory : String

unfoldable pub copy_daemon_parameters : DaemonCell → Alloc DaemonCell
copy_daemon_parameters p = do
  labels ← copy_value p.labels
  assignment_enabled ← copy_value p.assignment_enabled
  ssl ← copy_value p.ssl
  encrypted_credentials ← copy_value p.encrypted_credentials
  backup_jobs_enabled ← copy_value p.backup_jobs_enabled
  garbage_collection_enabled ← copy_value p.garbage_collection_enabled
  resource_usage_enabled ← copy_value p.resource_usage_enabled
  restore_queryable_jobs_enabled ← copy_value p.restore_queryable_jobs_enabled
  return (record p {
    labels = labels;
    assignment_enabled = assignment_enabled;
    ssl = ssl;
    encrypted_credentials = encrypted_credentials;
    backup_jobs_enabled = backup_jobs_enabled;
    garbage_collection_enabled = garbage_collection_enabled;
    resource_usage_enabled = resource_usage_enabled;
    restore_queryable_jobs_enabled = restore_queryable_jobs_enabled;
  })

unfoldable pub view_daemon_parameters : Heap → DaemonCell → BackupDaemonParameters
view_daemon_parameters h p = record {
  machine = p.machine;
  labels = view_behind flat h p.labels;
  assignment_enabled = view_behind flat h p.assignment_enabled;
  uri = p.uri;
  write_concern = p.write_concern;
  ssl = view_behind flat h p.ssl;
  encrypted_credentials = view_behind flat h p.encrypted_credentials;
  backup_jobs_enabled = view_behind flat h p.backup_jobs_enabled;
  garbage_collection_enabled = view_behind flat h p.garbage_collection_enabled;
  resource_usage_enabled = view_behind flat h p.resource_usage_enabled;
  restore_queryable_jobs_enabled = view_behind flat h p.restore_queryable_jobs_enabled;
  head_disk_type = p.head_disk_type;
  num_workers = p.num_workers;
  head_root_directory = p.head_root_directory;
}

abbrev pub daemon_parameters_fields :
    Copying
      (Option (Ref (List String))
        ⊗ Option (Ref Bool)
        ⊗ Option (Ref Bool)
        ⊗ Option (Ref Bool)
        ⊗ Option (Ref Bool)
        ⊗ Option (Ref Bool)
        ⊗ Option (Ref Bool)
        ⊗ Option (Ref Bool))
      (Option (List String)
        ⊗ Option Bool
        ⊗ Option Bool
        ⊗ Option Bool
        ⊗ Option Bool
        ⊗ Option Bool
        ⊗ Option Bool
        ⊗ Option Bool)
daemon_parameters_fields = value ⊕ value ⊕ value ⊕ value ⊕ value ⊕ value ⊕ value ⊕ value

-- The interface of `DaemonCell`.
abbrev pub daemon_parameters : Copying DaemonCell BackupDaemonParameters
daemon_parameters = record {
  copy = copy_daemon_parameters;
  view = view_daemon_parameters;
  Within = λ P h p. daemon_parameters_fields.Within P h (
      p.labels & p.assignment_enabled & p.ssl & p.encrypted_credentials & p.backup_jobs_enabled
      & p.garbage_collection_enabled & p.resource_usage_enabled & p.restore_queryable_jobs_enabled);
}

pub daemon_parameters-IsDeep : IsDeep daemon_parameters
unfolding copy_daemon_parameters view_daemon_parameters
daemon_parameters-IsDeep =
    of_fields-IsDeep
      (λ (p : DaemonCell).
        p.labels & p.assignment_enabled & p.ssl & p.encrypted_credentials & p.backup_jobs_enabled
        & p.garbage_collection_enabled & p.resource_usage_enabled
        & p.restore_queryable_jobs_enabled)
      (λ p t. record p {
        labels = t.0;
        assignment_enabled = t.1.0;
        ssl = t.1.1.0;
        encrypted_credentials = t.1.1.1.0;
        backup_jobs_enabled = t.1.1.1.1.0;
        garbage_collection_enabled = t.1.1.1.1.1.0;
        resource_usage_enabled = t.1.1.1.1.1.1.0;
        restore_queryable_jobs_enabled = t.1.1.1.1.1.1.1;
      })
      (λ p t. record {
        machine = p.machine;
        labels = t.0;
        assignment_enabled = t.1.0;
        uri = p.uri;
        write_concern = p.write_concern;
        ssl = t.1.1.0;
        encrypted_credentials = t.1.1.1.0;
        backup_jobs_enabled = t.1.1.1.1.0;
        garbage_collection_enabled = t.1.1.1.1.1.0;
        resource_usage_enabled = t.1.1.1.1.1.1.0;
        restore_queryable_jobs_enabled = t.1.1.1.1.1.1.1;
        head_disk_type = p.head_disk_type;
        num_workers = p.num_workers;
        head_root_directory = p.head_root_directory;
      })
      daemon_parameters_fields
      (both-IsDeep value-IsDeep (
        both-IsDeep value-IsDeep (
          both-IsDeep value-IsDeep (
            both-IsDeep value-IsDeep (
              both-IsDeep value-IsDeep
                (both-IsDeep value-IsDeep (both-IsDeep value-IsDeep value-IsDeep)))))))
      (λ p t. refl) (λ p t v. refl)

unfoldable pub deep_copy_daemon_parameters : Option DaemonCell → Alloc (Option DaemonCell)
deep_copy_daemon_parameters = copy_or_nil copy_daemon_parameters
