-- ===== src/DeepCopy/Kinds.antt =====
-- The deep copies of the custom resources, with those of their `Spec` and `Status`. Those of
-- `ObjectMeta`, `ManagedResourceSpec` and `ResourceStatus` are third-party code, and parameters.
use opsmanager_crossplane_pr.Common.{refl, Option, String}
use opsmanager_crossplane_pr.BackupDaemon.{BackupDaemonObservation}
use opsmanager_crossplane_pr.Project.{OpsManagerProjectObservation}
use opsmanager_crossplane_pr.S3Store.{S3StoreObservation}
use opsmanager_crossplane_pr.DeepCopy.Memory.{Alloc, ◌>>=◌, return}
use opsmanager_crossplane_pr.DeepCopy.Copying.{
  copy_or_nil, Copying, IsDeep, ◌&◌, ◌⊕◌, both-IsDeep, of_fields-IsDeep,
}
use opsmanager_crossplane_pr.DeepCopy.Daemons.{DaemonCell, daemon_parameters}
use opsmanager_crossplane_pr.DeepCopy.Projects.{ProjectCell, project_parameters}
use opsmanager_crossplane_pr.DeepCopy.Stores.{S3StoreCell, store_parameters}

-- `metav1.TypeMeta`
pub record TypeMeta : Type 0 where
  pub kind : String
  pub api_version : String

pub record Spec (M P : Type 0) : Type 0 where
  pub managed : M
  pub for_provider : P

pub record Status (R O : Type 0) : Type 0 where
  pub resource : R
  pub at_provider : O

pub record Kind (X M R P O : Type 0) : Type 0 where
  pub type_meta : TypeMeta
  pub object_meta : X
  pub spec : Spec M P
  pub status : Status R O

module _ {M MV : Type 0} (managed : Copying M MV) {P PV : Type 0} (parameters : Copying P PV) where
  unfoldable pub copy_spec : Spec M P → Alloc (Spec M P)
  copy_spec p = do
    m ← managed.copy p.managed
    f ← parameters.copy p.for_provider
    return (record p { managed = m; for_provider = f })

  abbrev pub spec_copying : Copying (Spec M P) (Spec MV PV)
  spec_copying = record {
    copy = copy_spec;
    view = λ h p. record {
      managed = managed.view h p.managed;
      for_provider = parameters.view h p.for_provider;
    };
    Within = λ Q h p. managed.Within Q h p.managed × parameters.Within Q h p.for_provider;
  }

  pub spec-IsDeep : IsDeep managed → IsDeep parameters → IsDeep spec_copying
  unfolding copy_spec
  spec-IsDeep md pd =
      of_fields-IsDeep (λ (p : Spec M P). p.managed & p.for_provider)
        (λ p t. record p { managed = t.0; for_provider = t.1 })
        (λ p t. record { managed = t.0; for_provider = t.1 }) (managed ⊕ parameters)
        (both-IsDeep md pd) (λ p t. refl) (λ p t v. refl)

module _ {R RV : Type 0} (resource : Copying R RV) {O : Type 0} where
  -- The observation has no references, and is copied by assignment.
  unfoldable pub copy_status : Status R O → Alloc (Status R O)
  copy_status p = do r ← resource.copy p.resource; return (record p { resource = r })

  abbrev pub status_copying : Copying (Status R O) (Status RV O)
  status_copying = record {
    copy = copy_status;
    view = λ h p. record { resource = resource.view h p.resource; at_provider = p.at_provider };
    Within = λ Q h p. resource.Within Q h p.resource;
  }

  pub status-IsDeep : IsDeep resource → IsDeep status_copying
  unfolding copy_status
  status-IsDeep rd =
      of_fields-IsDeep (λ (p : Status R O). p.resource) (λ p t. record p { resource = t })
        (λ p t. record { resource = t; at_provider = p.at_provider }) resource rd (λ p t. refl)
        (λ p t v. refl)

module _ {X XV M MV R RV : Type 0} (meta : Copying X XV) (managed : Copying M MV)
    (resource : Copying R RV) where
  module _ {P PV : Type 0} (parameters : Copying P PV) {O : Type 0} where
    unfoldable pub copy_kind : Kind X M R P O → Alloc (Kind X M R P O)
    unfolding copy_spec copy_status
    copy_kind k = do
      m ← meta.copy k.object_meta
      p ← copy_spec managed parameters k.spec
      t ← copy_status resource k.status
      return (record k { object_meta = m; spec = p; status = t })

    abbrev pub kind_copying : Copying (Kind X M R P O) (Kind XV MV RV PV O)
    kind_copying = record {
      copy = copy_kind;
      view = λ h k. record {
        type_meta = k.type_meta;
        object_meta = meta.view h k.object_meta;
        spec = (spec_copying managed parameters).view h k.spec;
        status = (status_copying resource).view h k.status;
      };
      Within = λ Q h k.
          (meta ⊕ spec_copying managed parameters ⊕ status_copying resource).Within Q h
            (k.object_meta & k.spec & k.status);
    }

    pub kind-IsDeep :
        IsDeep meta → IsDeep managed → IsDeep resource → IsDeep parameters → IsDeep kind_copying
    unfolding copy_kind
    kind-IsDeep xd md rd pd =
        of_fields-IsDeep (λ (k : Kind X M R P O). k.object_meta & k.spec & k.status)
          (λ k t. record k { object_meta = t.0; spec = t.1.0; status = t.1.1 })
          (λ k t. record {
            type_meta = k.type_meta;
            object_meta = t.0;
            spec = t.1.0;
            status = t.1.1;
          })
          (meta ⊕ spec_copying managed parameters ⊕ status_copying resource)
          (both-IsDeep xd
            (both-IsDeep (spec-IsDeep managed parameters md pd) (status-IsDeep resource rd)))
          (λ k t. refl) (λ k t v. refl)

  unfoldable pub copy_backup_daemon :
      Kind X M R DaemonCell BackupDaemonObservation
      → Alloc (Kind X M R DaemonCell BackupDaemonObservation)
  copy_backup_daemon = copy_kind daemon_parameters

  unfoldable pub copy_project :
      Kind X M R ProjectCell OpsManagerProjectObservation
      → Alloc (Kind X M R ProjectCell OpsManagerProjectObservation)
  copy_project = copy_kind project_parameters

  unfoldable pub copy_blockstore :
      Kind X M R S3StoreCell S3StoreObservation → Alloc (Kind X M R S3StoreCell S3StoreObservation)
  copy_blockstore = copy_kind store_parameters

  unfoldable pub copy_oplog_store :
      Kind X M R S3StoreCell S3StoreObservation → Alloc (Kind X M R S3StoreCell S3StoreObservation)
  copy_oplog_store = copy_kind store_parameters

  unfoldable pub deep_copy_backup_daemon :
      Option (Kind X M R DaemonCell BackupDaemonObservation)
      → Alloc (Option (Kind X M R DaemonCell BackupDaemonObservation))
  deep_copy_backup_daemon = copy_or_nil copy_backup_daemon

  unfoldable pub deep_copy_project :
      Option (Kind X M R ProjectCell OpsManagerProjectObservation)
      → Alloc (Option (Kind X M R ProjectCell OpsManagerProjectObservation))
  deep_copy_project = copy_or_nil copy_project

  unfoldable pub deep_copy_blockstore :
      Option (Kind X M R S3StoreCell S3StoreObservation)
      → Alloc (Option (Kind X M R S3StoreCell S3StoreObservation))
  deep_copy_blockstore = copy_or_nil copy_blockstore

  unfoldable pub deep_copy_oplog_store :
      Option (Kind X M R S3StoreCell S3StoreObservation)
      → Alloc (Option (Kind X M R S3StoreCell S3StoreObservation))
  deep_copy_oplog_store = copy_or_nil copy_oplog_store
