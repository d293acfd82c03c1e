-- ===== src/Accessors.antt =====
-- The accessors through which crossplane-runtime reads and writes a resource:
-- apis/v1alpha1/zz_generated.managed.go for the managed kinds, apis/v1beta1/zz_generated.pcu.go for
-- the usage of a configuration, and those of the configuration itself in
-- apis/v1beta1/providerconfig_types.go.
pub mod Configs
pub mod View
use opsmanager_crossplane_pr.Common.{List}
use opsmanager_crossplane_pr.BackupDaemon.{BackupDaemonObservation}
use opsmanager_crossplane_pr.Project.{OpsManagerProjectObservation}
use opsmanager_crossplane_pr.S3Store.{S3StoreObservation}
use opsmanager_crossplane_pr.DeepCopy.Kinds.{Kind}
use opsmanager_crossplane_pr.DeepCopy.Daemons.{DaemonCell}
use opsmanager_crossplane_pr.DeepCopy.Projects.{ProjectCell}
use opsmanager_crossplane_pr.DeepCopy.Stores.{S3StoreCell}

-- The fields of `xpv2.ManagedResourceSpec`, whose pointers and lists are passed on as they are.
pub record ManagedResourceSpec (Policies Config Secret : Type 0) : Type 0 where
  pub management_policies : Policies
  pub provider_config_reference : Config
  pub write_connection_secret_to_reference : Secret

-- `GetCondition` and `SetConditions` of `xpv1.ResourceStatus`, or of another status.
pub record Conditions (R Condition ConditionType : Type 0) : Type 0 where
  pub get_condition : R → ConditionType → Condition
  pub set_conditions : R → List Condition → R

-- `resource.Managed`, but for what `metav1.Object` and `runtime.Object` have.
pub record ManagedResource (K Policies Config Secret Condition ConditionType : Type 0)
    : Type 0 where
  pub get_condition : K → ConditionType → Condition
  pub get_management_policies : K → Policies
  pub get_provider_config_reference : K → Config
  pub get_write_connection_secret_to_reference : K → Secret
  pub set_conditions : K → List Condition → K
  pub set_management_policies : K → Policies → K
  pub set_provider_config_reference : K → Config → K
  pub set_write_connection_secret_to_reference : K → Secret → K

-- A kind whose specification has these fields.
abbrev pub Resource : (X Policies Config Secret R P O : Type 0) → Type 0
Resource X Policies Config Secret R P O = Kind X (ManagedResourceSpec Policies Config Secret) R P O

module _ {X R Policies Config Secret P O Condition ConditionType : Type 0}
    (status : Conditions R Condition ConditionType) where
  unfoldable pub get_condition : Resource X Policies Config Secret R P O → ConditionType → Condition
  get_condition mg ct = status.get_condition mg.status.resource ct

  unfoldable pub set_conditions :
      Resource X Policies Config Secret R P O
      → List Condition
      → Resource X Policies Config Secret R P O
  set_conditions mg c = record mg {
    status = record mg.status { resource = status.set_conditions mg.status.resource c };
  }

module _ {X R Policies Config Secret P O : Type 0} where
  unfoldable pub get_management_policies : Resource X Policies Config Secret R P O → Policies
  get_management_policies mg = mg.spec.managed.management_policies

  unfoldable pub get_provider_config_reference : Resource X Policies Config Secret R P O → Config
  get_provider_config_reference mg = mg.spec.managed.provider_config_reference

  unfoldable pub get_write_connection_secret_to_reference :
      Resource X Policies Config Secret R P O → Secret
  get_write_connection_secret_to_reference mg = mg.spec.managed.write_connection_secret_to_reference

  abbrev pub with_managed :
      Resource X Policies Config Secret R P O
      → ManagedResourceSpec Policies Config Secret
      → Resource X Policies Config Secret R P O
  with_managed mg m = record mg { spec = record mg.spec { managed = m } }

  unfoldable pub set_management_policies :
      Resource X Policies Config Secret R P O → Policies → Resource X Policies Config Secret R P O
  set_management_policies mg r =
      with_managed mg (record mg.spec.managed { management_policies = r })

  unfoldable pub set_provider_config_reference :
      Resource X Policies Config Secret R P O → Config → Resource X Policies Config Secret R P O
  set_provider_config_reference mg r =
      with_managed mg (record mg.spec.managed { provider_config_reference = r })

  unfoldable pub set_write_connection_secret_to_reference :
      Resource X Policies Config Secret R P O → Secret → Resource X Policies Config Secret R P O
  set_write_connection_secret_to_reference mg r =
      with_managed mg (record mg.spec.managed { write_connection_secret_to_reference = r })

module _ {X R Policies Config Secret Condition ConditionType : Type 0}
    (status : Conditions R Condition ConditionType) where
  -- A kind as what the reconciler takes.
  abbrev pub accessors :
      {P O : Type 0}
      → ManagedResource
          (Resource X Policies Config Secret R P O)
          Policies
          Config
          Secret
          Condition
          ConditionType
  accessors = record {
    get_condition = get_condition status;
    get_management_policies = get_management_policies;
    get_provider_config_reference = get_provider_config_reference;
    get_write_connection_secret_to_reference = get_write_connection_secret_to_reference;
    set_conditions = set_conditions status;
    set_management_policies = set_management_policies;
    set_provider_config_reference = set_provider_config_reference;
    set_write_connection_secret_to_reference = set_write_connection_secret_to_reference;
  }

  unfoldable pub backup_daemon_accessors :
      ManagedResource
        (Resource X Policies Config Secret R DaemonCell BackupDaemonObservation)
        Policies
        Config
        Secret
        Condition
        ConditionType
  backup_daemon_accessors = accessors

  unfoldable pub project_accessors :
      ManagedResource
        (Resource X Policies Config Secret R ProjectCell OpsManagerProjectObservation)
        Policies
        Config
        Secret
        Condition
        ConditionType
  project_accessors = accessors

  unfoldable pub blockstore_accessors :
      ManagedResource
        (Resource X Policies Config Secret R S3StoreCell S3StoreObservation)
        Policies
        Config
        Secret
        Condition
        ConditionType
  blockstore_accessors = accessors

  unfoldable pub oplog_store_accessors :
      ManagedResource
        (Resource X Policies Config Secret R S3StoreCell S3StoreObservation)
        Policies
        Config
        Secret
        Condition
        ConditionType
  oplog_store_accessors = accessors
