-- ===== src/Accessors/Configs.antt =====
-- The accessors of `ClusterProviderConfig` and `ClusterProviderConfigUsage`.
use opsmanager_crossplane_pr.Common.{ℤ, List}
use opsmanager_crossplane_pr.DeepCopy.Providers.{ClusterProviderConfig, ClusterProviderConfigUsage}
use opsmanager_crossplane_pr.Accessors.{Conditions}

-- The fields of `xpv1.ProviderConfigStatus`: the conditioned status, and the number of users.
pub record ProviderConfigStatus (R : Type 0) : Type 0 where
  pub conditioned : R
  pub users : ℤ

-- The fields of `xpv2.TypedProviderConfigUsage`.
pub record TypedProviderConfigUsage (Config Typed : Type 0) : Type 0 where
  pub provider_config_reference : Config
  pub resource_reference : Typed

abbrev pub Configuration : (X S R : Type 0) → Type 0
Configuration X S R = ClusterProviderConfig X S (ProviderConfigStatus R)

abbrev pub Usage : (X Config Typed : Type 0) → Type 0
Usage X Config Typed = ClusterProviderConfigUsage X (TypedProviderConfigUsage Config Typed)

module _ {X S R Condition ConditionType : Type 0}
    (conditions : Conditions R Condition ConditionType) where
  unfoldable pub get_condition : Configuration X S R → ConditionType → Condition
  get_condition pc ct = conditions.get_condition pc.status.provider_config_status.conditioned ct

  unfoldable pub set_conditions : Configuration X S R → List Condition → Configuration X S R
  set_conditions pc c =
      let status = pc.status.provider_config_status in
      record pc {
        status = record {
          provider_config_status = record status {
            conditioned = conditions.set_conditions status.conditioned c;
          };
        };
      }

module _ {X S R : Type 0} where
  unfoldable pub get_users : Configuration X S R → ℤ
  get_users pc = pc.status.provider_config_status.users

  unfoldable pub set_users : Configuration X S R → ℤ → Configuration X S R
  set_users pc i = record pc {
    status = record {
      provider_config_status = record pc.status.provider_config_status { users = i };
    };
  }

module _ {X Config Typed : Type 0} where
  unfoldable pub get_provider_config_reference : Usage X Config Typed → Config
  get_provider_config_reference p = p.typed_provider_config_usage.provider_config_reference

  unfoldable pub get_resource_reference : Usage X Config Typed → Typed
  get_resource_reference p = p.typed_provider_config_usage.resource_reference

  unfoldable pub set_provider_config_reference :
      Usage X Config Typed → Config → Usage X Config Typed
  set_provider_config_reference p r = record p {
    typed_provider_config_usage = record p.typed_provider_config_usage {
      provider_config_reference = r;
    };
  }

  unfoldable pub set_resource_reference : Usage X Config Typed → Typed → Usage X Config Typed
  set_resource_reference p r = record p {
    typed_provider_config_usage = record p.typed_provider_config_usage { resource_reference = r };
  }
