-- ===== src/DeepCopy/Providers.antt =====
-- The deep copies of `ClusterProviderConfig`, with its status, and `ClusterProviderConfigUsage`. Those
-- of `ObjectMeta`, `ProviderConfigStatus` and `TypedProviderConfigUsage` are third-party code, and
-- parameters.
use opsmanager_crossplane_pr.Common.{refl, Option}
use opsmanager_crossplane_pr.Clients.Resolve.{ProviderConfigSpec}
use opsmanager_crossplane_pr.DeepCopy.Memory.{Alloc, ◌>>=◌, return}
use opsmanager_crossplane_pr.DeepCopy.Copying.{
  copy_or_nil, Copying, IsDeep, ◌&◌, ◌⊕◌, both-IsDeep, of_fields-IsDeep,
}
use opsmanager_crossplane_pr.DeepCopy.Configs.{
  ConfigSpecCell, copy_config_spec, config_spec, config_spec-IsDeep,
}
use opsmanager_crossplane_pr.DeepCopy.Kinds.{TypeMeta}

pub record ClusterProviderConfigStatus (R : Type 0) : Type 0 where
  pub provider_config_status : R

pub record ClusterProviderConfig (X S R : Type 0) : Type 0 where
  pub type_meta : TypeMeta
  pub object_meta : X
  pub spec : S
  pub status : ClusterProviderConfigStatus R

pub record ClusterProviderConfigUsage (X U : Type 0) : Type 0 where
  pub type_meta : TypeMeta
  pub object_meta : X
  pub typed_provider_config_usage : U

module _ {X XV R RV : Type 0} (meta : Copying X XV) (status : Copying R RV) where
  unfoldable pub copy_config_status :
      ClusterProviderConfigStatus R → Alloc (ClusterProviderConfigStatus R)
  copy_config_status p = do
    s ← status.copy p.provider_config_status
    return (record p { provider_config_status = s })

  unfoldable pub copy_provider_config :
      ClusterProviderConfig X ConfigSpecCell R → Alloc (ClusterProviderConfig X ConfigSpecCell R)
  unfolding copy_config_status
  copy_provider_config k = do
    m ← meta.copy k.object_meta
    s ← copy_config_spec k.spec
    t ← copy_config_status k.status
    return (record k { object_meta = m; spec = s; status = t })

  abbrev pub provider_config :
      Copying
        (ClusterProviderConfig X ConfigSpecCell R)
        (ClusterProviderConfig XV ProviderConfigSpec RV)
  provider_config = record {
    copy = copy_provider_config;
    view = λ h k. record {
      type_meta = k.type_meta;
      object_meta = meta.view h k.object_meta;
      spec = config_spec.view h k.spec;
      status = record { provider_config_status = status.view h k.status.provider_config_status };
    };
    Within = λ Q h k.
        (meta ⊕ config_spec ⊕ status).Within Q h
          (k.object_meta & k.spec & k.status.provider_config_status);
  }

  -- If the copies of `ObjectMeta` and `ProviderConfigStatus` are deep, so is that of a
  -- `ClusterProviderConfig`.
  pub provider_config-IsDeep : IsDeep meta → IsDeep status → IsDeep provider_config
  unfolding copy_provider_config copy_config_status
  provider_config-IsDeep xd rd =
      of_fields-IsDeep
        (λ (k : ClusterProviderConfig X ConfigSpecCell R).
          k.object_meta & k.spec & k.status.provider_config_status)
        (λ k t. record k {
          object_meta = t.0;
          spec = t.1.0;
          status = record { provider_config_status = t.1.1 };
        })
        (λ k t. record {
          type_meta = k.type_meta;
          object_meta = t.0;
          spec = t.1.0;
          status = record { provider_config_status = t.1.1 };
        })
        (meta ⊕ config_spec ⊕ status) (both-IsDeep xd (both-IsDeep config_spec-IsDeep rd))
        (λ k t. refl) (λ k t v. refl)

  unfoldable pub deep_copy_config_status :
      Option (ClusterProviderConfigStatus R) → Alloc (Option (ClusterProviderConfigStatus R))
  deep_copy_config_status = copy_or_nil copy_config_status

  unfoldable pub deep_copy_provider_config :
      Option (ClusterProviderConfig X ConfigSpecCell R)
      → Alloc (Option (ClusterProviderConfig X ConfigSpecCell R))
  deep_copy_provider_config = copy_or_nil copy_provider_config

module _ {X XV U UV : Type 0} (meta : Copying X XV) (typed : Copying U UV) where
  unfoldable pub copy_usage :
      ClusterProviderConfigUsage X U → Alloc (ClusterProviderConfigUsage X U)
  copy_usage k = do
    m ← meta.copy k.object_meta
    u ← typed.copy k.typed_provider_config_usage
    return (record k { object_meta = m; typed_provider_config_usage = u })

  abbrev pub usage : Copying (ClusterProviderConfigUsage X U) (ClusterProviderConfigUsage XV UV)
  usage = record {
    copy = copy_usage;
    view = λ h k. record {
      type_meta = k.type_meta;
      object_meta = meta.view h k.object_meta;
      typed_provider_config_usage = typed.view h k.typed_provider_config_usage;
    };
    Within = λ Q h k. (meta ⊕ typed).Within Q h (k.object_meta & k.typed_provider_config_usage);
  }

  -- If the copies of `ObjectMeta` and `TypedProviderConfigUsage` are deep, so is that of a
  -- `ClusterProviderConfigUsage`.
  pub usage-IsDeep : IsDeep meta → IsDeep typed → IsDeep usage
  unfolding copy_usage
  usage-IsDeep xd ud =
      of_fields-IsDeep
        (λ (k : ClusterProviderConfigUsage X U). k.object_meta & k.typed_provider_config_usage)
        (λ k t. record k { object_meta = t.0; typed_provider_config_usage = t.1 })
        (λ k t. record {
          type_meta = k.type_meta;
          object_meta = t.0;
          typed_provider_config_usage = t.1;
        })
        (meta ⊕ typed) (both-IsDeep xd ud) (λ k t. refl) (λ k t v. refl)

  unfoldable pub deep_copy_usage :
      Option (ClusterProviderConfigUsage X U) → Alloc (Option (ClusterProviderConfigUsage X U))
  deep_copy_usage = copy_or_nil copy_usage
