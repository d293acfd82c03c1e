-- ===== src/Accessors/View.antt =====
-- The resource of the handlers as a view of a whole custom resource.
use opsmanager_crossplane_pr.Common.{◌≡◌, refl, Bool, true, Option, List, [], ◌∷◌, String}
use opsmanager_crossplane_pr.Managed.{Managed, ProviderConfigReference, set_available}
use opsmanager_crossplane_pr.Accessors.{
  Resource, Conditions, get_condition, get_management_policies, get_provider_config_reference,
  get_write_connection_secret_to_reference, set_conditions, set_management_policies,
  set_provider_config_reference, set_write_connection_secret_to_reference,
}

-- What the handlers read in `metav1.ObjectMeta`.
pub record Metadata (X : Type 0) : Type 0 where
  pub annotations : X → List (String × String)
  pub deleted : X → Bool

-- `xpv1.Available()`, its type, and whether a condition is true.
pub record Readiness (Condition ConditionType : Type 0) : Type 0 where
  pub available : Condition
  pub type_ready : ConditionType
  pub is_true : Condition → Bool

module _ {R Condition ConditionType : Type 0} (status : Conditions R Condition ConditionType)
    (ready : Readiness Condition ConditionType) where
  -- `SetConditions` replaces the condition of the same type.
  pub record SetsReady : Type 0 where
    pub set_ready :
        (r : R)
        → ready.is_true
            (status.get_condition (status.set_conditions r (ready.available ∷ [])) ready.type_ready)
          ≡ true

  module _ {X : Type 0} (meta : Metadata X) {Policies Secret P O : Type 0} where
    -- What a handler sees of a resource.
    unfoldable pub view :
        Resource X Policies (Option ProviderConfigReference) Secret R P O → Managed P O
    unfolding get_condition get_provider_config_reference
    view k = record {
      annotations = meta.annotations k.object_meta;
      deleted = meta.deleted k.object_meta;
      ready = ready.is_true (get_condition status k ready.type_ready);
      provider_config_ref = get_provider_config_reference k;
      for_provider = k.spec.for_provider;
      at_provider = k.status.at_provider;
    }

    -- If setting the condition of availability makes a resource ready, the accessors do on it what
    -- the handlers' operations do on the view of it: that setter is `set_available`, the setter of
    -- the reference sets the reference, and the other setters set what their getters read and nothing that a handler sees.
    pub view-accessors :
        SetsReady
        → (k : Resource X Policies (Option ProviderConfigReference) Secret R P O)
        → (config : Option ProviderConfigReference) → (policies : Policies) → (secret : Secret)
        → (view (set_conditions status k (ready.available ∷ [])) ≡ set_available (view k))
          × (view (set_provider_config_reference k config)
              ≡ record (view k) { provider_config_ref = config })
          × (view (set_management_policies k policies) ≡ view k)
          × (get_management_policies (set_management_policies k policies) ≡ policies)
          × (view (set_write_connection_secret_to_reference k secret) ≡ view k)
          × (get_write_connection_secret_to_reference
                (set_write_connection_secret_to_reference k secret)
              ≡ secret)
    unfolding view get_management_policies get_write_connection_secret_to_reference set_conditions
        set_provider_config_reference set_management_policies
        set_write_connection_secret_to_reference set_available get_condition
        get_provider_config_reference
    view-accessors sets k config policies secret = (
      λ i. record (view k) { ready = sets.set_ready k.status.resource i },
      refl,
      refl,
      refl,
      refl,
      refl,
    )
