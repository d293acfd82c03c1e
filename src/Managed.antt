-- ===== src/Managed.antt =====
-- What the managed resources share: the custom resource as the handlers see it (metadata that
-- crossplane-runtime's accessors read and write, `spec.forProvider`, `status.atProvider`), and
-- the value of `Observe`.
use opsmanager_crossplane_pr.Common.{Bool, true, false, Option, List, String, insert}

-- `xpv1.ProviderConfigReference`
pub record ProviderConfigReference : Type 0 where
  pub kind : String
  pub name : String

-- `xpv1.SecretKeySelector`
pub record SecretKeySelector : Type 0 where
  pub namespace : String
  pub name : String
  pub key : String

-- A nil map of annotations reads like an empty one, and is the empty list here.
pub record Managed (P O : Type 0) : Type 0 where
  pub annotations : List (String × String)
  pub deleted : Bool
  pub ready : Bool
  pub provider_config_ref : Option ProviderConfigReference
  pub for_provider : P
  pub at_provider : O

abbrev pub external_name_key : String
external_name_key = "crossplane.io/external-name"

module _ {P O : Type 0} where
  -- `cr.GetAnnotations()[k] = v; cr.SetAnnotations(…)`
  unfoldable pub annotate : String → String → Managed P O → Managed P O
  annotate k v cr = record cr { annotations = insert k v cr.annotations }

  -- `meta.SetExternalName(cr, name)`
  unfoldable pub set_external_name : String → Managed P O → Managed P O
  unfolding annotate
  set_external_name name cr = annotate external_name_key name cr

  -- `cr.SetConditions(xpv1.Available())`
  unfoldable pub set_available : Managed P O → Managed P O
  set_available cr = record cr { ready = true }

pub record ExternalObservation : Type 0 where
  pub resource_exists : Bool
  pub resource_up_to_date : Bool
  pub resource_late_initialized : Bool

abbrev pub absent : ExternalObservation
absent = record {
  resource_exists = false;
  resource_up_to_date = false;
  resource_late_initialized = false;
}
