-- ===== src/DeepCopy/Configs.antt =====
-- The deep copies of `ProviderCredentials` and `ProviderConfigSpec`, of
-- apis/v1beta1/zz_generated.deepcopy.go.
use opsmanager_crossplane_pr.Common.{refl, Option, String}
use opsmanager_crossplane_pr.Managed.{SecretKeySelector}
use opsmanager_crossplane_pr.DeepCopy.Memory.{Ref, Heap, Alloc, ◌>>=◌, return}
use opsmanager_crossplane_pr.DeepCopy.Memory.Areas.{
  bool_area, int_area, texts_area, selector_area, mappings_area, schedule_area,
}
use opsmanager_crossplane_pr.DeepCopy.Copying.{
  copy_or_nil, Copying, IsDeep, flat, ◌⊗◌, ◌&◌, ◌⊕◌, both-IsDeep, of_fields-IsDeep,
}
use opsmanager_crossplane_pr.DeepCopy.Copying.References.{
  view_behind, value, copy_value, value-IsDeep,
}
use opsmanager_crossplane_pr.Clients.Resolve.{ProviderCredentials, ProviderConfigSpec}

-- `ProviderCredentials`, with its pointers.
pub record CredentialsCell : Type 0 where
  pub source : String
  pub public_key_secret_ref : Option (Ref SecretKeySelector)
  pub private_key_secret_ref : Option (Ref SecretKeySelector)

unfoldable pub copy_credentials : CredentialsCell → Alloc CredentialsCell
copy_credentials p = do
  public_key_secret_ref ← copy_value p.public_key_secret_ref
  private_key_secret_ref ← copy_value p.private_key_secret_ref
  return (record p {
    public_key_secret_ref = public_key_secret_ref;
    private_key_secret_ref = private_key_secret_ref;
  })

unfoldable pub view_credentials : Heap → CredentialsCell → ProviderCredentials
view_credentials h p = record {
  source = p.source;
  public_key_secret_ref = view_behind flat h p.public_key_secret_ref;
  private_key_secret_ref = view_behind flat h p.private_key_secret_ref;
}

abbrev pub credentials_fields :
    Copying
      (Option (Ref SecretKeySelector) ⊗ Option (Ref SecretKeySelector))
      (Option SecretKeySelector ⊗ Option SecretKeySelector)
credentials_fields = value ⊕ value

-- The interface of `CredentialsCell`.
abbrev pub credentials : Copying CredentialsCell ProviderCredentials
credentials = record {
  copy = copy_credentials;
  view = view_credentials;
  Within =
      λ P h p. credentials_fields.Within P h (p.public_key_secret_ref & p.private_key_secret_ref);
}

pub credentials-IsDeep : IsDeep credentials
unfolding copy_credentials view_credentials
credentials-IsDeep =
    of_fields-IsDeep (λ (p : CredentialsCell). p.public_key_secret_ref & p.private_key_secret_ref)
      (λ p t. record p { public_key_secret_ref = t.0; private_key_secret_ref = t.1 })
      (λ p t. record {
        source = p.source;
        public_key_secret_ref = t.0;
        private_key_secret_ref = t.1;
      })
      credentials_fields (both-IsDeep value-IsDeep value-IsDeep) (λ p t. refl) (λ p t v. refl)

-- `ProviderConfigSpec`, likewise.
pub record ConfigSpecCell : Type 0 where
  pub base_url : String
  pub credentials : CredentialsCell

unfoldable pub copy_config_spec : ConfigSpecCell → Alloc ConfigSpecCell
unfolding copy_credentials
copy_config_spec p = do c ← copy_credentials p.credentials; return (record p { credentials = c })

unfoldable pub view_config_spec : Heap → ConfigSpecCell → ProviderConfigSpec
unfolding view_credentials
view_config_spec h p = record {
  base_url = p.base_url;
  credentials = view_credentials h p.credentials;
}

-- The interface of `ConfigSpecCell`.
abbrev pub config_spec : Copying ConfigSpecCell ProviderConfigSpec
config_spec = record {
  copy = copy_config_spec;
  view = view_config_spec;
  Within = λ P h p. credentials.Within P h p.credentials;
}

pub config_spec-IsDeep : IsDeep config_spec
unfolding copy_config_spec view_config_spec
config_spec-IsDeep =
    of_fields-IsDeep (λ (p : ConfigSpecCell). p.credentials) (λ p t. record p { credentials = t })
      (λ p t. record { base_url = p.base_url; credentials = t }) credentials credentials-IsDeep
      (λ p t. refl) (λ p t v. refl)

unfoldable pub deep_copy_credentials : Option CredentialsCell → Alloc (Option CredentialsCell)
deep_copy_credentials = copy_or_nil copy_credentials

unfoldable pub deep_copy_config_spec : Option ConfigSpecCell → Alloc (Option ConfigSpecCell)
deep_copy_config_spec = copy_or_nil copy_config_spec
