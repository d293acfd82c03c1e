-- ===== src/Clients/Resolve.antt =====
-- internal/clients/opsmanager.go, the provider's configuration types of
-- apis/v1beta1/providerconfig_types.go, and the controllers' `Connect`.
pub mod Access
use opsmanager_crossplane_pr.Common.{
  Option, none, some, List, [], ◌∷◌, String, lookup, ◌==◌, string_eq, if◌then◌else◌,
}
use opsmanager_crossplane_pr.Errors.{Err, new_error, formatted, wrapped, wrap}
use opsmanager_crossplane_pr.Effects.{
  Result, ok, err, M, ◌>>=◌, ◌>>◌, return, fail, or_wrap, wrapping, call,
}
use opsmanager_crossplane_pr.Managed.{ProviderConfigReference, SecretKeySelector}

pub record ProviderCredentials : Type 0 where
  pub source : String
  pub public_key_secret_ref : Option SecretKeySelector
  pub private_key_secret_ref : Option SecretKeySelector

pub record ProviderConfigSpec : Type 0 where
  pub base_url : String
  pub credentials : ProviderCredentials

pub record Credentials : Type 0 where
  pub public_key : String
  pub private_key : String

-- The data of a Kubernetes secret, its bytes as text.
abbrev pub Secret : Type 0
Secret = List (String × String)

-- The calls that `Connect` makes: the usage tracker of crossplane-runtime, and reads of the
-- cluster.
pub data ConnectCall : Type 0 where
  track_usage : ConnectCall
  get_config : String → ConnectCall
  get_secret : String → String → ConnectCall

-- What answers them, after the calls made before. `new_client` is `opsmngr.New` over a digest
-- transport.
pub record Cluster (Client : Type 0) : Type 0 where
  pub track : List ConnectCall → Result (Unit {0})
  pub config : List ConnectCall → String → Result ProviderConfigSpec
  pub secret : List ConnectCall → String → String → Result Secret
  pub new_client : String → Credentials → Result Client

abbrev pub kind_cluster_provider_config : String
kind_cluster_provider_config = "ClusterProviderConfig"

abbrev pub credentials_source_secret : String
credentials_source_secret = "Secret"

abbrev pub no_reference : Err
no_reference = new_error "managed resource has no providerConfigRef"

abbrev pub unsupported_kind : String → Err
unsupported_kind kind =
    formatted "unsupported providerConfigRef.kind %q; must be %q"
      (kind ∷ kind_cluster_provider_config ∷ [])

module _ {C : Type 0} {Client : Type 0} (cluster : Cluster Client) where
  found_key : SecretKeySelector → Option String → M ConnectCall C String
  found_key ref none =
      fail (formatted "key %q not found in secret %s/%s" (ref.key ∷ ref.namespace ∷ ref.name ∷ []))
  found_key ref (some v) = return v

  unfoldable pub get_secret_value : SecretKeySelector → M ConnectCall C String
  unfolding found_key lookup
  get_secret_value ref = do
    r ← call (get_secret ref.namespace ref.name) (λ h. cluster.secret h ref.namespace ref.name)
    secret ← or_wrap "cannot get credentials secret" r
    found_key ref (lookup ref.key secret)

  read_keys : Option SecretKeySelector → Option SecretKeySelector → M ConnectCall C Credentials
  unfolding get_secret_value
  read_keys none private_ref =
      fail (new_error "publicKeySecretRef and privateKeySecretRef must both be set")
  read_keys (some public_ref) none =
      fail (new_error "publicKeySecretRef and privateKeySecretRef must both be set")
  read_keys (some public_ref) (some private_ref) = do
    public_key ← wrapping "cannot get public key" (get_secret_value public_ref)
    private_key ← wrapping "cannot get private key" (get_secret_value private_ref)
    return (record { public_key = public_key; private_key = private_key })

  unfoldable pub read_credentials : ProviderCredentials → M ConnectCall C Credentials
  unfolding read_keys
  read_credentials cd =
      if cd.source == credentials_source_secret
      then read_keys cd.public_key_secret_ref cd.private_key_secret_ref
      else fail (new_error "credentials source must be Secret")

  got_config : String → Result ProviderConfigSpec → M ConnectCall C ProviderConfigSpec
  got_config name (ok pc) = return pc
  got_config name (err e) = fail (wrapped "cannot get ClusterProviderConfig %q" (name ∷ []) e)

  resolve_named : String → M ConnectCall C (Client × String)
  unfolding got_config
  resolve_named name = do
    r ← call (get_config name) (λ h. cluster.config h name)
    pc ← got_config name r
    creds ← read_credentials pc.credentials
    client ← or_wrap "cannot create Ops Manager client" (cluster.new_client pc.base_url creds)
    return (client, pc.base_url)

  -- The base URL that the source returns beside an error is read by no caller, and left out.
  unfoldable pub resolve : Option ProviderConfigReference → M ConnectCall C (Client × String)
  unfolding resolve_named
  resolve none = fail no_reference
  resolve (some ref) =
      if ref.kind == kind_cluster_provider_config
      then resolve_named ref.name
      else fail (unsupported_kind ref.kind)

  tracked : Result (Unit {0}) → M ConnectCall C (Unit {0})
  tracked (ok a) = return a
  tracked (err e) = fail e

  unfoldable pub track : Option ProviderConfigReference → M ConnectCall C (Unit {0})
  unfolding tracked
  track none = fail no_reference
  track (some ref) =
      if ref.kind == kind_cluster_provider_config
      then (do r ← call track_usage cluster.track; tracked r)
      else fail (unsupported_kind ref.kind)

  -- `Connect` of each controller. The external client that it builds holds services of `Client`.
  unfoldable pub connect : Option ProviderConfigReference → M ConnectCall C Client
  unfolding track resolve
  connect ref = do
    wrapping "cannot track ProviderConfig usage" (track ref)
    (client, url) ← wrapping "cannot resolve ProviderConfig" (resolve ref)
    return client
