-- ===== src/Clients/Resolve/Access.antt =====
-- Which configuration a client comes from, and what `Connect` reads on the way.
use opsmanager_crossplane_pr.Common.{
  ◌≡◌, ◌↔◌, refl, inl, inr, ◌≢◌, Option, none, some, List, ◌∷◌, String, lookup, string_eq, arith,
}
use opsmanager_crossplane_pr.Effects.{ok, Result-cases, St}
use opsmanager_crossplane_pr.Managed.{ProviderConfigReference, SecretKeySelector}
use opsmanager_crossplane_pr.Clients.Resolve.{
  ProviderCredentials, ProviderConfigSpec, Credentials, Secret, ConnectCall, track_usage,
  get_config, get_secret, Cluster, kind_cluster_provider_config, credentials_source_secret,
  read_keys, read_credentials, connect,
}

module _ {Client : Type 0} (cluster : Cluster Client) where
  -- What stands behind a pair of keys that is read from the calls `h` on.
  pub record KeysRead (cd : ProviderCredentials) (h : List ConnectCall) (keys : Credentials)
      : Type 0 where
    pub public_ref : SecretKeySelector
    pub private_ref : SecretKeySelector
    pub public_secret : Secret
    pub private_secret : Secret
    pub from_secret : cd.source ≡ credentials_source_secret
    pub has_public : cd.public_key_secret_ref ≡ some public_ref
    pub has_private : cd.private_key_secret_ref ≡ some private_ref
    pub read_public : cluster.secret h public_ref.namespace public_ref.name ≡ ok public_secret
    pub read_private :
        cluster.secret
          (get_secret public_ref.namespace public_ref.name ∷ h)
          private_ref.namespace
          private_ref.name
        ≡ ok private_secret
    pub public_found : lookup public_ref.key public_secret ≡ some keys.public_key
    pub private_found : lookup private_ref.key private_secret ≡ some keys.private_key

  -- What stands behind a client that `Connect` returns from the calls `h` on.
  pub record Granted (ref : Option ProviderConfigReference) (h : List ConnectCall) (client : Client)
      : Type 0 where
    pub name : String
    pub config : ProviderConfigSpec
    pub keys : Credentials
    pub referenced : ref ≡ some (record { kind = kind_cluster_provider_config; name = name })
    pub tracked : cluster.track h ≡ ok tt
    pub configured : cluster.config (track_usage ∷ h) name ≡ ok config
    pub keys_read : KeysRead config.credentials (get_config name ∷ track_usage ∷ h) keys
    pub opened : cluster.new_client config.base_url keys ≡ ok client

module _ {C : Type 0} {Client : Type 0} (cluster : Cluster Client) where
  -- With all of that in place `Connect` returns the client.
  connect-of-Granted :
      (ref : Option ProviderConfigReference) (s : St ConnectCall C) (client : Client)
      → Granted cluster ref s.calls client
      → (connect cluster ref s).0 ≡ ok client
  unfolding connect read_credentials
  connect-of-Granted ref s client g = ground arith

  -- A reference that is missing, or of another kind, is refused before anything is called.
  connect_refuses :
      (ref : Option ProviderConfigReference) (s : St ConnectCall C)
      → ((name : String) → ref ≢ some (record { kind = kind_cluster_provider_config; name = name }))
      → (connect cluster ref s).1 ≡ s
  unfolding connect
  connect_refuses none s h = refl
  connect_refuses (some ref) s h = ground (arith, h ref.name)

  read_keys-ok :
      (public_ref private_ref : SecretKeySelector) (s : St ConnectCall C) {keys : Credentials}
      → (read_keys cluster (some public_ref) (some private_ref) s).0 ≡ ok keys
      → (public_secret : Secret) × (private_secret : Secret) × (cluster.secret s.calls
            public_ref.namespace public_ref.name
          ≡ ok public_secret)
        × (cluster.secret
              (get_secret public_ref.namespace public_ref.name ∷ s.calls)
              private_ref.namespace
              private_ref.name
            ≡ ok private_secret)
        × (lookup public_ref.key public_secret ≡ some keys.public_key)
        × (lookup private_ref.key private_secret ≡ some keys.private_key)
  unfolding read_keys
  read_keys-ok public_ref private_ref s h =
      elim (Result-cases (cluster.secret s.calls public_ref.namespace public_ref.name)) [
        | inr (e, q) ↦ absurd (ground arith)
        | inl (a, p) ↦
            elim (Result-cases (
              cluster.secret (get_secret public_ref.namespace public_ref.name ∷ s.calls)
                private_ref.namespace private_ref.name)) [
                  | inr (e, q) ↦ absurd (ground arith)
                  | inl (b, q) ↦ (a, b, p, q, ground arith, ground arith)
                ]
      ]

  read_credentials-source :
      (cd : ProviderCredentials) (s : St ConnectCall C) {keys : Credentials}
      → (read_credentials cluster cd s).0 ≡ ok keys
      → (cd.source ≡ credentials_source_secret)
        × ((read_keys cluster cd.public_key_secret_ref cd.private_key_secret_ref s).0 ≡ ok keys)
  unfolding read_credentials
  read_credentials-source cd s h = ground arith

  read_credentials-KeysRead :
      (cd : ProviderCredentials) (s : St ConnectCall C) {keys : Credentials}
      → (read_credentials cluster cd s).0 ≡ ok keys
      → KeysRead cluster cd s.calls keys
  read_credentials-KeysRead cd s {keys} h =
      let (source_lem, read) = read_credentials-source cd s h in
      go source_lem read cd.public_key_secret_ref cd.private_key_secret_ref refl refl
    where
      go :
          cd.source ≡ credentials_source_secret
          → (read_keys cluster cd.public_key_secret_ref cd.private_key_secret_ref s).0 ≡ ok keys
          → (p q : Option SecretKeySelector) → cd.public_key_secret_ref ≡ p
          → cd.private_key_secret_ref ≡ q
          → KeysRead cluster cd s.calls keys
      go src read none q e f = absurd (unfold read_keys in ground arith)
      go src read (some p) none e f = absurd (unfold read_keys in ground arith)
      go src read (some p) (some q) e f =
          let (a, b, w, x, y, z) = read_keys-ok p q s {keys = keys} (cc) in
          record {
            public_ref = p;
            private_ref = q;
            public_secret = a;
            private_secret = b;
            from_secret = src;
            has_public = e;
            has_private = f;
            read_public = w;
            read_private = x;
            public_found = y;
            private_found = z;
          }

  -- A client comes from a reference to a ClusterProviderConfig.
  connect_kind :
      (ref : ProviderConfigReference) (s : St ConnectCall C) {client : Client}
      → (connect cluster (some ref) s).0 ≡ ok client
      → (ref.kind ≡ kind_cluster_provider_config) × (cluster.track s.calls ≡ ok tt)
  unfolding connect
  connect_kind ref s h = ground arith

  connect-Granted :
      (ref : Option ProviderConfigReference) (s : St ConnectCall C) (client : Client)
      → (connect cluster ref s).0 ≡ ok client
      → Granted cluster ref s.calls client
  unfolding connect
  connect-Granted none s client h = absurd (ground arith)
  connect-Granted (some ref) s client h =
      let (kind_lem, track_lem) = connect_kind ref s {client = client} h in
      let t : St ConnectCall C = record s { calls = track_usage ∷ s.calls } in
      elim (Result-cases (cluster.config t.calls ref.name)) [
        | inr (e, q) ↦ absurd (ground arith)
        | inl (config, configured) ↦
            let u : St ConnectCall C = record t { calls = get_config ref.name ∷ t.calls } in
            elim (Result-cases (read_credentials cluster config.credentials u).0) [
              | inr (e, q) ↦ absurd (ground arith)
              | inl (keys, q) ↦ record {
                name = ref.name;
                config = config;
                keys = keys;
                referenced = ground arith;
                tracked = track_lem;
                configured = configured;
                keys_read = read_credentials-KeysRead config.credentials u q;
                opened = ground arith;
              }
            ]
      ]

  -- `Connect` returns a client exactly if the reference names a ClusterProviderConfig, the usage
  -- is tracked, that configuration is found, it names secrets for both keys, both secrets are
  -- found and hold their keys, and the client opens on its base URL with those keys.
  pub connect_iff :
      (ref : Option ProviderConfigReference) (s : St ConnectCall C) (client : Client)
      → ((connect cluster ref s).0 ≡ ok client) ↔ Granted cluster ref s.calls client
  connect_iff ref s client = (connect-Granted ref s client, connect-of-Granted ref s client)
