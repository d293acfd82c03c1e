-- ===== src/Tests/Connecting.antt =====
-- The clients: a configuration with two secrets, and an operation that is refused once.
use opsmanager_crossplane_pr.Common.{
  ◌≡◌, ◌↔◌, refl, Bool, true, false, List, [], ◌∷◌, Option, none, some, String, pos, string_eq,
}
use opsmanager_crossplane_pr.Errors.{Err, is_s3_validation_conflict}
use opsmanager_crossplane_pr.Effects.{Result, ok, err, error_of, Action, St, ask}
use opsmanager_crossplane_pr.Managed.{ProviderConfigReference}
use opsmanager_crossplane_pr.Clients.Retry.{tries, retry_on_s3_validation}
use opsmanager_crossplane_pr.Clients.Retry.Bounds.{Run, retry-Run}
use opsmanager_crossplane_pr.Clients.Resolve.{
  ProviderConfigSpec, Credentials, Secret, ConnectCall, get_config, get_secret, track_usage,
  Cluster, connect, read_credentials,
}
use opsmanager_crossplane_pr.Clients.Resolve.Access.{Granted, connect_iff}
use opsmanager_crossplane_pr.Tests.{conflict}

-- Calls are "try" and "wait"; an operation is refused until it has waited once.
abbrev tried : List String → Result (Unit {0})
tried [] = err conflict
tried (c ∷ h) = ok tt

abbrev operation : Action String (Unit {0}) (Option Err)
operation = ask "try" (λ h. error_of (tried h))

abbrev backoff : Action String (Unit {0}) Bool
backoff = ask "wait" (λ h. true)

abbrev nothing_called : St String (Unit {0})
nothing_called = record { cr = tt; calls = []; events = [] }

two_tries :
    retry_on_s3_validation backoff operation (pos 3) nothing_called
    ≡ (none, record nothing_called { calls = "try" ∷ "wait" ∷ "try" ∷ [] })
unfolding retry_on_s3_validation is_s3_validation_conflict string_eq
    opsmanager_crossplane_pr.Common.nat_eq native.Mathlib.Decide.ℕ_discrete
two_tries = refl

one_try : (retry_on_s3_validation backoff operation (pos 0) nothing_called).1.calls ≡ "try" ∷ []
unfolding retry_on_s3_validation is_s3_validation_conflict string_eq
one_try = refl

retry-Run_example :
    Run backoff operation
      (tries (pos 3))
      nothing_called
      (retry_on_s3_validation backoff operation (pos 3) nothing_called)
retry-Run_example = retry-Run backoff operation (pos 3) nothing_called

abbrev config : ProviderConfigSpec
config = record {
  base_url = "https://ops";
  credentials = record {
    source = "Secret";
    public_key_secret_ref = some (record { namespace = "ops"; name = "keys"; key = "public" });
    private_key_secret_ref = some (record { namespace = "ops"; name = "keys"; key = "private" });
  };
}

abbrev keys : Secret
keys = ("public", "PUB") ∷ ("private", "PRIV") ∷ []

-- A client is its base URL and its keys.
abbrev pub cluster : Cluster (String × Credentials)
cluster = record {
  track = λ h. ok tt;
  config = λ h name. ok config;
  secret = λ h ns name. ok keys;
  new_client = λ url creds. ok (url, creds);
}

abbrev start : St ConnectCall (Unit {0})
start = record { cr = tt; calls = []; events = [] }

abbrev pub cluster_reference : Option ProviderConfigReference
cluster_reference = some (record { kind = "ClusterProviderConfig"; name = "default" })

abbrev opened : String × Credentials
opened = ("https://ops", record { public_key = "PUB"; private_key = "PRIV" })

connected : connect cluster cluster_reference start ≡ (
  ok opened,
  record start {
    calls =
        get_secret "ops" "keys" ∷ get_secret "ops" "keys" ∷ get_config "default" ∷ track_usage ∷ [];
  },
)
unfolding connect read_credentials string_eq
connected = refl

connect_iff_example :
    ((connect cluster cluster_reference start).0 ≡ ok opened)
    ↔ Granted cluster cluster_reference [] opened
connect_iff_example = connect_iff cluster cluster_reference start opened
