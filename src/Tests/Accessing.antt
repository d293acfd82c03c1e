-- ===== src/Tests/Accessing.antt =====
-- A store whose conditions are a map from their types.
use opsmanager_crossplane_pr.Common.{
  ◌≡◌, refl, true, false, Bool, Option, some, none, List, [], ◌∷◌, String, insert, lookup,
  lookup-insert, string_eq,
}
use opsmanager_crossplane_pr.Managed.{ProviderConfigReference}
use opsmanager_crossplane_pr.Accessors.{
  Conditions, Resource, set_conditions, set_management_policies, set_provider_config_reference,
  set_write_connection_secret_to_reference,
}
use opsmanager_crossplane_pr.Accessors.View.{Metadata, Readiness, SetsReady, view}

abbrev Status : Type 0
Status = List (String × Bool)

set_each : List (String × Bool) → Status → Status
set_each [] r = r
set_each ((type, value) ∷ cs) r = set_each cs (insert type value r)

abbrev conditions : Conditions Status (String × Bool) String
conditions = record {
  get_condition = λ r t. (t, elim (lookup t r) [ some value ↦ value | none ↦ false ]);
  set_conditions = λ r cs. set_each cs r;
}

abbrev readiness : Readiness (String × Bool) String
readiness = record { available = ("Ready", true); type_ready = "Ready"; is_true = λ c. c.1 }

sets_ready : SetsReady conditions readiness
unfolding set_each string_eq
sets_ready = record { set_ready = λ r. rw (lookup-insert "Ready" "Ready" true r) refl }

abbrev metadata : Metadata (List (String × String))
metadata = record { annotations = λ x. x; deleted = λ x. false }

abbrev fresh :
    Resource
      (List (String × String))
      (List String)
      (Option ProviderConfigReference)
      (Option String)
      Status
      String
      String
fresh = record {
  type_meta = record { kind = "S3Blockstore"; api_version = "v1alpha1" };
  object_meta = [];
  spec = record {
    managed = record {
      management_policies = "*" ∷ [];
      provider_config_reference = none;
      write_connection_secret_to_reference = none;
    };
    for_provider = "bucket";
  };
  status = record { resource = []; at_provider = "" };
}

abbrev default_config : Option ProviderConfigReference
default_config = some (record { kind = "ClusterProviderConfig"; name = "default" })

ready_after :
    (view conditions readiness metadata
      (set_conditions conditions fresh (("Ready", true) ∷ []))).ready
    ≡ true
unfolding view set_conditions set_each string_eq opsmanager_crossplane_pr.Accessors.get_condition
    lookup insert
ready_after = refl
