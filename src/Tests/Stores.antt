-- ===== src/Tests/Stores.antt =====
-- The S3 stores: a store that is assigned, in an API whose update succeeds at the second try.
use opsmanager_crossplane_pr.Common.{
  ◌≡◌, refl, true, false, List, [], ◌∷◌, Option, none, some, String, pos, inl, inr, string_eq, ◌==◌,
  if◌then◌else◌, arith, ◌≢◌, ◌↔◌,
}
use opsmanager_crossplane_pr.Errors.{is_not_found, is_s3_validation_conflict}
use opsmanager_crossplane_pr.Effects.{Result, ok, err, St}
use opsmanager_crossplane_pr.S3Store.{
  S3StoreParameters, S3Store, ApiStore, S3Call, get, create, delete, update, sleep, S3Service,
}
use opsmanager_crossplane_pr.S3Store.Convert.{to_sdk, is_up_to_date}
use opsmanager_crossplane_pr.S3Store.Handlers.{
  delete_store, disable_assignment, update_retried, disabled, create_store, create_new,
  update_store, get_aws_secret_key, observe, observation,
}
use opsmanager_crossplane_pr.S3Store.Handlers.Removing.{Gone, delete-Gone}
use opsmanager_crossplane_pr.S3Store.Handlers.Creating.{Created, create-Created}
use opsmanager_crossplane_pr.S3Store.Handlers.Updating.{Updated, update_store-Updated}
use opsmanager_crossplane_pr.S3Store.Handlers.Observing.{
  observe_settles, observed_all, Adopted, labels_adopted_once,
}
use opsmanager_crossplane_pr.S3Store.Handlers.Rounds.{
  FoundUpToDate, update_then_observe, create_then_observe, FoundAbsent, delete_then_observe,
}
use opsmanager_crossplane_pr.S3Store.Handlers.Spending.{Spends, methods-Spends}
use opsmanager_crossplane_pr.S3Store.Drift.{InSync, is_up_to_date_iff}
use opsmanager_crossplane_pr.Labels.{labels_adopted}
use opsmanager_crossplane_pr.Clients.Retry.{retry_on_s3_validation}
use opsmanager_crossplane_pr.S3Blockstore.{blockstore_texts}
use opsmanager_crossplane_pr.Tests.{not_found, conflict}

abbrev pub bucket : S3StoreParameters
bucket = record {
  id = "bucket";
  uri = "mongodb://meta";
  labels = none;
  assignment_enabled = some true;
  ssl = none;
  write_concern = "";
  encrypted_credentials = none;
  load_factor = none;
  max_capacity_gb = none;
  provisioned = none;
  sync_source = "";
  username = "";
  s3_bucket_endpoint = "https://s3";
  s3_bucket_name = "backups";
  s3_auth_method = "KEYS";
  aws_access_key = "AKIA";
  aws_secret_key_secret_ref = some (record { namespace = "ops"; name = "aws"; key = "secret" });
  s3_max_connections = pos 0;
  path_style_access_enabled = some true;
  sse_enabled = none;
  accepted_tos = none;
  disable_proxy_s3 = none;
}

abbrev pub stored : ApiStore
stored = record (to_sdk bucket "s3cr3t") { labels = some ("eu" ∷ []); used_size = pos 7 }

abbrev pub cr : S3Store
cr = record {
  annotations = [];
  deleted = false;
  ready = false;
  provider_config_ref = none;
  for_provider = bucket;
  at_provider = record { used_size = pos 0 };
}

abbrev pub at_start : St S3Call S3Store
at_start = record { cr = cr; calls = []; events = [] }

-- A conflict at first, and acceptance after a backoff.
abbrev pub update_answer : List S3Call → Result (Unit {0})
update_answer [] = err conflict
update_answer (sleep n ∷ h) = ok tt
update_answer (c ∷ h) = err conflict

abbrev pub in_use : S3Service
in_use = record {
  get = λ h id. ok stored;
  create = λ h o. ok tt;
  update = λ h id o. update_answer h;
  delete = λ h id. ok tt;
  secret = λ h ns name. ok (("secret", "s3cr3t") ∷ []);
  elapsed = λ h. true;
}

delete_calls :
    (delete_store in_use blockstore_texts at_start).1.calls
    ≡ delete "bucket"
      ∷ update "bucket" (disabled stored)
      ∷ sleep 5
      ∷ update "bucket" (disabled stored)
      ∷ get "bucket"
      ∷ []
unfolding delete_store disable_assignment update_retried retry_on_s3_validation
    is_s3_validation_conflict string_eq to_sdk opsmanager_crossplane_pr.Common.nat_eq
    native.Mathlib.Decide.ℕ_discrete
delete_calls = refl

delete-Gone_example : Gone in_use at_start (delete_store in_use blockstore_texts at_start).1
unfolding delete_store disable_assignment update_retried retry_on_s3_validation
    is_s3_validation_conflict string_eq to_sdk opsmanager_crossplane_pr.Common.nat_eq
    native.Mathlib.Decide.ℕ_discrete
delete-Gone_example = delete-Gone in_use blockstore_texts at_start refl

-- An API that has no store yet.
abbrev pub empty_api : S3Service
empty_api = record in_use { get = λ h id. err not_found }

create-Created_example :
    Created empty_api blockstore_texts at_start (create_store empty_api blockstore_texts at_start).1
unfolding create_store create_new get_aws_secret_key is_not_found string_eq
    opsmanager_crossplane_pr.Common.nat_eq native.Mathlib.Decide.ℕ_discrete
    opsmanager_crossplane_pr.Common.lookup
create-Created_example = create-Created empty_api blockstore_texts at_start not_found refl refl refl

update_store-Updated_example :
    Updated in_use blockstore_texts at_start (update_store in_use blockstore_texts at_start).1
unfolding update_store get_aws_secret_key update_retried retry_on_s3_validation
    is_s3_validation_conflict string_eq opsmanager_crossplane_pr.Common.lookup
    opsmanager_crossplane_pr.Common.nat_eq native.Mathlib.Decide.ℕ_discrete
update_store-Updated_example = update_store-Updated in_use blockstore_texts at_start refl

observe_settles_example :
    let t = (observe in_use blockstore_texts at_start).1 in
    observe in_use blockstore_texts t ≡ (
      ok (record (observation stored cr) { resource_late_initialized = false }),
      record t { calls = get "bucket" ∷ t.calls },
    )
observe_settles_example = observe_settles in_use blockstore_texts at_start stored refl refl

labels_adopted_once_example :
    Adopted none
      (some ("eu" ∷ []))
      (observed_all
        (stored ∷ record stored { labels = some ("us" ∷ []) } ∷ [])
        cr).for_provider.labels
unfolding labels_adopted
labels_adopted_once_example =
    labels_adopted_once stored (record stored { labels = some ("us" ∷ []) } ∷ []) cr refl

is_up_to_date_iff_example : (is_up_to_date bucket stored true ≡ true) ↔ InSync bucket stored true
is_up_to_date_iff_example = is_up_to_date_iff bucket stored true

-- An API that answers a GET of an ID with what it got last under it, and hides the key.
abbrev pub last_answer : Result ApiStore → String → List S3Call → Result ApiStore
last_answer before id [] = before
last_answer before id (update p o ∷ h) =
    let rest = last_answer before id h in
    if p == id then ok (record o { aws_secret_key = "***"; used_size = pos 7 }) else rest
last_answer before id (create o ∷ h) =
    let rest = last_answer before id h in
    if o.id == id then ok (record o { aws_secret_key = "***"; used_size = pos 7 }) else rest
last_answer before id (delete p ∷ h) =
    let rest = last_answer before id h in if p == id then err not_found else rest
last_answer before id (c ∷ h) = last_answer before id h

abbrev pub keeping : Result ApiStore → S3Service
keeping before = record in_use { get = λ h id. last_answer before id h }

update_then_observe_example :
    FoundUpToDate
      (keeping (ok stored))
      blockstore_texts
      (update_store (keeping (ok stored)) blockstore_texts at_start).1
unfolding update_store get_aws_secret_key opsmanager_crossplane_pr.Common.lookup string_eq
    update_retried retry_on_s3_validation is_s3_validation_conflict
    opsmanager_crossplane_pr.Common.nat_eq native.Mathlib.Decide.ℕ_discrete
update_then_observe_example =
    update_then_observe (keeping (ok stored)) blockstore_texts at_start
      (λ h o accepted. ("***", pos 7, refl)) refl

kept_created :
    (h : List S3Call) (o : ApiStore)
    → o.id ≡ "bucket"
    → (keeping (err not_found)).get (create o ∷ h) "bucket"
      ≡ ok (record o { aws_secret_key = "***"; used_size = pos 7 })
kept_created h o named = ground arith

create_then_observe_example :
    FoundUpToDate
      (keeping (err not_found))
      blockstore_texts
      (create_store (keeping (err not_found)) blockstore_texts at_start).1
unfolding is_not_found opsmanager_crossplane_pr.Common.nat_eq native.Mathlib.Decide.ℕ_discrete
    create_store create_new get_aws_secret_key opsmanager_crossplane_pr.Common.lookup string_eq
create_then_observe_example =
    create_then_observe (keeping (err not_found)) blockstore_texts at_start not_found
      (λ h o named accepted. ("***", pos 7, kept_created h o named)) refl refl refl

delete_then_observe_example :
    FoundAbsent
      (keeping (ok stored))
      blockstore_texts
      (delete_store (keeping (ok stored)) blockstore_texts at_start).1
unfolding is_not_found opsmanager_crossplane_pr.Common.nat_eq native.Mathlib.Decide.ℕ_discrete
    delete_store disable_assignment to_sdk update_retried retry_on_s3_validation
    is_s3_validation_conflict string_eq
delete_then_observe_example =
    delete_then_observe (keeping (ok stored)) blockstore_texts at_start stored
      (λ h accepted. (not_found, refl, refl)) refl refl

methods-Spends_example :
    Spends 3 10 at_start (update_store in_use blockstore_texts at_start).1
    × Spends 3 10 at_start (delete_store in_use blockstore_texts at_start).1
methods-Spends_example = methods-Spends in_use blockstore_texts at_start
