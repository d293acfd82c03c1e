-- ===== src/S3Store/Handlers.antt =====
-- `Observe`, `Create`, `Update` and `Delete` of the S3 controllers, with `getAWSSecretKey`.
pub mod Observing
pub mod Creating
pub mod Updating
pub mod Removing
pub mod Converging
pub mod Rounds
pub mod Spending
use opsmanager_crossplane_pr.Common.{
  ◌≡◌, ℤ, pos, Bool, true, false, ◌&&◌, not, Option, none, some, List, [], ◌∷◌, String, ◌<>◌,
  elements, is_none, is_empty, lookup, ◌==◌, string_eq, if◌then◌else◌,
}
use opsmanager_crossplane_pr.Errors.{Err, formatted, wrap, is_not_found}
use opsmanager_crossplane_pr.Effects.{
  Result, ok, err, error_of, normal, M, Action, ◌>>=◌, ◌>>◌, return, fail, or_wrap, wrap_error,
  call, ask, lift, resource, modify, emit,
}
use opsmanager_crossplane_pr.Managed.{
  Managed, absent, ExternalObservation, SecretKeySelector, annotate, set_external_name,
  set_available,
}
use opsmanager_crossplane_pr.Labels.{annotation_labels_adopted, labels_adopted, adopted_labels}
use opsmanager_crossplane_pr.Clients.Retry.{retry_on_s3_validation}
use opsmanager_crossplane_pr.S3Store.{
  S3StoreParameters, S3Store, ApiStore, S3Call, get, delete, create, update, get_secret, sleep,
  S3Service, Texts,
}
use opsmanager_crossplane_pr.S3Store.Convert.{late_init, to_sdk, is_up_to_date}

-- The labels' adoption: what the `if !labelsAdopted` block does to the resource.
unfoldable pub adopt_labels : ApiStore → S3Store → S3Store
unfolding adopted_labels annotate
adopt_labels observed cr =
    let p = cr.for_provider in
    annotate annotation_labels_adopted "true"
      (record cr { for_provider = record p { labels = adopted_labels p.labels observed.labels } })

-- The status, the external name, the condition, and late initialisation.
unfoldable pub take_over : ApiStore → S3Store → S3Store
unfolding set_external_name set_available late_init
take_over observed cr =
    let named = set_available (
      set_external_name cr.for_provider.id
        (record cr { at_provider = record { used_size = observed.used_size } })) in
    record named { for_provider = (late_init cr.for_provider observed).0 }

-- `Observe` once the store is found: the resource that it leaves, and its value.
unfoldable pub observed_cr : ApiStore → S3Store → S3Store
observed_cr o cr = let t = take_over o cr in if labels_adopted t then t else adopt_labels o t

unfoldable pub observation : ApiStore → S3Store → ExternalObservation
observation o cr = record {
  resource_exists = true;
  resource_up_to_date = is_up_to_date (observed_cr o cr).for_provider o true;
  resource_late_initialized =
      if labels_adopted (take_over o cr) then (late_init cr.for_provider o).1 else true;
}

-- `current.AssignmentEnabled = &f`
abbrev pub disabled : ApiStore → ApiStore
disabled o = record o { assignment_enabled = some false }

module _ (svc : S3Service) (txt : Texts) where
  observe_found : Result ApiStore → M S3Call S3Store ExternalObservation
  observe_found (ok o) = do cr ← resource; modify (observed_cr o); return (observation o cr)
  observe_found (err e) = if is_not_found (some e) then return absent else fail (wrap txt.err_get e)

  unfoldable pub observe : M S3Call S3Store ExternalObservation
  unfolding observe_found
  observe = do
    cr ← resource
    r ← call (get cr.for_provider.id) (λ h. svc.get h cr.for_provider.id)
    observe_found r

  found_key : SecretKeySelector → Option String → M S3Call S3Store String
  found_key ref none =
      fail (formatted "key %q not found in secret %s/%s" (ref.key ∷ ref.namespace ∷ ref.name ∷ []))
  found_key ref (some v) = return v

  unfoldable pub get_aws_secret_key : Option SecretKeySelector → M S3Call S3Store String
  unfolding found_key
  get_aws_secret_key none = return ""
  get_aws_secret_key (some ref) = do
    r ← call (get_secret ref.namespace ref.name) (λ h. svc.secret h ref.namespace ref.name)
    secret ← or_wrap "cannot get AWS secret key from Kubernetes secret" r
    found_key ref (lookup ref.key secret)

  unfoldable pub create_new : M S3Call S3Store (Unit {0})
  create_new = do
    cr ← resource
    aws_secret_key ← get_aws_secret_key cr.for_provider.aws_secret_key_secret_ref
    let bs = to_sdk cr.for_provider aws_secret_key
    r ← call (create bs) (λ h. svc.create h bs)
    or_wrap txt.err_create r
    modify (set_external_name cr.for_provider.id)
    emit normal txt.reason_created (txt.created <> cr.for_provider.id)

  create_checked : Result ApiStore → M S3Call S3Store (Unit {0})
  create_checked (ok existing) = do
    cr ← resource
    modify (set_external_name cr.for_provider.id)
    modify (λ c. record c { for_provider = (late_init c.for_provider existing).0 })
    emit normal txt.reason_adopted (txt.adopted <> cr.for_provider.id)
  create_checked (err e) = if is_not_found (some e) then create_new else fail (wrap txt.err_get e)

  unfoldable pub create_store : M S3Call S3Store (Unit {0})
  unfolding create_checked
  create_store = do
    cr ← resource
    r ← call (get cr.for_provider.id) (λ h. svc.get h cr.for_provider.id)
    create_checked r

  -- The backoff between two tries is 5 seconds.
  abbrev pub wait : Action S3Call S3Store Bool
  wait = ask (sleep 5) svc.elapsed

  abbrev pub try_update : String → ApiStore → Action S3Call S3Store (Option Err)
  try_update id bs = ask (update id bs) (λ h. error_of (svc.update h id bs))

  -- The update with its retry, of up to 3 tries.
  unfoldable pub update_retried : String → ApiStore → M S3Call S3Store (Unit {0})
  update_retried id bs = do
    e ← lift (retry_on_s3_validation wait (try_update id bs) (pos 3))
    wrap_error txt.err_update e

  unfoldable pub update_store : M S3Call S3Store (Unit {0})
  update_store = do
    cr ← resource
    aws_secret_key ← get_aws_secret_key cr.for_provider.aws_secret_key_secret_ref
    update_retried cr.for_provider.id (to_sdk cr.for_provider aws_secret_key)

  unfoldable pub deleted : String → Result (Unit {0}) → M S3Call S3Store (Unit {0})
  deleted id (ok a) = emit normal txt.reason_deleted (txt.deleted <> id)
  deleted id (err e) = if is_not_found (some e) then return tt else fail (wrap txt.err_delete e)

  unfoldable pub disable_assignment : String → ApiStore → Option Bool → M S3Call S3Store (Unit {0})
  disable_assignment id o none = return tt
  disable_assignment id o (some false) = return tt
  disable_assignment id o (some true) = update_retried id (disabled o)

  delete_found : String → Result ApiStore → M S3Call S3Store (Unit {0})
  unfolding deleted
  delete_found id (err e) = if is_not_found (some e) then return tt else fail (wrap txt.err_get e)
  delete_found id (ok current) = do
    disable_assignment id current current.assignment_enabled
    r ← call (delete id) (λ h. svc.delete h id)
    deleted id r

  unfoldable pub delete_store : M S3Call S3Store (Unit {0})
  unfolding delete_found
  delete_store = do
    cr ← resource
    r ← call (get cr.for_provider.id) (λ h. svc.get h cr.for_provider.id)
    delete_found cr.for_provider.id r
