-- ===== src/S3Store/History.antt =====
-- What has been called after any number of methods of a store's controller, in any order.
pub mod Guarding
use opsmanager_crossplane_pr.Common.{
  ℕ, zero, suc, ◌≡◌, refl, ◌∙◌, sym, ◌≢◌, Bool, true, false, ◌&&◌, ◌||◌, not, Option, none, some,
  List, [], ◌∷◌, String, ◌==◌, string_eq, arith, Bool-cases, inl, inr,
}
use opsmanager_crossplane_pr.Errors.{Err, is_not_found, is_s3_validation_conflict}
use opsmanager_crossplane_pr.Effects.{Result, ok, err, Result-cases, St}
use opsmanager_crossplane_pr.Managed.{SecretKeySelector}
use opsmanager_crossplane_pr.Clients.Retry.{tries, attempts, retry_on_s3_validation}
use opsmanager_crossplane_pr.Clients.Retry.Bounds.{
  attempts-settled, attempts-cancelled, attempts-again,
}
use opsmanager_crossplane_pr.S3Store.{
  S3Store, ApiStore, S3Call, get, create, update, delete, get_secret, sleep, S3Service, Texts,
}
use opsmanager_crossplane_pr.S3Store.Convert.{to_sdk}
use opsmanager_crossplane_pr.S3Store.Handlers.{
  observe, create_store, create_new, get_aws_secret_key, wait, try_update, update_retried,
  update_store, deleted, disabled, disable_assignment, delete_store,
}
use opsmanager_crossplane_pr.S3Store.Handlers.Updating.{update_retried_ok}

unassigned : Option Bool → Bool
unassigned none = true
unassigned (some b) = not b

disables : Option Bool → Bool
disables none = false
disables (some b) = not b

has_unassigned : Result ApiStore → Bool
unfolding unassigned
has_unassigned (ok o) = unassigned o.assignment_enabled
has_unassigned (err e) = false

accepted : Result (Unit {0}) → Bool
accepted (ok a) = true
accepted (err e) = false

missing : Result ApiStore → Bool
missing (ok o) = false
missing (err e) = is_not_found (some e)

module _ (svc : S3Service) where
  -- The newest call has shown the store with assignment not enabled, or the API has accepted it as
  -- an update that disables assignment.
  unfoldable pub just_unassigned : String → List S3Call → Bool
  unfolding has_unassigned disables accepted
  just_unassigned id (get p ∷ h) = p == id && has_unassigned (svc.get h id)
  just_unassigned id (update p o ∷ h) =
      p == id && disables o.assignment_enabled && accepted (svc.update h id o)
  just_unassigned id h = false

  -- But for the secret that was read since, the newest call has asked for the store, and the API has
  -- answered by a 404.
  unfoldable pub just_missing : String → List S3Call → Bool
  unfolding missing
  just_missing id (get p ∷ h) = p == id && missing (svc.get h id)
  just_missing id (get_secret ns n ∷ h) = just_missing id h
  just_missing id h = false

  -- Each deletion and each creation came after such calls.
  unfoldable pub guarded : List S3Call → Bool
  guarded [] = true
  guarded (delete id ∷ h) = just_unassigned id h && guarded h
  guarded (create o ∷ h) = just_missing o.id h && guarded h
  guarded (q ∷ h) = guarded h

  module _ (txt : Texts) where
    -- What a state becomes by methods in any order, between which the resource may be edited.
    pub data Reaches (s : St S3Call S3Store) : St S3Call S3Store → Type 0 where
      start : Reaches s s
      edited :
          {t : St S3Call S3Store} (cr : S3Store) → Reaches s t → Reaches s (record t { cr = cr })
      observed : {t : St S3Call S3Store} → Reaches s t → Reaches s (observe svc txt t).1
      created : {t : St S3Call S3Store} → Reaches s t → Reaches s (create_store svc txt t).1
      updated : {t : St S3Call S3Store} → Reaches s t → Reaches s (update_store svc txt t).1
      removed : {t : St S3Call S3Store} → Reaches s t → Reaches s (delete_store svc txt t).1
