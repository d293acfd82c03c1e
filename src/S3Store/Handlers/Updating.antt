-- ===== src/S3Store/Handlers/Updating.antt =====
-- What an update with its retry leaves, and what `Update` sends.
use opsmanager_crossplane_pr.Common.{
  ◌≡◌, refl, ◌⊎◌, true, List, ◌∷◌, Option, String, arith, inl, inr, pos,
}
use opsmanager_crossplane_pr.Errors.{Err, is_s3_validation_conflict}
use opsmanager_crossplane_pr.Effects.{ok, Result-cases, error_of, St}
use opsmanager_crossplane_pr.Clients.Retry.{retry_on_s3_validation}
use opsmanager_crossplane_pr.Clients.Retry.Rule.{retry_rule}
use opsmanager_crossplane_pr.S3Store.{S3Store, ApiStore, S3Call, update, sleep, S3Service, Texts}
use opsmanager_crossplane_pr.S3Store.Convert.{to_sdk}
use opsmanager_crossplane_pr.S3Store.Handlers.{
  wait, try_update, update_retried, get_aws_secret_key, update_store,
}
use opsmanager_crossplane_pr.S3Store.Handlers.Creating.{get_aws_secret_key_frame}

module _ (svc : S3Service) (txt : Texts) (id : String) (bs : ApiStore) where
  -- The end of an update: the last call is an update, whose answer is the result, or the context
  -- was done in the backoff after a validation conflict. Resource and events are those of `s`.
  abbrev pub Ended : St S3Call S3Store → Option Err × St S3Call S3Store → Type 0
  Ended s r =
      (r.1.cr ≡ s.cr)
      × (r.1.events ≡ s.events)
      × (((h : List S3Call) × (r.1.calls ≡ update id bs ∷ h)
            × (r.0 ≡ error_of (svc.update h id bs)))
          ⊎ ((h : List S3Call) × (r.1.calls ≡ sleep 5 ∷ h)
              × (is_s3_validation_conflict r.0 ≡ true)))

  retry-Ended :
      (s : St S3Call S3Store)
      → Ended s (retry_on_s3_validation (wait svc txt) (try_update svc txt id bs) (pos 3) s)
  retry-Ended s =
      retry_rule (wait svc txt) (try_update svc txt id bs)
        (λ t. (t.cr ≡ s.cr) × (t.events ≡ s.events)) (Ended s) (λ t i. i)
        (λ t i. (i.0, i.1, inl (t.calls, refl, refl)))
        (λ t i c. (i.0, i.1, inr (update id bs ∷ t.calls, refl, c))) (pos 3) s (refl, refl)

  pub update_retried_frame :
      (s : St S3Call S3Store)
      → let t = (update_retried svc txt id bs s).1 in
        (t.cr ≡ s.cr)
        × (t.events ≡ s.events)
        × (((h : List S3Call) × (t.calls ≡ update id bs ∷ h))
            ⊎ ((h : List S3Call) × (t.calls ≡ sleep 5 ∷ h)))
  unfolding update_retried
  update_retried_frame s = go (retry-Ended s)
    where
      go :
          Ended s (retry_on_s3_validation (wait svc txt) (try_update svc txt id bs) (pos 3) s)
          → let t = (update_retried svc txt id bs s).1 in
            (t.cr ≡ s.cr)
            × (t.events ≡ s.events)
            × (((h : List S3Call) × (t.calls ≡ update id bs ∷ h))
                ⊎ ((h : List S3Call) × (t.calls ≡ sleep 5 ∷ h)))
      go (c, v, inl (h, p, q)) = (ground arith, ground arith, inl (h, ground arith))
      go (c, v, inr (h, p, q)) = (ground arith, ground arith, inr (h, ground arith))

  -- An update without error was accepted at its last try.
  pub update_retried_ok :
      (s : St S3Call S3Store)
      → (update_retried svc txt id bs s).0 ≡ ok tt
      → (h : List S3Call) × ((update_retried svc txt id bs s).1.calls ≡ update id bs ∷ h)
        × (svc.update h id bs ≡ ok tt)
  unfolding update_retried
  update_retried_ok s done = go (retry-Ended s)
    where
      go :
          Ended s (retry_on_s3_validation (wait svc txt) (try_update svc txt id bs) (pos 3) s)
          → (h : List S3Call) × ((update_retried svc txt id bs s).1.calls ≡ update id bs ∷ h)
            × (svc.update h id bs ≡ ok tt)
      go (c, v, inl (h, p, q)) = (h, ground arith, ground arith)
      go (c, v, inr (h, p, q)) = absurd (unfold is_s3_validation_conflict in ground arith)

module _ (svc : S3Service) (txt : Texts) (s : St S3Call S3Store) where
  -- What an update that returns no error has sent and left.
  pub record Updated (t : St S3Call S3Store) : Type 0 where
    pub key : String
    pub before : List S3Call
    pub key_read :
        (get_aws_secret_key svc txt s.cr.for_provider.aws_secret_key_secret_ref s).0 ≡ ok key
    pub sent : t.calls ≡ update s.cr.for_provider.id (to_sdk s.cr.for_provider key) ∷ before
    pub accepted : svc.update before s.cr.for_provider.id (to_sdk s.cr.for_provider key) ≡ ok tt
    pub resource : t.cr ≡ s.cr
    pub events : t.events ≡ s.events

  -- If `Update` returns no error, its last call was an update of the spec's ID with the object
  -- made from the spec and the secret's key, and the API accepted it. Resource and events are as
  -- before.
  pub update_store-Updated : (update_store svc txt s).0 ≡ ok tt → Updated (update_store svc txt s).1
  unfolding update_store
  update_store-Updated done =
      let p = s.cr.for_provider in
      let ref = p.aws_secret_key_secret_ref in
      let frame = get_aws_secret_key_frame svc txt ref s in
      let u = (get_aws_secret_key svc txt ref s).1 in
      elim (Result-cases (get_aws_secret_key svc txt ref s).0) [
        | inr (x, q) ↦ absurd (ground arith)
        | inl (key, q) ↦
            let (h, sent, accepted) =
              update_retried_ok svc txt p.id (to_sdk p key) u (ground arith) in
            let (c, v, w) = update_retried_frame svc txt p.id (to_sdk p key) u in
            record {
              key = key;
              before = h;
              key_read = q;
              sent = ground arith;
              accepted = accepted;
              resource = ground arith;
              events = ground arith;
            }
      ]
