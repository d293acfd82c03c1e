-- ===== src/S3Store/Handlers/Rounds.antt =====
-- Two methods in a row: what `Observe` reports after a write or a deletion that returned no error.
use opsmanager_crossplane_pr.Common.{
  ◌≡◌, refl, ◌⊎◌, ap, ℤ, true, List, ◌∷◌, String, arith, inl, inr, some,
}
use opsmanager_crossplane_pr.Errors.{Err, is_not_found}
use opsmanager_crossplane_pr.Effects.{ok, err, St}
use opsmanager_crossplane_pr.Managed.{ExternalObservation, absent, set_external_name}
use opsmanager_crossplane_pr.S3Store.{
  S3Store, ApiStore, S3Call, create, update, delete, S3Service, Texts,
}
use opsmanager_crossplane_pr.S3Store.Convert.{to_sdk}
use opsmanager_crossplane_pr.S3Store.Handlers.{
  observe, observation, create_store, update_store, delete_store,
}
use opsmanager_crossplane_pr.S3Store.Handlers.Converging.{observation_after_write}
use opsmanager_crossplane_pr.S3Store.Handlers.Observing.{observe_at}
use opsmanager_crossplane_pr.S3Store.Handlers.Creating.{create-Created}
use opsmanager_crossplane_pr.S3Store.Handlers.Updating.{update_store-Updated}
use opsmanager_crossplane_pr.S3Store.Handlers.Removing.{
  cr-delete_store, not_there, removed, removed_before, delete-Gone,
}

module _ (svc : S3Service) (txt : Texts) where
  -- `Observe` finds the store, and finds it up to date.
  pub record FoundUpToDate (t : St S3Call S3Store) : Type 0 where
    pub value : ExternalObservation
    pub observed : (observe svc txt t).0 ≡ ok value
    pub exists : value.resource_exists ≡ true
    pub up_to_date : value.resource_up_to_date ≡ true

  -- The API answers a GET with an object, but for the key, which it may hide, and the used size.
  abbrev pub Answers : List S3Call → String → ApiStore → Type 0
  Answers h id o =
      (key : String) × (used : ℤ) × (svc.get h id
        ≡ ok (record o { aws_secret_key = key; used_size = used }))

  found_after_write :
      (t : St S3Call S3Store) (key : String)
      → Answers t.calls t.cr.for_provider.id (to_sdk t.cr.for_provider key)
      → FoundUpToDate t
  unfolding to_sdk observation
  found_after_write t key (hidden, used, e) =
      let o = record (to_sdk t.cr.for_provider hidden) { used_size = used } in
      record {
        value = observation o t.cr;
        observed = ap (λ (x : _ × _). x.0) (observe_at svc txt t o e);
        exists = refl;
        up_to_date = observation_after_write t.cr hidden used;
      }

  -- If `Update` returns no error, and the API answers a GET after an update that it accepted with
  -- the object sent, but for the key and the used size, the next `Observe` finds the store and
  -- finds it up to date.
  pub update_then_observe :
      (s : St S3Call S3Store)
      → ((h : List S3Call) (o : ApiStore)
          → svc.update h s.cr.for_provider.id o ≡ ok tt
          → Answers (update s.cr.for_provider.id o ∷ h) s.cr.for_provider.id o)
      → (update_store svc txt s).0 ≡ ok tt
      → FoundUpToDate (update_store svc txt s).1
  update_then_observe s kept done =
      let u = update_store-Updated svc txt s done in
      let t = (update_store svc txt s).1 in
      found_after_write t u.key
        (rw (u.resource, u.sent) (kept u.before (to_sdk s.cr.for_provider u.key) u.accepted))

  -- If the GET answers 404, `Create` returns no error, and the API answers a GET of the ID of the spec
  -- after a creation under that ID that it accepted with the object sent, but for the key and the used
  -- size, the next `Observe` finds the store and finds it up to date.
  pub create_then_observe :
      (s : St S3Call S3Store) (e : Err)
      → ((h : List S3Call) (o : ApiStore)
          → o.id ≡ s.cr.for_provider.id
          → svc.create h o ≡ ok tt
          → Answers (create o ∷ h) s.cr.for_provider.id o)
      → svc.get s.calls s.cr.for_provider.id ≡ err e
      → is_not_found (some e) ≡ true
      → (create_store svc txt s).0 ≡ ok tt
      → FoundUpToDate (create_store svc txt s).1
  unfolding set_external_name
  create_then_observe s e kept missing n done =
      let c = create-Created svc txt s e missing n done in
      let t = (create_store svc txt s).1 in
      found_after_write t c.key (
        rw (c.resource, c.sent)
          (kept c.before (to_sdk s.cr.for_provider c.key) (unfold to_sdk in refl) c.accepted))

  -- `Observe` reports that the store is absent.
  abbrev pub FoundAbsent : St S3Call S3Store → Type 0
  FoundAbsent t = (observe svc txt t).0 ≡ ok absent

  absent_after :
      (t : St S3Call S3Store) (e : Err)
      → svc.get t.calls t.cr.for_provider.id ≡ err e
      → is_not_found (some e) ≡ true
      → FoundAbsent t
  unfolding observe
  absent_after t e h n = ground arith

  -- The API has accepted a deletion, or has answered it that there is no such store.
  abbrev pub Deletes : List S3Call → String → Type 0
  Deletes h id =
      (svc.delete h id ≡ ok tt)
      ⊎ ((e : Err) × (svc.delete h id ≡ err e) × (is_not_found (some e) ≡ true))

  -- The API answers a GET that there is no such store.
  abbrev pub Lacks : List S3Call → String → Type 0
  Lacks h id = (e : Err) × (svc.get h id ≡ err e) × (is_not_found (some e) ≡ true)

  -- If the API has the store, `Delete` returns no error, and the API answers a GET after a deletion
  -- that it accepted, or answered by a 404, with a 404, the next `Observe` reports that the store
  -- is absent.
  pub delete_then_observe :
      (s : St S3Call S3Store) (o : ApiStore)
      → ((h : List S3Call)
          → Deletes h s.cr.for_provider.id
          → Lacks (delete s.cr.for_provider.id ∷ h) s.cr.for_provider.id)
      → svc.get s.calls s.cr.for_provider.id ≡ ok o
      → (delete_store svc txt s).0 ≡ ok tt
      → FoundAbsent (delete_store svc txt s).1
  delete_then_observe s o gone found done =
      let t = (delete_store svc txt s).1 in
      let same = cr-delete_store svc txt s in
      elim (delete-Gone svc txt s done) [
        | not_there e q n ↦ absurd (cc)
        | removed h c a ↦ let (e, q, n) = gone h (inl a) in absent_after t e (rw (same, c) q) n
        | removed_before h x c a n ↦
            let (e, q, m) = gone h (inr (x, a, n)) in absent_after t e (rw (same, c) q) m
      ]
