-- ===== src/S3Store/Handlers/Removing.antt =====
-- What `Delete` does.
use opsmanager_crossplane_pr.Common.{
  ◌≡◌, refl, ◌≢◌, Bool, true, false, List, ◌∷◌, Option, none, some, arith, inl, inr,
}
use opsmanager_crossplane_pr.Errors.{Err, is_not_found}
use opsmanager_crossplane_pr.Effects.{ok, err, Result-cases, St}
use opsmanager_crossplane_pr.S3Store.{
  S3Store, ApiStore, S3Call, get, delete, update, S3Service, Texts,
}
use opsmanager_crossplane_pr.S3Store.Handlers.{
  disabled, disable_assignment, deleted, update_retried, delete_store,
}
use opsmanager_crossplane_pr.S3Store.Handlers.Updating.{update_retried_frame, update_retried_ok}

module _ (svc : S3Service) (txt : Texts) (s : St S3Call S3Store) (o : ApiStore)
    (found : svc.get s.calls s.cr.for_provider.id ≡ ok o) where
  delete_unassigned :
      o.assignment_enabled ≢ some true
      → (delete_store svc txt s).1.calls
        ≡ delete s.cr.for_provider.id ∷ get s.cr.for_provider.id ∷ s.calls
  unfolding delete_store disable_assignment
  delete_unassigned h = go o.assignment_enabled refl
    where
      go :
          (b : Option Bool)
          → o.assignment_enabled ≡ b
          → (delete_store svc txt s).1.calls
            ≡ delete s.cr.for_provider.id ∷ get s.cr.for_provider.id ∷ s.calls
      go none e = ground arith
      go (some false) e = ground arith
      go (some true) e = absurd (h e)

  -- If the API has the store with assignment enabled, `Delete` calls the deletion only straight
  -- after an update of the store with assignment disabled, which the API accepted.
  pub delete_needs_disabled :
      o.assignment_enabled ≡ some true
      → (h : List S3Call) → (delete_store svc txt s).1.calls ≡ delete s.cr.for_provider.id ∷ h
      → (before : List S3Call) × (h ≡ update s.cr.for_provider.id (disabled o) ∷ before)
        × (svc.update before s.cr.for_provider.id (disabled o) ≡ ok tt)
  unfolding delete_store disable_assignment
  delete_needs_disabled assigned h called =
      let id = s.cr.for_provider.id in
      let got : St S3Call S3Store = record s { calls = get id ∷ s.calls } in
      elim (Result-cases (update_retried svc txt id (disabled o) got).0) [
        | inl (a, q) ↦
            let (before, sent, accepted) =
              update_retried_ok svc txt id (disabled o) got (ground arith) in
            (before, ground arith, accepted)
        | inr (e, q) ↦ absurd (elim ((update_retried_frame svc txt id (disabled o) got).2) [
          | inl (k, w) ↦ ground arith
          | inr (k, w) ↦ ground arith
        ])
      ]

-- What the API has said when `Delete` returns no error: the GET or the deletion answered that there
-- is no such store, or the deletion was accepted.
pub data Gone (svc : S3Service) (s t : St S3Call S3Store) : Type 0 where
  not_there :
      (e : Err)
      → svc.get s.calls s.cr.for_provider.id ≡ err e
      → is_not_found (some e) ≡ true
      → Gone svc s t
  removed :
      (h : List S3Call)
      → t.calls ≡ delete s.cr.for_provider.id ∷ h
      → svc.delete h s.cr.for_provider.id ≡ ok tt
      → Gone svc s t
  removed_before :
      (h : List S3Call) (e : Err)
      → t.calls ≡ delete s.cr.for_provider.id ∷ h
      → svc.delete h s.cr.for_provider.id ≡ err e
      → is_not_found (some e) ≡ true
      → Gone svc s t

module _ (svc : S3Service) (txt : Texts) (s : St S3Call S3Store) where
  delete_last :
      (u : St S3Call S3Store)
      → (deleted svc txt s.cr.for_provider.id
          (svc.delete u.calls s.cr.for_provider.id)
          (record u { calls = delete s.cr.for_provider.id ∷ u.calls })).0
        ≡ ok tt
      → (t : St S3Call S3Store) → t.calls ≡ delete s.cr.for_provider.id ∷ u.calls
      → Gone svc s t
  unfolding deleted
  delete_last u done t c = elim (Result-cases (svc.delete u.calls s.cr.for_provider.id)) [
    | inl (a, e) ↦ removed u.calls c e
    | inr (x, e) ↦ removed_before u.calls x c e (ground arith)
  ]

  -- `Delete` returns no error only if the store is gone: the API said that it does not exist, or
  -- accepted its deletion as the last call.
  pub delete-Gone : (delete_store svc txt s).0 ≡ ok tt → Gone svc s (delete_store svc txt s).1
  unfolding delete_store deleted
  delete-Gone done = elim (Result-cases (svc.get s.calls s.cr.for_provider.id)) [
    | inr (e, q) ↦ not_there e q (ground arith)
    | inl (o, q) ↦
        let got : St S3Call S3Store = record s { calls = get s.cr.for_provider.id ∷ s.calls } in
        let m = disable_assignment svc txt s.cr.for_provider.id o o.assignment_enabled got in
        elim (Result-cases m.0) [
          | inr (e, r) ↦ absurd (ground arith)
          | inl (a, r) ↦ delete_last m.1 (ground arith) (delete_store svc txt s).1 (ground arith)
        ]
  ]

  -- `Delete` leaves the resource as it was.
  pub cr-delete_store : (delete_store svc txt s).1.cr ≡ s.cr
  unfolding delete_store deleted disable_assignment
  cr-delete_store = elim (Result-cases (svc.get s.calls s.cr.for_provider.id)) [
    | inr (e, q) ↦ ground arith
    | inl (o, q) ↦ go o q o.assignment_enabled refl
  ]
    where
      go :
          (o : ApiStore)
          → svc.get s.calls s.cr.for_provider.id ≡ ok o
          → (b : Option Bool) → o.assignment_enabled ≡ b
          → (delete_store svc txt s).1.cr ≡ s.cr
      go o q none e = ground arith
      go o q (some false) e = ground arith
      go o q (some true) e =
          let id = s.cr.for_provider.id in
          let got : St S3Call S3Store = record s { calls = get id ∷ s.calls } in
          ground (arith, (update_retried_frame svc txt id (disabled o) got).0)
