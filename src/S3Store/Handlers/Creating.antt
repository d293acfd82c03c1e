-- ===== src/S3Store/Handlers/Creating.antt =====
-- What `Create` does on each answer, and what the write paths send.
use opsmanager_crossplane_pr.Common.{
  ◌≡◌, refl, true, false, List, ◌∷◌, Option, none, some, String, ◌<>◌, string_eq, arith, inl, inr,
}
use opsmanager_crossplane_pr.Errors.{Err, is_not_found}
use opsmanager_crossplane_pr.Effects.{ok, err, Result-cases, St, normal, Event}
use opsmanager_crossplane_pr.Managed.{SecretKeySelector, set_external_name}
use opsmanager_crossplane_pr.S3Store.{S3Store, ApiStore, S3Call, get, create, S3Service, Texts}
use opsmanager_crossplane_pr.S3Store.Convert.{late_init, to_sdk}
use opsmanager_crossplane_pr.S3Store.Handlers.{get_aws_secret_key, create_new, create_store}

pub get_aws_secret_key_frame :
    (svc : S3Service) (txt : Texts) (ref : Option SecretKeySelector) (s : St S3Call S3Store)
    → let t = (get_aws_secret_key svc txt ref s).1 in (t.cr ≡ s.cr) × (t.events ≡ s.events)
unfolding get_aws_secret_key
get_aws_secret_key_frame svc txt none s = (refl, refl)
get_aws_secret_key_frame svc txt (some ref) s = ground arith

module _ (svc : S3Service) (txt : Texts) (s : St S3Call S3Store) where
  abbrev pub event_of : String → String → Event
  event_of reason message = record { kind = normal; reason = reason; message = message }

  -- Unless the GET answers that the store does not exist, `Create` calls nothing but that GET.
  pub create_no_overwrite :
      ((e : Err) → svc.get s.calls s.cr.for_provider.id ≡ err e → is_not_found (some e) ≡ false)
      → (create_store svc txt s).1.calls ≡ get s.cr.for_provider.id ∷ s.calls
  unfolding create_store
  create_no_overwrite h = elim (Result-cases (svc.get s.calls s.cr.for_provider.id)) [
    | inl (o, e) ↦ ground arith
    | inr (x, e) ↦ ground (arith, h x e)
  ]

  -- What a creation that returns no error has sent and left.
  pub record Created (t : St S3Call S3Store) : Type 0 where
    pub key : String
    pub before : List S3Call
    pub sent : t.calls ≡ create (to_sdk s.cr.for_provider key) ∷ before
    pub accepted : svc.create before (to_sdk s.cr.for_provider key) ≡ ok tt
    pub key_read :
        (get_aws_secret_key svc txt s.cr.for_provider.aws_secret_key_secret_ref
          (record s { calls = get s.cr.for_provider.id ∷ s.calls })).0
        ≡ ok key
    pub resource : t.cr ≡ set_external_name s.cr.for_provider.id s.cr
    pub recorded :
        t.events ≡ event_of txt.reason_created (txt.created <> s.cr.for_provider.id) ∷ s.events

  -- If the GET answers 404 and `Create` returns no error, its last call was a create with the
  -- object made from the spec and the secret's key, which the API accepted. The resource differs
  -- in its external name only, and the creation is recorded.
  pub create-Created :
      (e : Err)
      → svc.get s.calls s.cr.for_provider.id ≡ err e
      → is_not_found (some e) ≡ true
      → (create_store svc txt s).0 ≡ ok tt
      → Created (create_store svc txt s).1
  unfolding create_store create_new
  create-Created e missing h ok_lem =
      let s' : St S3Call S3Store = record s { calls = get s.cr.for_provider.id ∷ s.calls } in
      let ref = s.cr.for_provider.aws_secret_key_secret_ref in
      let frame = get_aws_secret_key_frame svc txt ref s' in
      elim (Result-cases (get_aws_secret_key svc txt ref s').0) [
        | inr (x, q) ↦ absurd (ground arith)
        | inl (key, q) ↦ record {
          key = key;
          before = (get_aws_secret_key svc txt ref s').1.calls;
          sent = ground arith;
          accepted = ground arith;
          key_read = q;
          resource = ground arith;
          recorded = ground arith;
        }
      ]

  -- If `Create` fails, the resource and the events are as before.
  pub create_failed :
      (e : Err)
      → (create_store svc txt s).0 ≡ err e
      → let t = (create_store svc txt s).1 in (t.cr ≡ s.cr) × (t.events ≡ s.events)
  unfolding create_store create_new
  create_failed e h =
      let s' : St S3Call S3Store = record s { calls = get s.cr.for_provider.id ∷ s.calls } in
      ground
        (arith, get_aws_secret_key_frame svc txt s.cr.for_provider.aws_secret_key_secret_ref s')

  -- A store that exists is adopted: the external name is its ID, the spec is late-initialised from
  -- the API, the adoption is recorded, and nothing is sent.
  pub create_adopts :
      (o : ApiStore)
      → svc.get s.calls s.cr.for_provider.id ≡ ok o
      → create_store svc txt s ≡ (
        ok tt,
        record {
          cr = record (set_external_name s.cr.for_provider.id s.cr) {
            for_provider = (late_init s.cr.for_provider o).0;
          };
          calls = get s.cr.for_provider.id ∷ s.calls;
          events = event_of txt.reason_adopted (txt.adopted <> s.cr.for_provider.id) ∷ s.events;
        },
      )
  unfolding create_store set_external_name
  create_adopts o h = ground arith
