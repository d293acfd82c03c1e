-- ===== src/S3Store/Handlers/Observing.antt =====
-- What `Observe` leaves in the resource, once and on later calls.
use opsmanager_crossplane_pr.Common.{
  ◌≡◌, refl, ◌∙◌, ap, sym, Bool, true, false, List, [], ◌∷◌, Option, none, some, String, elements,
  lookup, lookup-insert, insert-lookup, string_eq, if◌then◌else◌, arith, Bool-cases, inl, inr,
}
use mathlib.Core.Bool.{cond}
use opsmanager_crossplane_pr.Errors.{is_not_found, wrap}
use opsmanager_crossplane_pr.Effects.{ok, err, St}
use opsmanager_crossplane_pr.Managed.{absent, external_name_key}
use opsmanager_crossplane_pr.Labels.{labels_adopted, adopted_labels}
use opsmanager_crossplane_pr.S3Store.{
  S3StoreParameters, S3Store, ApiStore, S3Call, get, S3Service, Texts,
}
use opsmanager_crossplane_pr.S3Store.Convert.{late_init}
use opsmanager_crossplane_pr.S3Store.LateInit.{late_init_idem, unchanged-late_init}
use opsmanager_crossplane_pr.S3Store.Handlers.{
  adopt_labels, take_over, observed_cr, observation, observe,
}

-- `Observe` makes one call, the GET. It then takes the answer over; reports that the store is
-- absent if the answer is a 404; or fails, the last two with the resource untouched.
pub observe_lem :
    (svc : S3Service) (txt : Texts) (s : St S3Call S3Store)
    → let id = s.cr.for_provider.id in
      let called = record s { calls = get id ∷ s.calls } in
      observe svc txt s ≡ elim (svc.get s.calls id) [
        | ok o ↦ (ok (observation o s.cr), record called { cr = observed_cr o s.cr })
        | err e ↦ (if is_not_found (some e) then ok absent else err (wrap txt.err_get e), called)
      ]
unfolding observe
observe_lem svc txt s = ground arith

labels_adopted-take_over :
    (o : ApiStore) (cr : S3Store) → labels_adopted (take_over o cr) ≡ labels_adopted cr
unfolding labels_adopted take_over string_eq
labels_adopted-take_over o cr = rw lookup-insert

labels_adopted-adopt_labels :
    (o : ApiStore) (cr : S3Store) → labels_adopted (adopt_labels o cr) ≡ true
unfolding labels_adopted adopt_labels string_eq
labels_adopted-adopt_labels o cr = rw lookup-insert

-- After `Observe` the labels count as adopted.
pub labels_adopted-observed_cr :
    (o : ApiStore) (cr : S3Store) → labels_adopted (observed_cr o cr) ≡ true
unfolding observed_cr
labels_adopted-observed_cr o cr = ground (arith, labels_adopted-adopt_labels o (take_over o cr))

labels-take_over :
    (o : ApiStore) (cr : S3Store) → (take_over o cr).for_provider.labels ≡ cr.for_provider.labels
unfolding take_over
labels-take_over o cr = refl

-- Labels that were adopted before stay as the spec has them.
pub labels-observed_cr :
    (o : ApiStore) (cr : S3Store)
    → labels_adopted cr ≡ true
    → (observed_cr o cr).for_provider.labels ≡ cr.for_provider.labels
unfolding observed_cr
labels-observed_cr o cr h = ground (arith, labels_adopted-take_over o cr, labels-take_over o cr)

-- The resource after a row of successful observations, with these answers.
pub observed_all : List ApiStore → S3Store → S3Store
observed_all [] cr = cr
observed_all (o ∷ os) cr = observed_all os (observed_cr o cr)

labels-observed_all :
    (os : List ApiStore) (cr : S3Store)
    → labels_adopted cr ≡ true
    → (observed_all os cr).for_provider.labels ≡ cr.for_provider.labels
unfolding observed_all
labels-observed_all [] cr h = refl
labels-observed_all (o ∷ os) cr h =
    labels-observed_all os (observed_cr o cr) (labels_adopted-observed_cr o cr)
    ∙ labels-observed_cr o cr h

labels_first :
    (o : ApiStore) (cr : S3Store)
    → labels_adopted cr ≡ false
    → (observed_cr o cr).for_provider.labels ≡ adopted_labels cr.for_provider.labels o.labels
unfolding observed_cr
labels_first o cr h =
    rw ((labels_adopted-take_over o cr ∙ h), cond) (unfold adopt_labels take_over in refl)

-- The labels that a resource ends up with: its own, if it sets any, and otherwise those of the API, if
-- that has any.
pub record Adopted (own observed left : Option (List String)) : Type 0 where
  pub kept : (ls : List String) → own ≡ some ls → left ≡ some ls
  pub taken :
      (l : String) (ls : List String) → own ≡ none → observed ≡ some (l ∷ ls) → left ≡ some (l ∷ ls)
  pub left_unset : own ≡ none → elements observed ≡ [] → left ≡ none

adopted_labels-Adopted :
    (own observed : Option (List String)) → Adopted own observed (adopted_labels own observed)
unfolding adopted_labels
adopted_labels-Adopted own observed = record {
  kept = λ ls e. ground arith;
  taken = λ l ls e o. ground arith;
  left_unset = λ e o. ground arith;
}

-- Labels that are not marked as adopted are adopted once: after a first observation they are the
-- spec's, or the API's if the spec sets none and the API has some, and no later observation changes
-- them, whatever the API answers.
pub labels_adopted_once :
    (o : ApiStore) (os : List ApiStore) (cr : S3Store)
    → labels_adopted cr ≡ false
    → Adopted cr.for_provider.labels o.labels (observed_all (o ∷ os) cr).for_provider.labels
unfolding observed_all
labels_adopted_once o os cr h =
    rw
      (
        labels-observed_all os (observed_cr o cr) (labels_adopted-observed_cr o cr),
        labels_first o cr h,
      )
      (adopted_labels-Adopted cr.for_provider.labels o.labels)

-- The resource has all that `take_over` would write.
record IsTaken (o : ApiStore) (cr : S3Store) : Type 0 where
  used_size : cr.at_provider.used_size ≡ o.used_size
  ready : cr.ready ≡ true
  named : lookup external_name_key cr.annotations ≡ some cr.for_provider.id
  filled : (late_init cr.for_provider o).0 ≡ cr.for_provider

take_over_fixed : (o : ApiStore) (cr : S3Store) → IsTaken o cr → take_over o cr ≡ cr
unfolding take_over
take_over_fixed o cr t = λ i. record {
  annotations = insert-lookup external_name_key cr.for_provider.id cr.annotations t.named i;
  deleted = cr.deleted;
  ready = sym t.ready i;
  provider_config_ref = cr.provider_config_ref;
  for_provider = t.filled i;
  at_provider = record { used_size = sym t.used_size i };
}

take_over-IsTaken : (o : ApiStore) (cr : S3Store) → IsTaken o (take_over o cr)
unfolding take_over
take_over-IsTaken o cr = record {
  used_size = refl;
  ready = refl;
  named = rw lookup-insert (unfold string_eq in refl);
  filled =
      unfold late_init in
      ap (λ (r : S3StoreParameters × Bool). r.0) (late_init_idem cr.for_provider o);
}

adopt_labels-IsTaken : (o : ApiStore) (cr : S3Store) → IsTaken o cr → IsTaken o (adopt_labels o cr)
unfolding adopt_labels string_eq late_init
adopt_labels-IsTaken o cr t = record {
  used_size = t.used_size;
  ready = t.ready;
  named = rw lookup-insert t.named;
  filled =
      let p = cr.for_provider in
      ap (λ (q : S3StoreParameters). record q { labels = adopted_labels p.labels o.labels })
        t.filled;
}

observed_cr-IsTaken : (o : ApiStore) (cr : S3Store) → IsTaken o (observed_cr o cr)
unfolding observed_cr
observed_cr-IsTaken o cr = elim (Bool-cases (labels_adopted (take_over o cr))) [
  | inl a ↦ rw (a, cond) (take_over-IsTaken o cr)
  | inr a ↦ rw (a, cond) (adopt_labels-IsTaken o (take_over o cr) (take_over-IsTaken o cr))
]

observed_cr_idem :
    (o : ApiStore) (cr : S3Store) → observed_cr o (observed_cr o cr) ≡ observed_cr o cr
observed_cr_idem o cr =
    let c = observed_cr o cr in
    let fixed = take_over_fixed o c (observed_cr-IsTaken o cr) in
    let adopted : labels_adopted (take_over o c) ≡ true =
      ap labels_adopted fixed ∙ labels_adopted-observed_cr o cr in
    observed_cr_of_adopted o c adopted ∙ fixed
  where
    observed_cr_of_adopted :
        (o : ApiStore) (c : S3Store)
        → labels_adopted (take_over o c) ≡ true
        → observed_cr o c ≡ take_over o c
    observed_cr_of_adopted o c a = unfold observed_cr in rw (a, cond)

observation_again :
    (o : ApiStore) (cr : S3Store)
    → observation o (observed_cr o cr)
      ≡ record (observation o cr) { resource_late_initialized = false }
unfolding observation
observation_again o cr =
    let c = observed_cr o cr in
    let taken = observed_cr-IsTaken o cr in
    let adopted : labels_adopted (take_over o c) ≡ true =
      ap labels_adopted (take_over_fixed o c taken) ∙ labels_adopted-observed_cr o cr in
    ground
      (arith, adopted, observed_cr_idem o cr, unchanged-late_init c.for_provider o taken.filled)

id-observed_cr :
    (o : ApiStore) (cr : S3Store) → (observed_cr o cr).for_provider.id ≡ cr.for_provider.id
unfolding observed_cr take_over adopt_labels late_init
id-observed_cr o cr = ground arith

abbrev pub observed_state : St S3Call S3Store → ApiStore → St S3Call S3Store
observed_state s o = record s {
  cr = observed_cr o s.cr;
  calls = get s.cr.for_provider.id ∷ s.calls;
}

-- What `Observe` returns and leaves once the GET has found the store.
pub observe_at :
    (svc : S3Service) (txt : Texts) (s : St S3Call S3Store) (o : ApiStore)
    → svc.get s.calls s.cr.for_provider.id ≡ ok o
    → observe svc txt s ≡ (ok (observation o s.cr), observed_state s o)
unfolding observe
observe_at svc txt s o h = ground arith

-- A second `Observe` that gets the same answer changes nothing in the resource, reports no late
-- initialisation, and otherwise reports what the first did.
pub observe_settles :
    (svc : S3Service) (txt : Texts) (s : St S3Call S3Store) (o : ApiStore)
    → svc.get s.calls s.cr.for_provider.id ≡ ok o
    → svc.get (get s.cr.for_provider.id ∷ s.calls) s.cr.for_provider.id ≡ ok o
    → let t = (observe svc txt s).1 in
      observe svc txt t ≡ (
        ok (record (observation o s.cr) { resource_late_initialized = false }),
        record t { calls = get s.cr.for_provider.id ∷ t.calls },
      )
observe_settles svc txt s o first second = rw (observe_at svc txt s o first) (
    ground (
      arith,
      id-observed_cr o s.cr,
      observe_at svc txt (observed_state s o) o (rw (id-observed_cr o s.cr) second),
      observation_again o s.cr,
      observed_cr_idem o s.cr,
    ))
