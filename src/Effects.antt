-- ===== src/Effects.antt =====
-- How a handler runs: it reads and writes its custom resource, calls the Ops Manager API and the
-- cluster, records events, and returns a value or an error.
use opsmanager_crossplane_pr.Common.{
  ◌≡◌, refl, ap, ◌⊎◌, inl, inr, Option, none, some, List, ◌∷◌, String, arith,
}
use opsmanager_crossplane_pr.Errors.{Err, wrap}

pub data Result (A : Type 0) : Type 0 where
  ok : A → Result A
  err : Err → Result A

pub Result-cases : {A : Type 0} (r : Result A) → ((a : A) × (r ≡ ok a)) ⊎ ((e : Err) × (r ≡ err e))
Result-cases (ok a) = inl (a, refl)
Result-cases (err e) = inr (e, refl)

-- `err`, as the second value of a Go call.
abbrev pub error_of : {A : Type 0} → Result A → Option Err
error_of (ok a) = none
error_of (err e) = some e

pub data EventKind : Type 0 where
  normal warning : EventKind

pub record Event : Type 0 where
  pub kind : EventKind
  pub reason : String
  pub message : String

-- `Q` is the type of the calls that leave the provider. Both lists have the newest entry first.
pub record St (Q C : Type 0) : Type 0 where
  pub cr : C
  pub calls : List Q
  pub events : List Event

-- What always returns, and what may return an error.
abbrev pub Action : Type 0 → Type 0 → Type 0 → Type 0
Action Q C A = St Q C → A × St Q C

abbrev pub M : Type 0 → Type 0 → Type 0 → Type 0
M Q C A = St Q C → Result A × St Q C

module _ {Q C : Type 0} where
  infixl 5 ◌>>=◌ ◌>>◌
  abbrev pub ◌>>=◌ : {A B : Type 0} → M Q C A → (A → M Q C B) → M Q C B
  ◌>>=◌ m f s = let (r, t) = m s in elim r [ ok a ↦ f a t | err e ↦ (err e, t) ]

  abbrev pub ◌>>◌ : {B : Type 0} → M Q C (Unit {0}) → M Q C B → M Q C B
  m >> k = m >>= λ _. k

  abbrev pub return : {A : Type 0} → A → M Q C A
  return a s = (ok a, s)

  abbrev pub fail : {A : Type 0} → Err → M Q C A
  fail e s = (err e, s)

  -- `if err != nil { return …, errors.Wrap(err, m) }`
  abbrev pub or_wrap : {A : Type 0} → String → Result A → M Q C A
  or_wrap m (ok a) = return a
  or_wrap m (err e) = fail (wrap m e)

  -- The same, where the call is a handler of its own.
  abbrev pub wrapping : {A : Type 0} → String → M Q C A → M Q C A
  wrapping m f s = let (r, t) = f s in or_wrap m r t

  abbrev pub wrap_error : String → Option Err → M Q C (Unit {0})
  wrap_error m none = return tt
  wrap_error m (some e) = fail (wrap m e)

  -- A call whose answer may depend on all that was called before.
  abbrev pub ask : {A : Type 0} → Q → (List Q → A) → Action Q C A
  ask q answer s = (answer s.calls, record s { calls = q ∷ s.calls })

  abbrev pub lift : {A : Type 0} → Action Q C A → M Q C A
  lift m s = let (a, t) = m s in (ok a, t)

  abbrev pub call : {A : Type 0} → Q → (List Q → A) → M Q C A
  call q answer = lift (ask q answer)

  abbrev pub resource : M Q C C
  resource s = (ok s.cr, s)

  abbrev pub modify : (C → C) → M Q C (Unit {0})
  modify f s = (ok tt, record s { cr = f s.cr })

  abbrev pub emit : EventKind → String → String → M Q C (Unit {0})
  emit k reason message s = (
    ok tt,
    record s { events = record { kind = k; reason = reason; message = message } ∷ s.events },
  )

  -- A handler that returns a value has passed each of its steps.
  pub >>=-ok :
      {A B : Type 0} (m : M Q C A) (f : A → M Q C B) (s : St Q C) {b : B}
      → ((m >>= f) s).0 ≡ ok b
      → (a : A) × ((m s).0 ≡ ok a) × ((f a (m s).1).0 ≡ ok b)
  >>=-ok m f s h = elim (Result-cases (m s).0) [
    | inl (a, e) ↦ (a, e, ground arith)
    | inr (e, q) ↦ absurd (ground arith)
  ]

  pub or_wrap-ok :
      {A : Type 0} (m : String) (r : Result A) (s : St Q C) {a : A}
      → (or_wrap m r s).0 ≡ ok a
      → r ≡ ok a
  or_wrap-ok m (ok a) s h = h
  or_wrap-ok m (err e) s h = cc

  pub wrapping-ok :
      {A : Type 0} (m : String) (f : M Q C A) (s : St Q C) {a : A}
      → (wrapping m f s).0 ≡ ok a
      → (f s).0 ≡ ok a
  wrapping-ok m f s h = or_wrap-ok m (f s).0 (f s).1 h

  -- The second of two handlers runs where the first left off, if that returned no error.
  pub then_ok :
      {B : Type 0} (m : M Q C (Unit {0})) (k : M Q C B) (s : St Q C) {a : Unit {0}} {t : St Q C}
      → m s ≡ (ok a, t)
      → (m >> k) s ≡ k t
  then_ok m k s h =
      ap (λ (x : Result (Unit {0}) × St Q C). elim x.0 [ ok a ↦ k x.1 | err e ↦ (err e, x.1) ]) h

  pub then_err :
      {B : Type 0} (m : M Q C (Unit {0})) (k : M Q C B) (s : St Q C) {e : Err} {t : St Q C}
      → m s ≡ (err e, t)
      → (m >> k) s ≡ (err e, t)
  then_err m k s h =
      ap (λ (x : Result (Unit {0}) × St Q C). elim x.0 [ ok a ↦ k x.1 | err e ↦ (err e, x.1) ]) h

  -- The value and the state of a handler, from those of its value alone.
  pub with_state :
      {B : Type 0} (m : M Q C B) (s : St Q C) {r : Result B} → (m s).0 ≡ r → m s ≡ (r, (m s).1)
  with_state m s h = λ i. (h i, (m s).1)
