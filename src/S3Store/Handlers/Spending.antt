-- ===== src/S3Store/Handlers/Spending.antt =====
-- How many updates `Update` and `Delete` send, and how long they back off.
use opsmanager_crossplane_pr.Common.{
  ℕ, zero, suc, ◌+◌, ◌≤◌, ◌≡◌, refl, true, false, List, [], ◌∷◌, Option, none, some, String, arith,
  Bool, Bool-cases, inl, inr, pos,
}
use Prim.Native.Nat.{◌*◌}
use opsmanager_crossplane_pr.Errors.{Err, is_s3_validation_conflict}
use opsmanager_crossplane_pr.Effects.{Result-cases, wrap_error, St}
use opsmanager_crossplane_pr.Managed.{SecretKeySelector}
use opsmanager_crossplane_pr.Clients.Retry.{tries, attempts, retry_on_s3_validation}
use opsmanager_crossplane_pr.Clients.Retry.Bounds.{
  attempts-settled, attempts-cancelled, attempts-again,
}
use opsmanager_crossplane_pr.S3Store.{
  S3Store, ApiStore, S3Call, get, update, delete, sleep, S3Service, Texts,
}
use opsmanager_crossplane_pr.S3Store.Convert.{to_sdk}
use opsmanager_crossplane_pr.S3Store.Handlers.{
  wait, try_update, update_retried, get_aws_secret_key, update_store, deleted, disabled,
  disable_assignment, delete_found, delete_store,
}

unfoldable pub updates : List S3Call → ℕ
updates [] = 0
updates (update id o ∷ h) = suc (updates h)
updates (c ∷ h) = updates h

-- The seconds of all backoffs that were begun.
unfoldable pub slept : List S3Call → ℕ
slept [] = 0
slept (sleep n ∷ h) = n + slept h
slept (c ∷ h) = slept h

-- From `s` to `t`, at most `n` updates were sent, and at most `m` seconds were spent in backoffs.
pub record Spends (n m : ℕ) (s t : St S3Call S3Store) : Type 0 where
  pub sent : updates t.calls ≤ n + updates s.calls
  pub backed_off : slept t.calls ≤ m + slept s.calls

Spends-later :
    {n m k l : ℕ} {s t u : St S3Call S3Store}
    → Spends n m s t
    → Spends k l t u
    → Spends (n + k) (m + l) s u
Spends-later a b = record {
  sent = omega (arith, a.sent, b.sent);
  backed_off = omega (arith, a.backed_off, b.backed_off);
}

Spends-self : (s : St S3Call S3Store) → Spends 0 0 s s
Spends-self s = record { sent = omega arith; backed_off = omega arith }

Spends-at_most :
    {n m k l : ℕ} {s t : St S3Call S3Store} → Spends n m s t → n ≤ k → m ≤ l → Spends k l s t
Spends-at_most a p q = record {
  sent = omega (arith, a.sent, p);
  backed_off = omega (arith, a.backed_off, q);
}

wrap_error_state : (m : String) (e : Option Err) (s : St S3Call S3Store) → (wrap_error m e s).1 ≡ s
wrap_error_state m none s = refl
wrap_error_state m (some e) s = refl

module _ (svc : S3Service) (txt : Texts) where
  module _ (id : String) (bs : ApiStore) where
    attempts-Spends :
        (left : ℕ) (s : St S3Call S3Store)
        → Spends
            (suc left)
            (left * 5)
            s
            (attempts (wait svc txt) (try_update svc txt id bs) left s).1
    unfolding attempts updates slept
    attempts-Spends zero s = record { sent = omega arith; backed_off = omega arith }
    attempts-Spends (suc left) s =
        let op = try_update svc txt id bs in
        let t = (op s).1 in
        elim (Bool-cases (is_s3_validation_conflict (op s).0)) [
          | inr c ↦
              rw (attempts-settled (wait svc txt) op (suc left) s c)
                (record { sent = omega arith; backed_off = omega arith })
          | inl c ↦ elim (Bool-cases (wait svc txt t).0) [
            | inr w ↦
                rw (attempts-cancelled (wait svc txt) op left s c w)
                  (record { sent = omega arith; backed_off = omega arith })
            | inl w ↦
                let rest = attempts-Spends left (wait svc txt t).1 in
                rw (attempts-again (wait svc txt) op left s c w) (record {
                  sent = omega (arith, rest.sent);
                  backed_off = omega (arith, rest.backed_off);
                })
          ]
        ]

    retry-Spends :
        (s : St S3Call S3Store)
        → Spends 3 10 s
            (retry_on_s3_validation (wait svc txt) (try_update svc txt id bs) (pos 3) s).1
    unfolding retry_on_s3_validation tries
    retry-Spends s = attempts-Spends 2 s

    update_retried-Spends :
        (s : St S3Call S3Store) → Spends 3 10 s (update_retried svc txt id bs s).1
    unfolding update_retried
    update_retried-Spends s =
        let r = retry_on_s3_validation (wait svc txt) (try_update svc txt id bs) (pos 3) s in
        rw (wrap_error_state txt.err_update r.0 r.1) (retry-Spends s)

  get_aws_secret_key-Spends :
      (ref : Option SecretKeySelector) (s : St S3Call S3Store)
      → Spends 0 0 s (get_aws_secret_key svc txt ref s).1
  unfolding get_aws_secret_key updates slept
  get_aws_secret_key-Spends none s = record { sent = omega arith; backed_off = omega arith }
  get_aws_secret_key-Spends (some ref) s = record { sent = ground arith; backed_off = ground arith }

  -- `Update` sends at most 3 updates, and backs off for at most 10 seconds.
  pub update_store-Spends : (s : St S3Call S3Store) → Spends 3 10 s (update_store svc txt s).1
  unfolding update_store
  update_store-Spends s =
      let p = s.cr.for_provider in
      let ref = p.aws_secret_key_secret_ref in
      let u = (get_aws_secret_key svc txt ref s).1 in
      let first = get_aws_secret_key-Spends ref s in
      elim (Result-cases (get_aws_secret_key svc txt ref s).0) [
        | inr (x, q) ↦
            let same : (update_store svc txt s).1 ≡ u = ground arith in
            rw same (Spends-at_most first (omega arith) (omega arith))
        | inl (key, q) ↦
            let same : (update_store svc txt s).1
                ≡ (update_retried svc txt p.id (to_sdk p key) u).1 =
              ground arith in
            rw same (Spends-later first (update_retried-Spends p.id (to_sdk p key) u))
      ]

  disable_assignment-Spends :
      (id : String) (o : ApiStore) (enabled : Option Bool) (s : St S3Call S3Store)
      → Spends 3 10 s (disable_assignment svc txt id o enabled s).1
  unfolding disable_assignment
  disable_assignment-Spends id o none s = Spends-at_most (Spends-self s) (omega arith) (omega arith)
  disable_assignment-Spends id o (some false) s =
      Spends-at_most (Spends-self s) (omega arith) (omega arith)
  disable_assignment-Spends id o (some true) s = update_retried-Spends id (disabled o) s

  deleted-Spends :
      (id : String) (s : St S3Call S3Store)
      → let t = record s { calls = delete id ∷ s.calls } in
        Spends 0 0 s (deleted svc txt id (svc.delete s.calls id) t).1
  unfolding deleted updates slept
  deleted-Spends id s = elim (Result-cases (svc.delete s.calls id)) [
    | inl (a, q) ↦ record { sent = ground arith; backed_off = ground arith }
    | inr (e, q) ↦ record { sent = ground arith; backed_off = ground arith }
  ]

  -- `Delete` sends at most 3 updates, and backs off for at most 10 seconds.
  pub delete_store-Spends : (s : St S3Call S3Store) → Spends 3 10 s (delete_store svc txt s).1
  unfolding delete_store delete_found updates slept
  delete_store-Spends s =
      let id = s.cr.for_provider.id in
      let s' : St S3Call S3Store = record s { calls = get id ∷ s.calls } in
      let first : Spends 0 0 s s' = record { sent = omega arith; backed_off = omega arith } in
      elim (Result-cases (svc.get s.calls id)) [
        | inr (e, q) ↦
            let same : (delete_store svc txt s).1 ≡ s' = ground arith in
            rw same (Spends-at_most first (omega arith) (omega arith))
        | inl (o, q) ↦
            let m = disable_assignment svc txt id o o.assignment_enabled in
            let u = (m s').1 in
            let second = disable_assignment-Spends id o o.assignment_enabled s' in
            elim (Result-cases (m s').0) [
              | inr (x, w) ↦
                  let same : (delete_store svc txt s).1 ≡ u = ground arith in
                  rw same (Spends-later first second)
              | inl (a, w) ↦
                  let last = record u { calls = delete id ∷ u.calls } in
                  let same : (delete_store svc txt s).1
                      ≡ (deleted svc txt id (svc.delete u.calls id) last).1 =
                    ground arith in
                  rw same (Spends-later (Spends-later first second) (deleted-Spends id u))
            ]
      ]

  -- `Update` and `Delete` each send at most 3 updates, and back off for at most 10 seconds, whatever
  -- the API answers.
  pub methods-Spends :
      (s : St S3Call S3Store)
      → Spends 3 10 s (update_store svc txt s).1 × Spends 3 10 s (delete_store svc txt s).1
  methods-Spends s = (update_store-Spends s, delete_store-Spends s)
