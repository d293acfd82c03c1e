-- ===== src/Clients/Retry/Bounds.antt =====
-- The runs of the retry loop.
use opsmanager_crossplane_pr.Common.{
  ℕ, zero, suc, ◌-◌, ◌<◌, ℤ, pos, negsuc, ◌≡◌, refl, inl, inr, Bool, true, false, Option, arith,
  Bool-cases,
}
use opsmanager_crossplane_pr.Errors.{Err, is_s3_validation_conflict}
use opsmanager_crossplane_pr.Effects.{Action, St}
use opsmanager_crossplane_pr.Clients.Retry.{tries, attempts, retry_on_s3_validation}

module _ {Q C : Type 0} (wait : Action Q C Bool) (op : Action Q C (Option Err)) where
  -- `k` attempts in a row end in a validation conflict, each with its backoff passed.
  pub data Conflicts : ℕ → St Q C → St Q C → Type 0 where
    start : {s : St Q C} → Conflicts zero s s
    again :
        {k : ℕ} {s t : St Q C}
        → is_s3_validation_conflict (op s).0 ≡ true
        → (wait (op s).1).0 ≡ true
        → Conflicts k (wait (op s).1).1 t
        → Conflicts (suc k) s t

  -- How a run ends at its last attempt, which starts in `t` after `k` conflicts.
  pub data Ends (n : ℕ) (k : ℕ) (t : St Q C) : Option Err × St Q C → Type 0 where
    settled : is_s3_validation_conflict (op t).0 ≡ false → Ends n k t (op t)
    used_up : is_s3_validation_conflict (op t).0 ≡ true → suc k ≡ n → Ends n k t (op t)
    cancelled :
        is_s3_validation_conflict (op t).0 ≡ true
        → suc k < n
        → (wait (op t).1).0 ≡ false
        → Ends n k t ((op t).0, (wait (op t).1).1)

  pub attempts-settled :
      (left : ℕ) (s : St Q C)
      → is_s3_validation_conflict (op s).0 ≡ false
      → attempts wait op left s ≡ op s
  unfolding attempts
  attempts-settled zero s c = refl
  attempts-settled (suc left) s c = ground arith

  pub attempts-cancelled :
      (left : ℕ) (s : St Q C)
      → is_s3_validation_conflict (op s).0 ≡ true
      → (wait (op s).1).0 ≡ false
      → attempts wait op (suc left) s ≡ ((op s).0, (wait (op s).1).1)
  unfolding attempts
  attempts-cancelled left s c w = ground arith

  pub attempts-again :
      (left : ℕ) (s : St Q C)
      → is_s3_validation_conflict (op s).0 ≡ true
      → (wait (op s).1).0 ≡ true
      → attempts wait op (suc left) s ≡ attempts wait op left (wait (op s).1).1
  unfolding attempts
  attempts-again left s c w = ground arith

  Ends-later :
      {n k : ℕ} {t : St Q C} {r : Option Err × St Q C} → Ends n k t r → Ends (suc n) (suc k) t r
  Ends-later (settled c) = settled c
  Ends-later (used_up c e) = used_up c (omega arith)
  Ends-later (cancelled c l w) = cancelled c (omega arith) w

  abbrev pub Run : ℕ → St Q C → Option Err × St Q C → Type 0
  Run n s r = (k : ℕ) × (t : St Q C) × (k < n) × Conflicts k s t × Ends n k t r

  attempts-Run : (left : ℕ) (s : St Q C) → Run (suc left) s (attempts wait op left s)
  attempts-Run zero s = elim (Bool-cases (is_s3_validation_conflict (op s).0)) [
    | inl c ↦ (0, s, omega arith, start, unfold attempts in used_up c refl)
    | inr c ↦ (0, s, omega arith, start, unfold attempts in settled c)
  ]
  attempts-Run (suc left) s = elim (Bool-cases (is_s3_validation_conflict (op s).0)) [
    | inr c ↦ (0, s, omega arith, start, rw (attempts-settled (suc left) s c) (settled c))
    | inl c ↦ elim (Bool-cases (wait (op s).1).0) [
      | inr w ↦ (
        0,
        s,
        omega arith,
        start,
        rw (attempts-cancelled left s c w) (cancelled c (omega arith) w),
      )
      | inl w ↦
          let (k, t, l, conflicts, ends) = attempts-Run left (wait (op s).1).1 in
          (
            suc k,
            t,
            omega arith,
            again c w conflicts,
            rw (attempts-again left s c w) (Ends-later ends),
          )
    ]
  ]

  tries-suc : (n : ℤ) → suc (tries n - 1) ≡ tries n
  unfolding tries
  tries-suc (negsuc n) = refl
  tries-suc (pos zero) = refl
  tries-suc (pos (suc n)) = omega arith

  -- A call of the retry makes fewer than `tries max_attempts` attempts that end in a validation
  -- conflict and whose backoff passes, and then one more. It returns what that attempt returns,
  -- and stops there since that is no validation conflict, or the tries are used up, or the context
  -- was done during the backoff.
  pub retry-Run :
      (max_attempts : ℤ) (s : St Q C)
      → Run (tries max_attempts) s (retry_on_s3_validation wait op max_attempts s)
  unfolding retry_on_s3_validation
  retry-Run n s = rw (tries-suc n) at (attempts-Run (tries n - 1) s)
