-- ===== src/Clients/Retry/Rule.antt =====
-- A rule for what a retry leaves: an invariant between the attempts, and a statement of each end.
use opsmanager_crossplane_pr.Common.{ℕ, zero, suc, ◌≡◌, ℤ, Bool, true, Option, Bool-cases, inl, inr}
use opsmanager_crossplane_pr.Errors.{Err, is_s3_validation_conflict}
use opsmanager_crossplane_pr.Effects.{Action, St}
use opsmanager_crossplane_pr.Clients.Retry.{attempts, retry_on_s3_validation}
use opsmanager_crossplane_pr.Clients.Retry.Bounds.{
  attempts-settled, attempts-cancelled, attempts-again,
}

module _ {Q C : Type 0} (wait : Action Q C Bool) (op : Action Q C (Option Err))
    (I : St Q C → Type 0) (P : Option Err × St Q C → Type 0)
    (next : (t : St Q C) → I t → I (wait (op t).1).1) (ends : (t : St Q C) → I t → P (op t))
    (stops : (t : St Q C)
      → I t
      → is_s3_validation_conflict (op t).0 ≡ true
      → P ((op t).0, (wait (op t).1).1)) where
  attempts_rule : (left : ℕ) (s : St Q C) → I s → P (attempts wait op left s)
  attempts_rule zero s i = unfold attempts in ends s i
  attempts_rule (suc left) s i = elim (Bool-cases (is_s3_validation_conflict (op s).0)) [
    | inr c ↦ rw (attempts-settled wait op (suc left) s c) (ends s i)
    | inl c ↦ elim (Bool-cases (wait (op s).1).0) [
      | inr w ↦ rw (attempts-cancelled wait op left s c w) (stops s i c)
      | inl w ↦
          rw (attempts-again wait op left s c w) (attempts_rule left (wait (op s).1).1 (next s i))
    ]
  ]

  pub retry_rule :
      (max_attempts : ℤ) (s : St Q C) → I s → P (retry_on_s3_validation wait op max_attempts s)
  unfolding retry_on_s3_validation
  retry_rule n s i = attempts_rule _ s i
