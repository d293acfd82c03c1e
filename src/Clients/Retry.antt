-- ===== src/Clients/Retry.antt =====
-- internal/clients/retry.go, `RetryOnS3Validation`.
pub mod Bounds
pub mod Rule
use opsmanager_crossplane_pr.Common.{ℕ, zero, suc, ◌-◌, ℤ, pos, negsuc, Bool, true, false, Option}
use opsmanager_crossplane_pr.Errors.{Err, is_s3_validation_conflict}
use opsmanager_crossplane_pr.Effects.{Action, St}

-- The total number of tries: `maxAttempts`, but at least 1.
unfoldable pub tries : ℤ → ℕ
tries (negsuc n) = 1
tries (pos zero) = 1
tries (pos (suc n)) = suc n

module _ {Q C : Type 0} (wait : Action Q C Bool) (op : Action Q C (Option Err)) where
  -- The loop, at an attempt after which `left` more are allowed. `wait` is the `select`: it gives
  -- true if the backoff passed, and false if the context was done.
  unfoldable pub attempts : ℕ → Action Q C (Option Err)
  attempts zero s = op s
  attempts (suc left) s =
      let (e, t) = op s in
      let (elapsed, u) = wait t in
      let again = attempts left u in
      elim (is_s3_validation_conflict e) [
        | false ↦ (e, t)
        | true ↦ elim elapsed [ true ↦ again | false ↦ (e, u) ]
      ]

  unfoldable pub retry_on_s3_validation : ℤ → Action Q C (Option Err)
  unfolding attempts tries
  retry_on_s3_validation max_attempts = attempts (tries max_attempts - 1)
