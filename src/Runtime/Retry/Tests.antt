-- ===== src/Runtime/Retry/Tests.antt =====
-- The theorem on the retries, for one failed attempt and a second one (runtime/src/retry.rs).
use interbtc_clients.Prelude.{ℕ, ◌≡◌, refl, true, false, Bool, [], ◌∷◌, Result, ok, err}
use interbtc_clients.Runtime.Errors.{RuntimeError, channel_closed, timeout}
use interbtc_clients.Runtime.Retry.{RetryPolicy, skip, throw, Attempt, returned, notify_retry}
use interbtc_clients.Runtime.Retry.Laws.{notify_retry_ends}

-- Every error is worth another attempt.
verify : Result ℕ RuntimeError → Result ℕ (RetryPolicy RuntimeError)
verify (ok n) = ok n
verify (err e) = err (skip e)

abbrev attempt : Result ℕ RuntimeError → Bool → Attempt ℕ RuntimeError
attempt r b = record { result = r; next_backoff = b }

notify_retry_ends_example :
    ((t : ℕ)
      → verify (ok 3) ≡ ok t
      → notify_retry verify (attempt (err channel_closed) true ∷ attempt (ok 3) true ∷ [])
        ≡ (returned (ok t), 2))
    × ((e : RuntimeError)
        → verify (ok 3) ≡ err (throw e)
        → notify_retry verify (attempt (err channel_closed) true ∷ attempt (ok 3) true ∷ [])
          ≡ (returned (err e), 2))
    × ((e : RuntimeError)
        → verify (ok 3) ≡ err (skip e)
        → true ≡ false
        → notify_retry verify (attempt (err channel_closed) true ∷ attempt (ok 3) true ∷ [])
          ≡ (returned (err timeout), 2))
unfolding verify
notify_retry_ends_example =
    notify_retry_ends verify (attempt (err channel_closed) true ∷ []) (attempt (ok 3) true) []
      ((channel_closed, refl, refl), tt)
