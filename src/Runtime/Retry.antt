-- ===== src/Runtime/Retry.antt =====
-- Retrying a call with a backoff (runtime/src/retry.rs). The backoff is another crate's: each
-- attempt comes with the call's result and with whether `next_backoff` gave a time to wait.
pub mod Laws
mod Tests
use interbtc_clients.Prelude.{ℕ, suc, Bool, List, [], ◌∷◌, Result, ok, err, if◌then◌else◌}
use interbtc_clients.Runtime.Errors.{RuntimeError, timeout}

pub data RetryPolicy {ℓ} (E : Type ℓ) : Type ℓ where
  skip throw : E → RetryPolicy E

-- One round of the loop: what `call` returned, and whether there is another wait.
pub record Attempt {ℓ} (T E : Type ℓ) : Type ℓ where
  pub result : Result T E
  pub next_backoff : Bool

-- Where the loop stands after the attempts of a list: `waiting` if it would go on.
pub data Retried {ℓ} (T : Type ℓ) : Type ℓ where
  returned : Result T RuntimeError → Retried T
  waiting : Retried T

module _ {ℓ} {T E : Type ℓ} where
  -- With the number of calls made.
  pub notify_retry :
      (Result T E → Result T (RetryPolicy RuntimeError)) → List (Attempt T E) → Retried T × ℕ
  notify_retry verify [] = (waiting, 0)
  notify_retry verify (a ∷ rest) =
      let later : Retried T × ℕ = notify_retry verify rest in
      elim (verify a.result) [
        | ok t ↦ (returned (ok t), 1)
        | err (throw e) ↦ (returned (err e), 1)
        | err (skip e) ↦
            if a.next_backoff then (later.0, suc later.1) else (returned (err timeout), 1)
      ]
