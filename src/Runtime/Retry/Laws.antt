-- ===== src/Runtime/Retry/Laws.antt =====
-- When `notify_retry` goes on and how it ends (runtime/src/retry.rs).
use interbtc_clients.Prelude.{
  ◌+◌, ◌≡◌, true, false, List, [], ◌∷◌, ◌++◌, Result, ok, err, All, length, arith,
}
use interbtc_clients.Runtime.Errors.{RuntimeError, timeout}
use interbtc_clients.Runtime.Retry.{RetryPolicy, skip, throw, Attempt, returned, notify_retry}

module _ {ℓ} {T E : Type ℓ} (verify : Result T E → Result T (RetryPolicy RuntimeError)) where
  -- The call failed in a way that is skipped, and the backoff went on.
  abbrev pub IsSkipped : Attempt T E → Type ℓ
  IsSkipped a = (e : RuntimeError) × (verify a.result ≡ err (skip e)) × (a.next_backoff ≡ true)

  -- After skipped attempts the loop stands where it stands after the attempts that follow, with
  -- one call more for each of them.
  pub notify_retry-append :
      (before after : List (Attempt T E))
      → All IsSkipped before
      → notify_retry verify (before ++ after)
        ≡ ((notify_retry verify after).0, length before + (notify_retry verify after).1)
  unfolding notify_retry
  notify_retry-append [] after h = ground arith
  notify_retry-append (a ∷ before) after ((e, p, q), h) =
      ground (arith, p, q, notify_retry-append before after h)

  -- After skipped attempts, the loop ends at the first that succeeds, that throws, or that is
  -- skipped when the backoff has run out, with the result, the error, or a timeout.
  pub notify_retry_ends :
      (before : List (Attempt T E)) (a : Attempt T E) (after : List (Attempt T E))
      → All IsSkipped before
      → ((t : T)
          → verify a.result ≡ ok t
          → notify_retry verify (before ++ a ∷ after) ≡ (returned (ok t), length before + 1))
        × ((e : RuntimeError)
            → verify a.result ≡ err (throw e)
            → notify_retry verify (before ++ a ∷ after) ≡ (returned (err e), length before + 1))
        × ((e : RuntimeError)
            → verify a.result ≡ err (skip e)
            → a.next_backoff ≡ false
            → notify_retry verify (before ++ a ∷ after)
              ≡ (returned (err timeout), length before + 1))
  unfolding notify_retry
  notify_retry_ends before a after h = (
    λ t p. ground (arith, p, notify_retry-append before (a ∷ after) h),
    λ e p. ground (arith, p, notify_retry-append before (a ∷ after) h),
    λ e p q. ground (arith, p, q, notify_retry-append before (a ∷ after) h),
  )
