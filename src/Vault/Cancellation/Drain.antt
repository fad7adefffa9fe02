-- ===== src/Vault/Cancellation/Drain.antt =====
-- The index loop of `drain_expired` against the two filters that it stands for
-- (vault/src/cancellation.rs).
use interbtc_clients.Prelude.{
  ℕ, zero, suc, ◌≤◌, ◌≡◌, ◌∙◌, refl, ap, Bool, not, List, [], ◌∷◌, ◌++◌, some, length, get_elem?,
  remove_at, filter_by, length-append, Bool-cases, inl, inr, true, false, arith,
}
use mathlib.Core.List.{append_assoc, append-nil}
use interbtc_clients.Vault.Cancellation.{
  ActiveRequest, Draining, drain_step, drain_loop, drain_expired, has_expired,
}

get_elem?-append :
    (xs : List ActiveRequest) (r : ActiveRequest) (ys : List ActiveRequest)
    → get_elem? (xs ++ r ∷ ys) (length xs) ≡ some r
get_elem?-append [] r ys = refl
get_elem?-append (x ∷ xs) r ys = get_elem?-append xs r ys

remove_at-append :
    (xs : List ActiveRequest) (r : ActiveRequest) (ys : List ActiveRequest)
    → remove_at (xs ++ r ∷ ys) (length xs) ≡ xs ++ ys
remove_at-append [] r ys = refl
remove_at-append (x ∷ xs) r ys = ap (λ l. x ∷ l) (remove_at-append xs r ys)

module _ (expires : ActiveRequest → Bool) where
  -- The loop's state when `kept` has been passed over, and `rest` is yet to be looked at.
  abbrev at_point : List ActiveRequest → List ActiveRequest → List ActiveRequest → Draining
  at_point kept rest expired = record {
    requests = kept ++ rest;
    i = length kept;
    expired = expired;
  }

  abbrev stays : List ActiveRequest → List ActiveRequest
  stays = filter_by (λ r. not (expires r))

  drain_step-expired :
      (kept : List ActiveRequest) (r : ActiveRequest) (rest expired : List ActiveRequest)
      → expires r ≡ true
      → drain_step expires (at_point kept (r ∷ rest) expired)
        ≡ at_point kept rest (expired ++ r ∷ [])
  unfolding drain_step
  drain_step-expired kept r rest expired h =
      ground (arith, get_elem?-append kept r rest, remove_at-append kept r rest)

  drain_step-kept :
      (kept : List ActiveRequest) (r : ActiveRequest) (rest expired : List ActiveRequest)
      → expires r ≡ false
      → drain_step expires (at_point kept (r ∷ rest) expired)
        ≡ at_point (kept ++ r ∷ []) rest expired
  unfolding drain_step
  drain_step-kept kept r rest expired h = ground (
    arith,
    get_elem?-append kept r rest,
    append_assoc kept (r ∷ []) rest,
    length-append kept (r ∷ []),
  )

  drain_loop-done :
      (fuel : ℕ) (kept expired : List ActiveRequest)
      → drain_loop fuel expires (at_point kept [] expired) ≡ at_point kept [] expired
  unfolding drain_loop
  drain_loop-done zero kept expired = refl
  drain_loop-done (suc fuel) kept expired = ground (arith, append-nil kept)

  drain_loop-next :
      (fuel : ℕ) (kept : List ActiveRequest) (r : ActiveRequest) (rest expired : List ActiveRequest)
      → drain_loop (suc fuel) expires (at_point kept (r ∷ rest) expired)
        ≡ drain_loop fuel expires (drain_step expires (at_point kept (r ∷ rest) expired))
  unfolding drain_loop
  drain_loop-next fuel kept r rest expired = ground (arith, length-append kept (r ∷ rest))

  drain_loop-filter_by :
      (fuel : ℕ) (kept rest expired : List ActiveRequest)
      → length rest ≤ fuel
      → drain_loop fuel expires (at_point kept rest expired)
        ≡ at_point (kept ++ stays rest) [] (expired ++ filter_by expires rest)
  drain_loop-filter_by fuel kept [] expired h = drain_loop-done fuel kept expired ∙ simp append-nil
  drain_loop-filter_by zero kept (r ∷ rest) expired h = absurd (omega arith)
  drain_loop-filter_by (suc fuel) kept (r ∷ rest) expired h =
      drain_loop-next fuel kept r rest expired ∙ elim (Bool-cases (expires r)) [
        | inl e ↦
            ap (drain_loop fuel expires) (drain_step-expired kept r rest expired e)
            ∙ drain_loop-filter_by fuel kept rest (expired ++ r ∷ []) (omega arith)
            ∙ rw e (simp append_assoc)
        | inr e ↦
            ap (drain_loop fuel expires) (drain_step-kept kept r rest expired e)
            ∙ drain_loop-filter_by fuel (kept ++ r ∷ []) rest expired (omega arith)
            ∙ rw e (simp append_assoc)
      ]

-- The loop with its removals leaves exactly the requests that have not expired and returns exactly
-- those that have, both in their order.
pub drain_expired-filter_by :
    (requests : List ActiveRequest) (current_height bitcoin_height : ℕ)
    → let expires = has_expired current_height bitcoin_height in
      drain_expired requests current_height bitcoin_height
      ≡ (filter_by (λ r. not (expires r)) requests, filter_by expires requests)
unfolding drain_expired
drain_expired-filter_by requests current_height bitcoin_height =
    let expires = has_expired current_height bitcoin_height in
    let e = drain_loop-filter_by expires (length requests) [] requests [] (omega arith) in
    ap (λ (s : Draining). (s.requests, s.expired)) e ∙ simp append-nil
