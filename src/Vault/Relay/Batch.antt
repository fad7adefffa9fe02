-- ===== src/Vault/Relay/Batch.antt =====
-- Which headers one round of the relayer submits (vault/src/relay/mod.rs).
use interbtc_clients.Prelude.{
  ℕ, zero, suc, ◌+◌, ◌-◌, ◌≤◌, ◌<◌, ◌≡◌, refl, true, some, List, [], ◌∷◌, Result, ok, err, ◌>>=◌,
  u32_max, min, length, arith, ◌⊎◌, inl, inr, sym, ap, ◌∙◌,
}
use mathlib.Core.Path.{subst}
use interbtc_clients.Vault.Relay.{
  Error, Header, Backing, Issuing, Runner, batch_size, submit_size, submit_from, submit_confirmed,
  submit_next, submit_single, submit_batch, wait_for_header, initialize_if_needed,
  get_num_confirmed_blocks, compute_start_height, Submission, failed,
}
use interbtc_clients.Vault.Relay.Headers.{
  batch_size_lem, IsRun, HasHeaders, collect_headers-IsRun, submitted, PollsAgree, IsRunOf,
  submit_size-IsRunOf,
}

-- Nothing is submitted, or the last block has its confirmations.
abbrev pub IsConfirmed : Runner → ℕ → ℕ → List Header → Type 0
IsConfirmed r count start headers =
    (headers ≡ []) ⊎ (start + length headers + r.btc_confirmations ≤ count + 1)

-- What a round may submit, given the size of the batch.
abbrev IsFine : Runner → Backing → ℕ → ℕ → Submission → Type 0
IsFine r b count start s =
    IsRun b start (submitted s)
    × (length (submitted s) ≤ r.max_batch_size)
    × IsConfirmed r count start (submitted s)

IsFine-of_size :
    (r : Runner) (b : Backing) (count start : ℕ) (s : Submission)
    → r.btc_confirmations ≤ count
    → IsRunOf b start (min r.max_batch_size (count - r.btc_confirmations + 1 - start)) s
    → IsFine r b count start s
IsFine-of_size r b count start s c (run, l) = (run, omega arith, confirmed (submitted s) l)
  where
    confirmed :
        (xs : List Header)
        → length xs ≤ min r.max_batch_size (count - r.btc_confirmations + 1 - start)
        → IsConfirmed r count start xs
    confirmed [] h = inl refl
    confirmed (x ∷ xs) h = inr (omega arith)

submit_from-IsFine :
    (r : Runner) (b : Backing) (i : Issuing) (count start : ℕ)
    → count < u32_max
    → r.btc_confirmations ≤ count
    → start ≤ u32_max
    → PollsAgree b start
    → IsFine r b count start (submit_from r b i (count - r.btc_confirmations) (some (ok start)))
unfolding submit_from
submit_from-IsFine r b i count start m c l p =
    IsFine-of_size r b count start
      (submit_size b i start (batch_size start r.max_batch_size (count - r.btc_confirmations))) c
      (subst
        (λ n.
          IsRunOf b start n (
            submit_size b i start
              (batch_size start r.max_batch_size (count - r.btc_confirmations))))
        (batch_size_lem start r.max_batch_size (count - r.btc_confirmations) (omega arith) l)
        (submit_size-IsRunOf b i start _ p))

-- Where Bitcoin's block count is known, is below the largest `u32` and is no less than the required
-- confirmations, a start height is computed, and the header that is polled for at that height is
-- the one found there: what one round submits, on every path, are the headers of consecutive blocks
-- from the start height on; they are at most `max_batch_size`, and each has the required
-- confirmations: there is nothing, or the last block's height plus the confirmations is at most
-- Bitcoin's block count.
pub submit_next-IsConfirmed :
    (fuel : ℕ) (r : Runner) (b : Backing) (before i : Issuing) (count start : ℕ)
    → b.get_block_count ≡ ok count
    → count < u32_max
    → r.btc_confirmations ≤ count
    → compute_start_height fuel b i ≡ some (ok start)
    → start ≤ u32_max
    → PollsAgree b start
    → let headers = submitted (submit_next fuel r b before i) in
      IsRun b start headers
      × (length headers ≤ r.max_batch_size)
      × IsConfirmed r count start headers
unfolding submit_next submit_confirmed get_num_confirmed_blocks
submit_next-IsConfirmed fuel r b before i count start e m c s l p =
    go (initialize_if_needed r b before)
  where
    go :
        (x : Result (Unit {0}) Error)
        → IsFine r b count start (elim x [
          | err y ↦ failed y
          | ok _ ↦
              submit_confirmed fuel r b i (b.get_block_count >>= λ n. ok (n - r.btc_confirmations))
        ])
    go (err y) = (tt, omega arith, inl refl)
    go (ok _) =
        subst
          (λ x.
            IsFine r b count start
              (submit_confirmed fuel r b i (x >>= λ n. ok (n - r.btc_confirmations))))
          (sym e)
          (subst (λ x. IsFine r b count start (submit_from r b i (count - r.btc_confirmations) x))
            (sym s) (submit_from-IsFine r b i count start m c l p))

length-submit_size :
    (b : Backing) (i : Issuing) (height n x : ℕ)
    → wait_for_header (b.header_polls height) ≡ some (ok x)
    → HasHeaders b height n
    → length (submitted (submit_size b i height n)) ≡ n
unfolding submit_size submit_single submit_batch
length-submit_size b i height zero x w h = refl
length-submit_size b i height (suc zero) x w h = ground (arith, w)
length-submit_size b i height (suc (suc n)) x w h =
    let (xs, p, _, l) = collect_headers-IsRun b height (suc (suc n)) h in ground (arith, p, l)

submit_next_size :
    (fuel : ℕ) (r : Runner) (b : Backing) (before i : Issuing) (count start : ℕ)
    → before.is_initialized ≡ ok true
    → b.get_block_count ≡ ok count
    → compute_start_height fuel b i ≡ some (ok start)
    → submit_next fuel r b before i
      ≡ submit_size b i start (batch_size start r.max_batch_size (count - r.btc_confirmations))
unfolding submit_next submit_confirmed submit_from get_num_confirmed_blocks initialize_if_needed
submit_next_size fuel r b before i count start f e s = ground (arith, f, e, s)

-- A round does submit: with the relay initialized, a block count below the largest `u32`, a
-- computed start height and a header for each height that is tried, its headers are as
-- many as the batch size allows and as are confirmed and not yet stored.
pub submit_next_submits :
    (fuel : ℕ) (r : Runner) (b : Backing) (before i : Issuing) (count start x : ℕ)
    → before.is_initialized ≡ ok true
    → b.get_block_count ≡ ok count
    → count < u32_max
    → compute_start_height fuel b i ≡ some (ok start)
    → start ≤ u32_max
    → wait_for_header (b.header_polls start) ≡ some (ok x)
    → HasHeaders b start (min r.max_batch_size (count - r.btc_confirmations + 1 - start))
    → length (submitted (submit_next fuel r b before i))
      ≡ min r.max_batch_size (count - r.btc_confirmations + 1 - start)
submit_next_submits fuel r b before i count start x f e m s l w h =
    let n = min r.max_batch_size (count - r.btc_confirmations + 1 - start) in
    let size =
      batch_size_lem start r.max_batch_size (count - r.btc_confirmations) (omega arith) l in
    ap (λ t. length (submitted t)) (submit_next_size fuel r b before i count start f e s)
    ∙ ap (λ k. length (submitted (submit_size b i start k))) size
    ∙ length-submit_size b i start n x w h
