-- ===== src/Vault/Cancellation/Steps.antt =====
-- What one event does: the cancellations it submits, the list and the state it leaves
-- (vault/src/cancellation.rs).
use interbtc_clients.Prelude.{
  ℕ, ◌+◌, ◌≤◌, ◌≡◌, refl, Bool, not, List, [], ◌∷◌, ◌++◌, map, max, filter_by, All, Result, ok, err,
  u32_max, arith,
}
use interbtc_clients.Vault.Errors.{Error}
use interbtc_clients.Vault.Blocks.{
  bitcoin_blocks, parachain_blocks_to_bitcoin_blocks_rounded_up_lem,
}
use interbtc_clients.Runtime.Requests.{H256}
use interbtc_clients.Vault.Cancellation.{
  ActiveRequest, UnconvertedOpenTime, CancellationScheduler, Canceller, Parachain, valid, invalid,
  has_expired, submit_cancellations, cancel_request, cancel_requests, convert,
}
use interbtc_clients.Vault.Cancellation.Drain.{drain_expired-filter_by}

abbrev pub ids : List ActiveRequest → List H256
ids = map (λ r. r.id)

-- The cancellation of each of these requests succeeds.
abbrev pub AllSucceed : Canceller → Parachain → List ActiveRequest → Type 0
AllSucceed t p = All (λ r. cancel_request t p r.id ≡ ok tt)

submit_cancellations-AllSucceed :
    (t : Canceller) (p : Parachain) (rs : List ActiveRequest)
    → AllSucceed t p rs
    → submit_cancellations (cancel_request t p) rs ≡ (valid, ids rs)
unfolding submit_cancellations
submit_cancellations-AllSucceed t p [] h = refl
submit_cancellations-AllSucceed t p (r ∷ rs) h =
    ground (arith, h.0, submit_cancellations-AllSucceed t p rs h.1)

submit_cancellations_fails :
    (t : Canceller) (p : Parachain) (done : List ActiveRequest) (r : ActiveRequest)
    (rest : List ActiveRequest) (e : Error)
    → AllSucceed t p done
    → cancel_request t p r.id ≡ err e
    → submit_cancellations (cancel_request t p) (done ++ r ∷ rest) ≡ (invalid, ids (done ++ r ∷ []))
unfolding submit_cancellations
submit_cancellations_fails t p [] r rest e h f = ground (arith, f)
submit_cancellations_fails t p (d ∷ done) r rest e h f =
    ground (arith, h.0, submit_cancellations_fails t p done r rest e h.1 f)

pub submit_cancellations-All :
    (Q : H256 → Type 0) (cancel : H256 → Result (Unit {0}) Error) (rs : List ActiveRequest)
    → All (λ r. Q r.id) rs
    → All Q (submit_cancellations cancel rs).1
unfolding submit_cancellations
submit_cancellations-All Q cancel [] h = tt
submit_cancellations-All Q cancel (r ∷ rs) h =
    ground (arith, submit_cancellations-All Q cancel rs h.1)

module _ (t : Canceller) (p : Parachain) (s : CancellationScheduler)
    (active : List ActiveRequest) where
  abbrev expires : ActiveRequest → Bool
  expires = has_expired s.parachain_height s.bitcoin_height

  -- If every cancellation of an expired request succeeds, then exactly the expired requests are
  -- cancelled, in the order of the list, exactly the others stay, and the list stays valid.
  pub cancel_requests_succeeds :
      AllSucceed t p (filter_by expires active)
      → cancel_requests t p s active ≡ record {
        scheduler = s;
        active_requests = filter_by (λ r. not (expires r)) active;
        list_state = valid;
        calls = ids (filter_by expires active);
      }
  unfolding cancel_requests
  cancel_requests_succeeds h =
      rw
        (
          drain_expired-filter_by active s.parachain_height s.bitcoin_height,
          submit_cancellations-AllSucceed t p (filter_by expires active) h,
        )
        refl

  -- If one fails after those before it have succeeded, then it is the last that is tried, no
  -- expired request stays in the list, and the list is marked for a new query.
  pub cancel_requests_fails :
      (done : List ActiveRequest) (r : ActiveRequest) (rest : List ActiveRequest) (e : Error)
      → filter_by expires active ≡ done ++ r ∷ rest
      → AllSucceed t p done
      → cancel_request t p r.id ≡ err e
      → cancel_requests t p s active ≡ record {
        scheduler = s;
        active_requests = filter_by (λ r'. not (expires r')) active;
        list_state = invalid;
        calls = ids (done ++ r ∷ []);
      }
  unfolding cancel_requests
  cancel_requests_fails done r rest e split h f =
      rw
        (
          drain_expired-filter_by active s.parachain_height s.bitcoin_height,
          split,
          submit_cancellations_fails t p done r rest e h f,
        )
        refl

-- Both deadlines of a request add the longer of the two periods to its opening heights, and none
-- of the sums wraps around.
pub convert_deadlines :
    (g : ℕ) (u : UnconvertedOpenTime) (r : ActiveRequest)
    → convert g u ≡ ok r
    → (r.id ≡ u.id)
      × (r.parachain_deadline_height ≡ u.parachain_open_height + max g u.period)
      × (r.bitcoin_deadline_height ≡ u.bitcoin_open_height + bitcoin_blocks (max g u.period))
      × (r.parachain_deadline_height ≤ u32_max)
      × (r.bitcoin_deadline_height ≤ u32_max)
unfolding convert
convert_deadlines g u r h =
    ground (arith, parachain_blocks_to_bitcoin_blocks_rounded_up_lem (max g u.period))

-- Where both sums fit in 32 bits, the conversion succeeds.
convert_succeeds :
    (g : ℕ) (u : UnconvertedOpenTime)
    → u.parachain_open_height + max g u.period ≤ u32_max
    → u.bitcoin_open_height + bitcoin_blocks (max g u.period) ≤ u32_max
    → (r : ActiveRequest) × (convert g u ≡ ok r)
unfolding convert
convert_succeeds g u h k = (
  record {
    id = u.id;
    parachain_deadline_height = u.parachain_open_height + max g u.period;
    bitcoin_deadline_height = u.bitcoin_open_height + bitcoin_blocks (max g u.period);
  },
  ground (arith, parachain_blocks_to_bitcoin_blocks_rounded_up_lem (max g u.period)),
)
