-- ===== src/Vault/Requests/Deadlines.antt =====
-- The deadlines of a payment, and how they stand to those of a cancellation
-- (vault/src/execution.rs).
use interbtc_clients.Prelude.{
  ℕ, ◌+◌, ◌-◌, ◌/◌, ◌≤◌, ◌≡◌, true, some, ok, err, u32_max, arith, Result-cases, inl, inr,
}
use interbtc_clients.Runtime.Requests.{H256, ReplaceRequest}
use interbtc_clients.Vault.Errors.{deadline_expired}
use interbtc_clients.Vault.Blocks.{
  bitcoin_blocks, parachain_blocks_to_bitcoin_blocks_rounded_up_lem,
}
use interbtc_clients.Vault.Cancellation.{ActiveRequest, convert, open_replace, has_expired}
use interbtc_clients.Vault.Cancellation.Steps.{convert_deadlines}
use interbtc_clients.Vault.Requests.{
  Deadline, Request, duration_to_parachain_blocks, calculate_deadline, from_replace_request,
  ensure_not_expired,
}

-- A deadline is the opening height plus the period, less the payment margin; both terms are
-- counted in Bitcoin blocks, rounded up, for the Bitcoin deadline.
pub calculate_deadline_lem :
    (opentime btc_start period margin : ℕ) (d : Deadline)
    → period ≤ u32_max
    → calculate_deadline opentime btc_start period margin ≡ ok d
    → (d.parachain + margin / 12000 ≡ opentime + period)
      × (d.bitcoin + bitcoin_blocks (margin / 12000) ≡ btc_start + bitcoin_blocks period)
      × (opentime + period ≤ u32_max)
      × (btc_start + bitcoin_blocks period ≤ u32_max)
unfolding calculate_deadline duration_to_parachain_blocks
calculate_deadline_lem opentime btc_start period margin d h e = ground (
  arith,
  parachain_blocks_to_bitcoin_blocks_rounded_up_lem period,
  parachain_blocks_to_bitcoin_blocks_rounded_up_lem (margin / 12000),
)

-- There are deadlines wherever the sums fit in 32 bits and the margin is not longer than what has
-- passed at the expiry.
pub calculate_deadline_succeeds :
    (opentime btc_start period margin : ℕ)
    → opentime + period ≤ u32_max
    → btc_start + bitcoin_blocks period ≤ u32_max
    → margin / 12000 ≤ opentime + period
    → bitcoin_blocks (margin / 12000) ≤ btc_start + bitcoin_blocks period
    → calculate_deadline opentime btc_start period margin
      ≡ ok (record {
        parachain = opentime + period - margin / 12000;
        bitcoin = btc_start + bitcoin_blocks period - bitcoin_blocks (margin / 12000);
      })
unfolding calculate_deadline duration_to_parachain_blocks
calculate_deadline_succeeds opentime btc_start period margin h k m n = ground (
  arith,
  parachain_blocks_to_bitcoin_blocks_rounded_up_lem period,
  parachain_blocks_to_bitcoin_blocks_rounded_up_lem (margin / 12000),
)

-- The request's deadline is the one calculated from the parachain's replace request.
from_replace_request-deadline :
    (i : H256) (r : ReplaceRequest) (margin : ℕ) (q : Request)
    → from_replace_request i r margin ≡ ok q
    → (d : Deadline) × (calculate_deadline r.accept_time r.btc_height r.period margin ≡ ok d)
      × (q.deadline ≡ some d)
unfolding from_replace_request
from_replace_request-deadline i r margin q e =
    elim (Result-cases (calculate_deadline r.accept_time r.btc_height r.period margin)) [
      | inl (d, p) ↦ (d, p, ground (arith, p))
      | inr (x, p) ↦ absurd (ground (arith, p))
    ]

-- If the new vault's scheduler would cancel a replace request at two heights, then the old vault,
-- at these heights or later ones, refuses to start the payment, whatever its payment margin is.
pub cancelled_replace_is_not_paid :
    (i : H256) (r : ReplaceRequest) (g margin : ℕ) (a : ActiveRequest) (q : Request)
    (parachain_height bitcoin_height active_block_number block_count : ℕ)
    → convert g (open_replace (i, r)) ≡ ok a
    → has_expired parachain_height bitcoin_height a ≡ true
    → from_replace_request i r margin ≡ ok q
    → parachain_height ≤ active_block_number
    → bitcoin_height ≤ block_count
    → ensure_not_expired q.deadline (ok active_block_number) (ok block_count) ≡ err deadline_expired
unfolding ensure_not_expired
cancelled_replace_is_not_paid i r g margin a q ph bh n c ea x eq hp hb =
    let (d, e, f) = from_replace_request-deadline i r margin q eq in
    let k = convert_deadlines g (open_replace (i, r)) a ea in
    let fits : r.period ≤ u32_max = omega (arith, k) in
    rw f (
      ground (arith, k, calculate_deadline_lem r.accept_time r.btc_height r.period margin d fits e))
