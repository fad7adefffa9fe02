-- ===== src/Vault/Requests.antt =====
-- A redeem or replace request that the vault has to pay, with the deadlines for the payment
-- (vault/src/execution.rs). A `Duration` is a number of milliseconds.
pub mod Deadlines
mod Tests
use interbtc_clients.Prelude.{
  ℕ, ◌/◌, ◌+◌, ◌-◌, Option, some, none, Bool, true, false, Result, ok, err, ◌>>=◌, map_err, ok_or,
  leb, if◌then◌else◌, checked_add, checked_sub, checked_div, try_into, u32_max, u64_max,
}
use interbtc_clients.Runtime.Errors.{RuntimeError}
use interbtc_clients.Runtime.Requests.{H256, VaultId, BtcAddress, RedeemRequest, ReplaceRequest}
use interbtc_clients.Vault.Errors.{
  Error, arithmetic_overflow, arithmetic_underflow, try_into_int_error, runtime_error,
}
use interbtc_clients.Vault.Blocks.{
  millisecs_per_block, parachain_blocks_to_bitcoin_blocks_rounded_up,
}

pub record Deadline : Type 0 where
  pub parachain : ℕ
  pub bitcoin : ℕ

pub data RequestType : Type 0 where
  redeem replace : RequestType

pub record Request : Type 0 where
  pub hash : H256
  pub btc_height : Option ℕ
  pub deadline : Option Deadline
  pub amount : ℕ
  pub btc_address : BtcAddress
  pub request_type : RequestType
  pub vault_id : VaultId
  pub fee_budget : Option ℕ

unfoldable pub duration_to_parachain_blocks : ℕ → Result ℕ Error
duration_to_parachain_blocks duration =
    ok_or (try_into u32_max (duration / millisecs_per_block)) try_into_int_error

unfoldable pub calculate_deadline : ℕ → ℕ → ℕ → ℕ → Result Deadline Error
calculate_deadline opentime btc_start_height period payment_margin = do
  margin ← duration_to_parachain_blocks payment_margin
  expiry ← ok_or (checked_add u32_max opentime period) arithmetic_overflow
  parachain_deadline ← ok_or (checked_sub expiry margin) arithmetic_underflow
  period_blocks ← parachain_blocks_to_bitcoin_blocks_rounded_up period
  btc_expiry ← ok_or (checked_add u32_max btc_start_height period_blocks) arithmetic_overflow
  margin_blocks ← parachain_blocks_to_bitcoin_blocks_rounded_up margin
  bitcoin_deadline ← ok_or (checked_sub btc_expiry margin_blocks) arithmetic_underflow
  ok (record { parachain = parachain_deadline; bitcoin = bitcoin_deadline })

unfoldable pub from_redeem_request : H256 → RedeemRequest → ℕ → Result Request Error
from_redeem_request hash request payment_margin = do
  deadline ← calculate_deadline request.opentime request.btc_height request.period payment_margin
  ok (record {
    hash = hash;
    btc_height = some request.btc_height;
    deadline = some deadline;
    amount = request.amount_btc;
    btc_address = request.btc_address;
    request_type = redeem;
    vault_id = request.vault;
    fee_budget = some request.transfer_fee_btc;
  })

unfoldable pub from_replace_request : H256 → ReplaceRequest → ℕ → Result Request Error
from_replace_request hash request payment_margin = do
  deadline ← calculate_deadline request.accept_time request.btc_height request.period payment_margin
  ok (record {
    hash = hash;
    btc_height = some request.btc_height;
    deadline = some deadline;
    amount = request.amount;
    btc_address = request.btc_address;
    request_type = replace;
    vault_id = request.old_vault;
    fee_budget = none;
  })

-- `FixedU128::accuracy()`
abbrev pub fixed_accuracy : ℕ
fixed_accuracy = 1000000000000000000

-- A fee rate of the oracle, as its inner integer, in whole satoshi per virtual byte.
pub to_sat_per_vbyte : ℕ → Result ℕ Error
to_sat_per_vbyte inner = do
  rate ← ok_or (checked_div inner fixed_accuracy) arithmetic_underflow
  ok_or (try_into u64_max rate) try_into_int_error

-- `get_fee_rate`, given the answer of the oracle pallet.
pub get_fee_rate : Result ℕ RuntimeError → Result ℕ Error
get_fee_rate bitcoin_fees = do inner ← map_err runtime_error bitcoin_fees; to_sat_per_vbyte inner

-- The test at the start of `pay_and_execute`; the Bitcoin height is asked for only where the
-- parachain deadline has passed.
unfoldable pub ensure_not_expired :
    Option Deadline → Result ℕ Error → Result ℕ Error → Result (Unit {0}) Error
ensure_not_expired none active_block_number block_count = ok tt
ensure_not_expired (some deadline) active_block_number block_count =
    active_block_number >>= λ height.
    if leb deadline.parachain height
    then (block_count >>= λ count.
        if leb deadline.bitcoin count then err Error.deadline_expired else ok tt)
    else ok tt
