-- ===== src/Vault/Blocks.antt =====
-- From parachain blocks to Bitcoin blocks (vault/src/execution.rs), and what the rounding means.
use interbtc_clients.Prelude.{
  ℕ, ◌+◌, ◌*◌, ◌/◌, ◌≤◌, ◌≡◌, Result, ok, ◌>>=◌, ok_or, checked_add, checked_sub, checked_mul,
  checked_div, try_into, u32_max, u64_max, u128_max, arith,
}
use interbtc_clients.Vault.Errors.{
  Error, arithmetic_overflow, arithmetic_underflow, try_into_int_error,
}

-- `runtime::MILLISECS_PER_BLOCK`
abbrev pub millisecs_per_block : ℕ
millisecs_per_block = 12000

-- `bitcoin::BLOCK_INTERVAL`, in milliseconds
abbrev pub block_interval : ℕ
block_interval = 600000

unfoldable pub parachain_blocks_to_bitcoin_blocks_rounded_up : ℕ → Result ℕ Error
parachain_blocks_to_bitcoin_blocks_rounded_up parachain_blocks = do
  millis ← ok_or (checked_mul u64_max parachain_blocks millisecs_per_block) arithmetic_overflow
  sum ← ok_or (checked_add u128_max millis block_interval) arithmetic_overflow
  less ← ok_or (checked_sub sum 1) arithmetic_underflow
  num_bitcoin_blocks ← ok_or (checked_div less block_interval) arithmetic_underflow
  ok_or (try_into u32_max num_bitcoin_blocks) try_into_int_error

-- The number of Bitcoin blocks that last at least as long as `n` parachain blocks.
abbrev pub bitcoin_blocks : ℕ → ℕ
bitcoin_blocks n = (n * 12000 + 599999) / 600000

-- On every `u32` the conversion succeeds, with the quotient rounded up.
pub parachain_blocks_to_bitcoin_blocks_rounded_up_lem :
    (n : ℕ) → n ≤ u32_max → parachain_blocks_to_bitcoin_blocks_rounded_up n ≡ ok (bitcoin_blocks n)
unfolding parachain_blocks_to_bitcoin_blocks_rounded_up
parachain_blocks_to_bitcoin_blocks_rounded_up_lem n h = ground arith

pub bitcoin_blocks_mono : (m n : ℕ) → m ≤ n → bitcoin_blocks m ≤ bitcoin_blocks n
bitcoin_blocks_mono m n h = omega arith
