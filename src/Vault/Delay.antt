-- ===== src/Vault/Delay.antt =====
-- How long a vault waits before it executes someone's issue request (vault/src/delay.rs). SHA-256
-- is another crate's and is a parameter; 32 bytes are a number, whose order is that of the bytes.
pub mod Rank
mod Tests
use interbtc_clients.Prelude.{
  ℕ, zero, suc, ◌+◌, ◌/◌, Bool, List, [], ◌∷◌, map, length, filter_by, ltb, ◌==◌, if◌then◌else◌,
  Result, ok, err,
}
use Prim.Native.Nat.{bit_xor}
use interbtc_clients.Runtime.Errors.{RuntimeError}
use interbtc_clients.Runtime.Requests.{AccountId}

-- The largest `l` with 2 to the `l` at most `n`. The fuel is a bound on `n`.
unfoldable pub ilog2_below : ℕ → ℕ → ℕ
ilog2_below zero n = 0
ilog2_below (suc fuel) n = let half = ilog2_below fuel (n / 2) in if ltb n 2 then 0 else suc half

unfoldable pub ilog2 : ℕ → ℕ
unfolding ilog2_below
ilog2 n = ilog2_below n n

-- The answers of the parachain to a wait.
pub record Chain : Type 0 where
  pub get_current_chain_height : Result ℕ RuntimeError
  pub wait_for_block : ℕ → Result (Unit {0}) RuntimeError

-- `InterBtcParachain::delay_for_blocks`
unfoldable pub delay_for_blocks : Chain → ℕ → Result (Unit {0}) RuntimeError
delay_for_blocks chain delay = if delay == 0 then ok tt else elim chain.get_current_chain_height [
  | err e ↦ err e
  | ok height ↦ chain.wait_for_block (height + delay)
]

-- The account ids of all vaults.
unfoldable pub new {ℓ} :
    {V : Type ℓ}
    → (V → AccountId)
    → Result (List V) RuntimeError
    → Result (List AccountId) RuntimeError
new account_id (ok vaults) = ok (map account_id vaults)
new account_id (err e) = err e

module _ (sha256 : ℕ → ℕ) where
  unfoldable pub hash_vault : ℕ → AccountId → ℕ
  hash_vault seed account_id = sha256 (bit_xor seed account_id)

  -- How many vaults come before this hash.
  unfoldable pub random_ordering : ℕ → List AccountId → ℕ → ℕ
  unfolding hash_vault
  random_ordering seed vaults self_hash =
      length (filter_by (λ account_id. ltb (hash_vault seed account_id) self_hash) vaults)

  unfoldable pub delay_of : ℕ → List AccountId → AccountId → ℕ
  unfolding hash_vault random_ordering ilog2
  delay_of seed vaults own = ilog2 (random_ordering seed vaults (hash_vault seed own) + 1)

  -- `OrderedVaultsDelay::delay`
  unfoldable pub ordered_delay :
      Chain → List AccountId → AccountId → ℕ → Result (Unit {0}) RuntimeError
  unfolding delay_of delay_for_blocks
  ordered_delay chain vaults own seed = delay_for_blocks chain (delay_of seed vaults own)

-- `ZeroDelay::delay`
unfoldable pub zero_delay : ℕ → Result (Unit {0}) RuntimeError
zero_delay seed = ok tt
