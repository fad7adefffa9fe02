-- ===== src/Bitcoin/Streams.antt =====
-- The stream of blocks from the best one backwards (bitcoin/src/iter.rs), which the vault searches
-- for payments. Bitcoin Core is another system: `Rpc` holds its answers.
pub mod Blocks
pub mod Forward
mod Tests
use interbtc_clients.Prelude.{
  ℕ, zero, suc, ◌+◌, ◌-◌, ◌*◌, ◌≤◌, ◌≡◌, refl, Bool, true, false, Option, none, some, List, [], ◌∷◌,
  ◌++◌, map, ltb, if◌then◌else◌, Result, ok, err, arith,
}
use interbtc_clients.Bitcoin.Transactions.{Transaction}

abbrev pub BlockHash : Type 0
BlockHash = ℕ

pub record Block : Type 0 where
  pub prev_blockhash : BlockHash
  pub txdata : List Transaction

-- `rpc_misc` is Bitcoin Core's error for a block that was pruned.
pub data Error : Type 0 where
  rpc_misc other : Error

pub record Rpc : Type 0 where
  pub get_best_block_info : Result (ℕ × BlockHash) Error
  pub get_block : BlockHash → Result Block Error
  pub get_mempool_transactions : Result (List (Result Transaction Error)) Error

pub record StreamState : Type 0 where
  pub height : Option ℕ
  pub prev_block : Option Block

unfoldable pub next_block : Rpc → StreamState → Result (ℕ × BlockHash) Error
next_block rpc s = elim s.height [
  | none ↦ rpc.get_best_block_info
  | some height ↦ elim s.prev_block [
    | none ↦ rpc.get_best_block_info
    | some block ↦ ok (height - 1, block.prev_blockhash)
  ]
]

unfoldable pub fetched :
    StreamState → ℕ → Result Block Error → Option (Result Block Error × StreamState)
fetched s h (ok block) = some (ok block, record { height = some h; prev_block = some block })
fetched s h (err rpc_misc) = none
fetched s h (err other) = some (err other, s)

-- One step of `unfold`: the next item, if the stream has not ended.
unfoldable pub pull : Rpc → ℕ → StreamState → Option (Result Block Error × StreamState)
unfolding next_block fetched
pull rpc stop_height s = elim (next_block rpc s) [
  | err e ↦ some (err e, s)
  | ok (next_height, next_hash) ↦
      if ltb next_height stop_height then none else fetched s next_height (rpc.get_block next_hash)
]

-- The items of a number of steps, and whether the stream has ended by then.
unfoldable pub run : Rpc → ℕ → ℕ → StreamState → List (Result Block Error) × Bool
run rpc stop zero s = ([], false)
run rpc stop (suc n) s = elim (pull rpc stop s) [
  | none ↦ ([], true)
  | some (item, s') ↦ let rest = run rpc stop n s' in (item ∷ rest.0, rest.1)
]

unfoldable pub reverse_stream_blocks : Rpc → ℕ → ℕ → List (Result Block Error) × Bool
unfolding run
reverse_stream_blocks rpc stop n = run rpc stop n (record { height = none; prev_block = none })

-- The transactions of an item of the stream.
unfoldable pub block_transactions : Result Block Error → List (Result Transaction Error)
block_transactions (ok block) = map ok block.txdata
block_transactions (err e) = err e ∷ []

unfoldable pub concat_map {ℓ κ} : {A : Type ℓ} {B : Type κ} → (A → List B) → List A → List B
concat_map f [] = []
concat_map f (x ∷ xs) = let rest = concat_map f xs in f x ++ rest

unfoldable pub reverse_stream_in_chain_transactions : Rpc → ℕ → ℕ → List (Result Transaction Error)
unfolding concat_map block_transactions
reverse_stream_in_chain_transactions rpc stop n =
    concat_map block_transactions (reverse_stream_blocks rpc stop n).0

-- The mempool's transactions, then the chain's.
unfoldable pub reverse_stream_transactions :
    Rpc → ℕ → ℕ → Result (List (Result Transaction Error)) Error
reverse_stream_transactions rpc stop n = elim rpc.get_mempool_transactions [
  | err e ↦ err e
  | ok mempool ↦ ok (mempool ++ reverse_stream_in_chain_transactions rpc stop n)
]
