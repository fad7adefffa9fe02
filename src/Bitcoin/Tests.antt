-- ===== src/Bitcoin/Tests.antt =====
-- Runs of the reading of transactions, the stream of transactions and the classification of
-- errors (bitcoin/src).
use interbtc_clients.Prelude.{ℕ, ◌≡◌, refl, true, false, Option, some, none, [], ◌∷◌, ok}
use interbtc_clients.Bitcoin.Errors.{
  Error, JsonRpcError, rejected_by_network_rules, could_be_insufficient_funds,
}
use interbtc_clients.Bitcoin.Transactions.{
  Script, Transaction, indexed_from, extract_indexed_output_addresses, extract_output_addresses,
  single_address, extract_return_to_self_address,
}
use interbtc_clients.Bitcoin.Streams.{
  Rpc, run, pull, next_block, fetched, concat_map, block_transactions, reverse_stream_blocks,
  reverse_stream_in_chain_transactions, reverse_stream_transactions,
}

-- A script of one byte pays the address of that byte.
abbrev from_script : Script → Option ℕ
from_script (a ∷ []) = some a
from_script _ = none

abbrev tx : ℕ → Transaction
tx i = record {
  txid = i;
  output =
      (record { value = 5; script_pubkey = 8 ∷ [] })
      ∷ (record { value = 0; script_pubkey = 7 ∷ [] })
      ∷ (record { value = 6; script_pubkey = 9 ∷ [] })
      ∷ [];
}

addresses_of_tx :
    (extract_output_addresses from_script (tx 1) ≡ 8 ∷ 9 ∷ [])
    × (extract_return_to_self_address from_script (tx 1) 8 ≡ some (some (2, 9)))
    × (extract_return_to_self_address from_script (tx 1) 3 ≡ none)
unfolding extract_output_addresses extract_indexed_output_addresses indexed_from
    extract_return_to_self_address single_address
addresses_of_tx = (refl, refl, refl)

rejections_are_told_apart :
    (rejected_by_network_rules (Error.bitcoin_error (JsonRpcError.rpc 26)) ≡ true)
    × (could_be_insufficient_funds (Error.bitcoin_error (JsonRpcError.rpc 6)) ≡ true)
    × (could_be_insufficient_funds (Error.bitcoin_error (JsonRpcError.rpc 26)) ≡ false)
unfolding rejected_by_network_rules could_be_insufficient_funds
rejections_are_told_apart = (refl, refl, refl)

-- The mempool has a transaction, the best block another, and the block before was pruned.
abbrev rpc : Rpc
rpc = record {
  get_best_block_info = ok (3, 30);
  get_block = λ h. ok (record { prev_blockhash = 0; txdata = tx 2 ∷ [] });
  get_mempool_transactions = ok (ok (tx 1) ∷ []);
}

mempool_comes_first : reverse_stream_transactions rpc 3 9 ≡ ok (ok (tx 1) ∷ ok (tx 2) ∷ [])
unfolding reverse_stream_transactions reverse_stream_in_chain_transactions reverse_stream_blocks run
    pull next_block fetched concat_map block_transactions
mempool_comes_first = refl
