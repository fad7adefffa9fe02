-- ===== src/Bitcoin/Wallet/Tests.antt =====
-- The theorems on the wallet, for a key store with two addresses (bitcoin/src/light/wallet.rs).
use interbtc_clients.Prelude.{
  ℕ, ◌≡◌, ◌≢◌, refl, true, Option, some, none, List, [], ◌∷◌, ◌==◌, if◌then◌else◌, ok, err, All,
  arith,
}
use interbtc_clients.Bitcoin.Transactions.{Script, TxOut}
use interbtc_clients.Bitcoin.Wallet.Sizes.{
  Library, get_serialize_size, input_serialize_size, witness_serialize_size, dummy_signature,
  dummy_sign_input, get_transaction_input_weight, get_virtual_transaction_size,
  calculate_maximum_signed_input_size, default_txin,
}
use interbtc_clients.Bitcoin.Wallet.Coins.{
  Utxo, Electrs, get_fee, get_selected_value, get_selected_effective_value, get_change,
  get_dust_threshold, address_coins, input_coin, available_coins, not_enough_inputs,
}
use interbtc_clients.Bitcoin.Wallet.{
  Wallet, Psbt, Plan, find_key, get_pub_key, expect_key, dummy_sign_all,
  calculate_maximum_signed_tx_size, selection_target, plan, is_skipped, add_coin, change_outputs,
  settle, finish, fund_from, start_funding, fund_transaction,
}
use interbtc_clients.Bitcoin.Wallet.Balance.{IsBalanced}
use interbtc_clients.Bitcoin.Wallet.Enough.{fund_transaction_succeeds}
use interbtc_clients.Bitcoin.Wallet.Funded.{fund_transaction_balances}
use interbtc_clients.Bitcoin.Wallet.Skipped.{fund_transaction_spends_no_replaced}
use interbtc_clients.Bitcoin.Wallet.Unused.{fund_transaction_stops_at_unused_address}

abbrev library : Library
library = record {
  varint_len = λ _. 1;
  is_witness_program = λ _. true;
  to_vbytes_ceil = λ _ _. 150;
}

abbrev to_address : Script → Option ℕ
to_address [] = none
to_address (a ∷ _) = some a

abbrev wallet : Wallet
wallet = record { key_store = (8, 1 ∷ []) ∷ (9, 2 ∷ []) ∷ []; from_script = to_address }

abbrev coin : ℕ → ℕ → Utxo
coin txid value = record { outpoint = record { txid = txid; vout = 0 }; value = value }

-- The address 8 has a coin of the transaction 41, the address 9 one of the transaction 40.
abbrev electrs : Electrs
electrs = record {
  get_prev_value = λ _. ok 0;
  get_utxos_for_address = λ a. if a == 8 then ok (coin 41 700 ∷ []) else ok (coin 40 5000 ∷ []);
  get_script_pubkey = λ o. if o.txid == 41 then ok (8 ∷ []) else ok (9 ∷ []);
}

-- The address 8 has no coin.
abbrev unused : Electrs
unused = record electrs {
  get_utxos_for_address = λ a. if a == 8 then ok [] else ok (coin 40 5000 ∷ []);
}

abbrev output : List TxOut
output = (record { value = 1000; script_pubkey = 3 ∷ [] }) ∷ []

abbrev planned : Plan
planned = record {
  feerate = record { n_satoshis_per_k = 1000 };
  change_script = 9 ∷ [];
  change_fee = 10;
  min_viable_change = 231;
  recipients_sum = 1000;
  not_input_fees = 21;
  prev_txid = some 41;
}

-- The fee is 91 satoshi.
abbrev funded : Psbt
funded = record {
  input = default_txin (record { txid = 40; vout = 0 }) ∷ [];
  output =
      (record { value = 1000; script_pubkey = 3 ∷ [] })
      ∷ (record { value = 3909; script_pubkey = 9 ∷ [] })
      ∷ [];
  witness_utxos = (record { value = 5000; script_pubkey = 9 ∷ [] }) ∷ [];
}

fund_transaction_balances_example : IsBalanced library wallet electrs planned output funded
unfolding fund_transaction fund_from plan get_serialize_size input_serialize_size
    witness_serialize_size dummy_signature dummy_sign_input get_transaction_input_weight
    get_virtual_transaction_size calculate_maximum_signed_input_size get_fee get_dust_threshold
    expect_key get_pub_key find_key available_coins address_coins input_coin start_funding
    selection_target is_skipped add_coin finish settle change_outputs
    calculate_maximum_signed_tx_size dummy_sign_all get_selected_value get_selected_effective_value
    get_change
fund_transaction_balances_example =
    fund_transaction_balances library wallet electrs [] output (9 ∷ []) 1000 (some 41) planned
      funded refl (omega arith) (omega arith) refl

fund_transaction_spends_no_replaced_example :
    All (λ txin. txin.previous_output.txid ≢ 41) funded.input
unfolding fund_transaction fund_from plan get_serialize_size input_serialize_size
    witness_serialize_size dummy_signature dummy_sign_input get_transaction_input_weight
    get_virtual_transaction_size calculate_maximum_signed_input_size get_fee get_dust_threshold
    expect_key get_pub_key find_key available_coins address_coins input_coin start_funding
    selection_target is_skipped add_coin finish settle change_outputs
    calculate_maximum_signed_tx_size dummy_sign_all get_selected_value get_selected_effective_value
    get_change
fund_transaction_spends_no_replaced_example =
    fund_transaction_spends_no_replaced library wallet electrs [] output (9 ∷ []) 1000 41 funded
      refl

fund_transaction_stops_at_unused_address_example :
    fund_transaction library wallet unused [] output (9 ∷ []) 1000 (some 41) ≡ err not_enough_inputs
unfolding plan get_serialize_size input_serialize_size witness_serialize_size dummy_signature
    dummy_sign_input get_transaction_input_weight get_virtual_transaction_size
    calculate_maximum_signed_input_size get_fee get_dust_threshold expect_key get_pub_key find_key
fund_transaction_stops_at_unused_address_example =
    fund_transaction_stops_at_unused_address library wallet unused output (9 ∷ []) 1000 (some 41)
      planned 8 (1 ∷ []) ((9, 2 ∷ []) ∷ []) refl refl refl

fund_transaction_succeeds_example :
    (psbt : Psbt) × (fund_transaction library wallet electrs [] output (9 ∷ []) 1000 (some 41)
      ≡ ok psbt)
unfolding fund_transaction fund_from plan get_serialize_size input_serialize_size
    witness_serialize_size dummy_signature dummy_sign_input get_transaction_input_weight
    get_virtual_transaction_size calculate_maximum_signed_input_size get_fee get_dust_threshold
    expect_key get_pub_key find_key available_coins address_coins input_coin start_funding
    selection_target is_skipped add_coin finish settle change_outputs
    calculate_maximum_signed_tx_size dummy_sign_all get_selected_value get_selected_effective_value
    get_change
fund_transaction_succeeds_example =
    fund_transaction_succeeds library wallet electrs [] output (9 ∷ []) 1000 (some 41) planned
      (coin 41 700 ∷ coin 40 5000 ∷ []) [] refl refl
      ((8 ∷ [], (1 ∷ [], refl, refl)), ((9 ∷ [], (2 ∷ [], refl, refl)), tt)) (omega arith)
      (omega arith)
