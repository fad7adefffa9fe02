-- ===== src/Bitcoin/Wallet.antt =====
-- The light wallet (bitcoin/src/light/wallet.rs): which coins pay for a transaction, and what its
-- change and its fee are. Amounts are `u64`, whose sums wrap around. The `bitcoin` crate, the key
-- derivation and the Electrs server are other systems: `Library` and `Electrs` hold their answers.
-- The lock of the key store is never poisoned.
pub mod Sizes
pub mod Coins
pub mod Sums
pub mod Inputs
pub mod Loop
pub mod Balance
pub mod Funded
pub mod Skipped
pub mod Unused
pub mod Enough
mod Tests
use interbtc_clients.Prelude.{
  ℕ, ◌+◌, ◌-◌, ◌*◌, max, Bool, true, false, Option, none, some, List, [], ◌∷◌, ◌++◌, map, length,
  ltb, ◌==◌, if◌then◌else◌, sum_of, Result, ok, err, ◌>>=◌, ok_or,
}
use interbtc_clients.Bitcoin.Transactions.{Script, TxOut}
use interbtc_clients.Bitcoin.Wallet.Sizes.{
  PublicKey, OutPoint, TxIn, Library, default_txin, dummy_sign_input,
  calculate_maximum_signed_input_size, get_serialize_size, sum_u64, wrapping_add, wrapping_sub,
}
use interbtc_clients.Bitcoin.Wallet.Coins.{
  Error, no_private_key, not_enough_inputs, invalid_address, panicked, Utxo, Electrs, Address,
  FeeRate, get_fee, dust_relay_tx_fee, CoinOutput, get_effective_value, SelectCoins, add,
  get_selected_value, get_change, get_dust_threshold, available_coins,
}

-- The partially signed transaction: the inputs and outputs of the unsigned one, and for each
-- input the output that it spends (`witness_utxo`).
pub record Psbt : Type 0 where
  pub input : List TxIn
  pub output : List TxOut
  pub witness_utxos : List TxOut

-- The wallet's keys, in the order of their addresses, and what `Address::from_script` and the
-- curve say.
pub record Wallet : Type 0 where
  pub key_store : List (Address × PublicKey)
  pub from_script : Script → Option Address

pub find_key : List (Address × PublicKey) → Address → Option PublicKey
find_key [] a = none
find_key ((b, key) ∷ keys) a = let rest = find_key keys a in if b == a then some key else rest

pub get_pub_key : Wallet → Script → Result PublicKey Error
unfolding find_key
get_pub_key w script_pubkey = ok_or (w.from_script script_pubkey) invalid_address >>= λ address.
    ok_or (find_key w.key_store address) no_private_key

-- `.expect("wallet has key")`
pub expect_key : Result PublicKey Error → Result PublicKey Error
expect_key (ok key) = ok key
expect_key (err _) = err panicked

pub dummy_sign_all : Library → Wallet → List TxIn → List TxOut → Result (List TxIn) Error
dummy_sign_all l w [] outs = ok []
dummy_sign_all l w (txin ∷ txins) [] = err panicked
dummy_sign_all l w (txin ∷ txins) (out ∷ outs) =
    let rest = dummy_sign_all l w txins outs in
    expect_key (get_pub_key w out.script_pubkey) >>= λ key.
    rest >>= λ signed. ok (dummy_sign_input txin key ∷ signed)

pub calculate_maximum_signed_tx_size : Library → Psbt → Wallet → Result ℕ Error
calculate_maximum_signed_tx_size l psbt w =
    dummy_sign_all l w psbt.input psbt.witness_utxos >>= λ signed.
    ok (l.to_vbytes_ceil signed psbt.output)

-- What `fund_transaction` computes before it looks for coins.
pub record Plan : Type 0 where
  pub feerate : FeeRate
  pub change_script : Script
  pub change_fee : ℕ
  pub min_viable_change : ℕ
  pub recipients_sum : ℕ
  pub not_input_fees : ℕ
  pub prev_txid : Option ℕ

pub selection_target : Plan → ℕ
selection_target p = wrapping_add p.recipients_sum p.not_input_fees

-- The state of the loop.
pub record Funding : Type 0 where
  pub value_to_select : ℕ
  pub select_coins : SelectCoins
  pub psbt : Psbt

module _ (l : Library) (w : Wallet) (e : Electrs) where
  pub plan : List TxOut → Script → ℕ → Option ℕ → Result Plan Error
  plan output change_script n_satoshis_per_k prev_txid =
      let m_effective_feerate : FeeRate = record { n_satoshis_per_k = n_satoshis_per_k } in
      let prototype : TxOut = record { value = 0; script_pubkey = change_script } in
      let dust = get_dust_threshold l prototype dust_relay_tx_fee in
      expect_key (get_pub_key w change_script) >>= λ key.
      let change_spend_size =
        calculate_maximum_signed_input_size l (record { txid = 0; vout = 0 }) key in
      let tx_noinputs_size =
        10 + l.varint_len (length output) + sum_of (get_serialize_size l) output in
      ok (record {
        feerate = m_effective_feerate;
        change_script = change_script;
        change_fee = get_fee m_effective_feerate (get_serialize_size l prototype);
        min_viable_change = max (get_fee dust_relay_tx_fee change_spend_size + 1) dust;
        recipients_sum = sum_u64 (λ o. o.value) output;
        not_input_fees = get_fee m_effective_feerate tx_noinputs_size;
        prev_txid = prev_txid;
      })

  -- Is it a coin of the transaction that is replaced?
  pub is_skipped : Plan → Utxo → Bool
  is_skipped p utxo = elim p.prev_txid [ none ↦ false | some txid ↦ txid == utxo.outpoint.txid ]

  -- One coin becomes an input.
  pub add_coin : Plan → Utxo → Funding → Result Funding Error
  add_coin p utxo f = e.get_script_pubkey utxo.outpoint >>= λ script_pubkey.
      expect_key (get_pub_key w script_pubkey) >>= λ key.
      let coin : CoinOutput = record {
        value = utxo.value;
        fee = get_fee p.feerate (calculate_maximum_signed_input_size l utxo.outpoint key);
      } in
      ok (record {
        value_to_select = f.value_to_select - get_effective_value coin;
        select_coins = add f.select_coins coin;
        psbt = record {
          input = f.psbt.input ++ default_txin utxo.outpoint ∷ [];
          output = f.psbt.output;
          witness_utxos =
              f.psbt.witness_utxos
              ++ (record { value = utxo.value; script_pubkey = script_pubkey }) ∷ [];
        };
      })

  pub change_outputs : Plan → ℕ → List TxOut
  change_outputs p amount =
      if ltb 0 amount then (record { value = amount; script_pubkey = p.change_script }) ∷ [] else []

  -- What the change becomes when the fee that is needed is known.
  pub settle : ℕ → ℕ → ℕ → ℕ
  settle change_amount n_fee_ret fee_needed =
      if ltb 0 change_amount
      then (if ltb fee_needed n_fee_ret
          then wrapping_add change_amount (n_fee_ret - fee_needed)
          else change_amount)
      else change_amount

  pub finish : Plan → Funding → Result Psbt Error
  finish p f =
      let change_amount = get_change f.select_coins p.min_viable_change p.change_fee in
      let with_change : ℕ → Psbt = λ amount. record {
        input = f.psbt.input;
        output = f.psbt.output ++ change_outputs p amount;
        witness_utxos = f.psbt.witness_utxos;
      } in
      calculate_maximum_signed_tx_size l (with_change change_amount) w >>= λ n_bytes.
      let n_fee_ret =
        wrapping_sub (wrapping_sub (get_selected_value f.select_coins) p.recipients_sum)
          change_amount in
      ok (with_change (settle change_amount n_fee_ret (get_fee p.feerate n_bytes)))

  -- The loop over the stream of coins, which an error in the stream ends, too.
  pub fund_from : Plan → List (Result Utxo Error) → Funding → Result Psbt Error
  fund_from p [] f = err not_enough_inputs
  fund_from p (err _ ∷ coins) f = err not_enough_inputs
  fund_from p (ok utxo ∷ coins) f = elim (is_skipped p utxo) [
    | true ↦ fund_from p coins f
    | false ↦ add_coin p utxo f >>= λ f'. elim (f'.value_to_select == 0) [
      | true ↦ finish p f'
      | false ↦ fund_from p coins f'
    ]
  ]

  pub start_funding : Plan → List TxOut → Funding
  start_funding p output = record {
    value_to_select = selection_target p;
    select_coins = record { preset_inputs = []; target_value = selection_target p };
    psbt = record { input = []; output = output; witness_utxos = [] };
  }

  -- `fund_transaction`, for the inputs and the outputs of the transaction.
  pub fund_transaction : List TxIn → List TxOut → Script → ℕ → Option ℕ → Result Psbt Error
  fund_transaction prev_inputs output change_script n_satoshis_per_k prev_txid =
      plan output change_script n_satoshis_per_k prev_txid >>= λ p.
      fund_from p (available_coins e prev_inputs (map (λ x. x.0) w.key_store))
        (start_funding p output)
