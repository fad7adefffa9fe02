-- ===== src/Bitcoin/Wallet/Inputs.antt =====
-- What adding a coin and finishing make of the state (bitcoin/src/light/wallet.rs).
use interbtc_clients.Prelude.{ℕ, ◌-◌, ◌≡◌, refl, [], ◌∷◌, ◌++◌, Result, ok, err, ◌>>=◌, arith}
use interbtc_clients.Bitcoin.Transactions.{Script}
use interbtc_clients.Bitcoin.Wallet.Sizes.{
  Library, PublicKey, default_txin, calculate_maximum_signed_input_size, wrapping_sub,
}
use interbtc_clients.Bitcoin.Wallet.Coins.{
  Utxo, Electrs, Error, CoinOutput, get_effective_value, add, get_fee, get_selected_value,
  get_change,
}
use interbtc_clients.Bitcoin.Wallet.{
  Wallet, Plan, Psbt, Funding, add_coin, finish, expect_key, get_pub_key, settle, change_outputs,
  calculate_maximum_signed_tx_size,
}

-- The state after a coin, whose output has a script, has become an input.
abbrev pub extended : Utxo → CoinOutput → Script → Funding → Funding
extended utxo coin script_pubkey f = record {
  value_to_select = f.value_to_select - get_effective_value coin;
  select_coins = add f.select_coins coin;
  psbt = record {
    input = f.psbt.input ++ default_txin utxo.outpoint ∷ [];
    output = f.psbt.output;
    witness_utxos =
        f.psbt.witness_utxos ++ (record { value = utxo.value; script_pubkey = script_pubkey }) ∷ [];
  };
}

module _ (l : Library) (w : Wallet) (e : Electrs) where
  pub add_coin_extends :
      (p : Plan) (utxo : Utxo) (f f' : Funding)
      → add_coin l w e p utxo f ≡ ok f'
      → (coin : CoinOutput) × (s : Script) × (coin.value ≡ utxo.value)
        × (f' ≡ extended utxo coin s f)
  unfolding add_coin
  add_coin_extends p utxo f f' h = found (e.get_script_pubkey utxo.outpoint) h
    where
      coin_of : PublicKey → CoinOutput
      coin_of key = record {
        value = utxo.value;
        fee = get_fee p.feerate (calculate_maximum_signed_input_size l utxo.outpoint key);
      }

      keyed :
          (s : Script) (k : Result PublicKey Error)
          → (k >>= λ key. ok (extended utxo (coin_of key) s f)) ≡ ok f'
          → (coin : CoinOutput) × (s : Script) × (coin.value ≡ utxo.value)
            × (f' ≡ extended utxo coin s f)
      keyed s (err x) q = ground arith
      keyed s (ok key) q = (coin_of key, s, refl, ground arith)

      found :
          (r : Result Script Error)
          → (r >>= λ s.
              expect_key (get_pub_key w s) >>= λ key. ok (extended utxo (coin_of key) s f))
            ≡ ok f'
          → (coin : CoinOutput) × (s : Script) × (coin.value ≡ utxo.value)
            × (f' ≡ extended utxo coin s f)
      found (err x) q = ground arith
      found (ok s) q = keyed s (expect_key (get_pub_key w s)) q

  -- The result: the same inputs, and the change behind the outputs.
  abbrev pub with_change : Plan → Funding → ℕ → Psbt
  with_change p f amount = record {
    input = f.psbt.input;
    output = f.psbt.output ++ change_outputs l w e p amount;
    witness_utxos = f.psbt.witness_utxos;
  }

  abbrev pub change_of : Plan → Funding → ℕ
  change_of p f = get_change f.select_coins p.min_viable_change p.change_fee

  abbrev pub fee_before_change : Plan → Funding → ℕ
  fee_before_change p f =
      wrapping_sub (wrapping_sub (get_selected_value f.select_coins) p.recipients_sum)
        (change_of p f)

  pub finish_settles :
      (p : Plan) (f : Funding) (psbt : Psbt)
      → finish l w e p f ≡ ok psbt
      → (fee : ℕ) × (psbt
          ≡ with_change p f (settle l w e (change_of p f) (fee_before_change p f) fee))
  unfolding finish
  finish_settles p f psbt h =
      go (calculate_maximum_signed_tx_size l (with_change p f (change_of p f)) w) h
    where
      go :
          (r : Result ℕ Error)
          → (r >>= λ n. ok (
              with_change p f
                (settle l w e (change_of p f) (fee_before_change p f) (get_fee p.feerate n))))
            ≡ ok psbt
          → (fee : ℕ) × (psbt
              ≡ with_change p f (settle l w e (change_of p f) (fee_before_change p f) fee))
      go (err x) q = ground arith
      go (ok n) q = (get_fee p.feerate n, ground arith)
