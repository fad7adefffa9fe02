-- ===== src/Bitcoin/Wallet/Skipped.antt =====
-- Which coins the wallet does not spend (bitcoin/src/light/wallet.rs).
use mathlib.Core.Path.{subst}
use interbtc_clients.Prelude.{
  ℕ, ◌≡◌, ◌≢◌, refl, sym, false, Option, some, List, [], ◌∷◌, map, Result, ok, err, ◌>>=◌, All,
  All-append, arith,
}
use interbtc_clients.Bitcoin.Transactions.{Script, TxOut}
use interbtc_clients.Bitcoin.Wallet.Sizes.{Library, TxIn, default_txin}
use interbtc_clients.Bitcoin.Wallet.Coins.{Utxo, Electrs, Error, CoinOutput, available_coins}
use interbtc_clients.Bitcoin.Wallet.{
  Wallet, Plan, Psbt, Funding, plan, is_skipped, add_coin, finish, fund_from, start_funding,
  fund_transaction,
}
use interbtc_clients.Bitcoin.Wallet.Loop.{fund_from_keeps}
use interbtc_clients.Bitcoin.Wallet.Inputs.{extended, add_coin_extends, finish_settles}

module _ (l : Library) (w : Wallet) (e : Electrs) where
  abbrev NotOf : ℕ → TxIn → Type 0
  NotOf txid txin = txin.previous_output.txid ≢ txid

  is_skipped_not :
      (p : Plan) (txid : ℕ) (utxo : Utxo)
      → p.prev_txid ≡ some txid
      → is_skipped l w e p utxo ≡ false
      → NotOf txid (default_txin utxo.outpoint)
  unfolding is_skipped
  is_skipped_not p txid utxo t h = ground (arith, t)

  plan-prev_txid :
      (output : List TxOut) (change_script : Script) (rate : ℕ) (prev : Option ℕ) (p : Plan)
      → plan l w e output change_script rate prev ≡ ok p
      → p.prev_txid ≡ prev
  unfolding plan
  plan-prev_txid output change_script rate prev p h = ground arith

  fund_from_skips :
      (p : Plan) (txid : ℕ) (coins : List (Result Utxo Error)) (f : Funding) (psbt : Psbt)
      → p.prev_txid ≡ some txid
      → All (NotOf txid) f.psbt.input
      → fund_from l w e p coins f ≡ ok psbt
      → All (NotOf txid) psbt.input
  fund_from_skips p txid coins f psbt t i h =
      fund_from_keeps l w e p (λ rest g. All (NotOf txid) g.psbt.input)
        (λ q. All (NotOf txid) q.input) (λ utxo rest g j. j) adds ends coins f psbt i h
    where
      adds :
          (utxo : Utxo) (rest : List (Result Utxo Error)) (g g' : Funding)
          → is_skipped l w e p utxo ≡ false
          → add_coin l w e p utxo g ≡ ok g'
          → All (NotOf txid) g.psbt.input
          → All (NotOf txid) g'.psbt.input
      adds utxo rest g g' s' q j = go (add_coin_extends l w e p utxo g g' q)
        where
          go :
              ((coin : CoinOutput) × (s : Script) × (coin.value ≡ utxo.value)
                × (g' ≡ extended utxo coin s g))
              → All (NotOf txid) g'.psbt.input
          go (coin, s, v, k) =
              subst (λ x. All (NotOf txid) x.psbt.input) (sym k)
                (All-append (NotOf txid) g.psbt.input (default_txin utxo.outpoint ∷ []) j
                  (is_skipped_not p txid utxo t s', tt))

      ends :
          (rest : List (Result Utxo Error)) (g : Funding) (q : Psbt)
          → g.value_to_select ≡ 0
          → finish l w e p g ≡ ok q
          → All (NotOf txid) g.psbt.input
          → All (NotOf txid) q.input
      ends rest g q z k j =
          subst (λ x. All (NotOf txid) x.input) (sym (finish_settles l w e p g q k).1) j

-- The inputs of the funded transaction are coins of other transactions than the one that it
-- replaces, if it replaces one.
pub fund_transaction_spends_no_replaced :
    (l : Library) (w : Wallet) (e : Electrs) (prev_inputs : List TxIn) (output : List TxOut)
    (change_script : Script) (rate txid : ℕ) (psbt : Psbt)
    → fund_transaction l w e prev_inputs output change_script rate (some txid) ≡ ok psbt
    → All (λ txin. txin.previous_output.txid ≢ txid) psbt.input
unfolding fund_transaction start_funding
fund_transaction_spends_no_replaced l w e prev_inputs output change_script rate txid psbt h =
    go (plan l w e output change_script rate (some txid)) refl h
  where
    go :
        (r : Result Plan Error)
        → plan l w e output change_script rate (some txid) ≡ r
        → (r >>= λ p.
            fund_from l w e p
              (available_coins e prev_inputs (map (λ x. x.0) w.key_store))
              (start_funding l w e p output))
          ≡ ok psbt
        → All (λ txin. txin.previous_output.txid ≢ txid) psbt.input
    go (err x) q k = ground arith
    go (ok p) q k =
        fund_from_skips l w e p txid _ (start_funding l w e p output) psbt
          (plan-prev_txid l w e output change_script rate (some txid) p q) tt k
