-- ===== src/Bitcoin/Wallet/Funded.antt =====
-- The amounts of a funded transaction (bitcoin/src/light/wallet.rs).
use mathlib.Core.Path.{subst}
use interbtc_clients.Prelude.{
  ℕ, ◌+◌, ◌%◌, ◌≤◌, ◌≡◌, refl, sym, ◌∙◌, false, Option, List, ◌∷◌, map, sum_of, u64_max, Result, ok,
  ◌>>=◌, arith,
}
use interbtc_clients.Bitcoin.Transactions.{Script, TxOut}
use interbtc_clients.Bitcoin.Wallet.Sizes.{Library, TxIn}
use interbtc_clients.Bitcoin.Wallet.Coins.{Utxo, Electrs, Error, CoinOutput, available_coins}
use interbtc_clients.Bitcoin.Wallet.{
  Wallet, Plan, Psbt, Funding, plan, is_skipped, add_coin, selection_target, fund_from,
  start_funding, fund_transaction,
}
use interbtc_clients.Bitcoin.Wallet.Sums.{mod_lem, wrapping_add_lem, coin_value}
use interbtc_clients.Bitcoin.Wallet.Loop.{fund_from_keeps}
use interbtc_clients.Bitcoin.Wallet.Inputs.{extended, add_coin_extends}
use interbtc_clients.Bitcoin.Wallet.Balance.{
  values, IsBalanced, Keeps, Keeps-extended, Keeps-skipped, Keeps-IsBalanced,
}

module _ (l : Library) (w : Wallet) (e : Electrs) where
  plan_lem :
      (output : List TxOut) (change_script : Script) (rate : ℕ) (prev_txid : Option ℕ) (p : Plan)
      → plan l w e output change_script rate prev_txid ≡ ok p
      → p.recipients_sum ≡ values output % (u64_max + 1)
  unfolding plan
  plan_lem output change_script rate prev_txid p h = ground arith

  fund_from-IsBalanced :
      (p : Plan) (output : List TxOut) (coins : List (Result Utxo Error)) (psbt : Psbt)
      → values output ≡ p.recipients_sum
      → p.recipients_sum + p.not_input_fees ≤ u64_max
      → sum_of coin_value coins ≤ u64_max
      → fund_from l w e p coins (start_funding l w e p output) ≡ ok psbt
      → IsBalanced l w e p output psbt
  unfolding start_funding selection_target
  fund_from-IsBalanced p output coins psbt v n m h =
      fund_from_keeps l w e p (Keeps l w e p output) (IsBalanced l w e p output)
        (λ utxo rest f k. Keeps-skipped l w e p output utxo rest f k) adds
        (λ rest f q z fin k. Keeps-IsBalanced l w e p output rest f q v z fin k) coins
        (start_funding l w e p output) psbt
        (
          omega (arith, wrapping_add_lem p.recipients_sum p.not_input_fees n),
          wrapping_add_lem p.recipients_sum p.not_input_fees n,
          refl,
          refl,
          omega (arith, m),
        )
        h
    where
      adds :
          (utxo : Utxo) (rest : List (Result Utxo Error)) (f f' : Funding)
          → is_skipped l w e p utxo ≡ false
          → add_coin l w e p utxo f ≡ ok f'
          → Keeps l w e p output (ok utxo ∷ rest) f
          → Keeps l w e p output rest f'
      adds utxo rest f f' s q k = go (add_coin_extends l w e p utxo f f' q)
        where
          go :
              ((coin : CoinOutput) × (s' : Script) × (coin.value ≡ utxo.value)
                × (f' ≡ extended utxo coin s' f))
              → Keeps l w e p output rest f'
          go (coin, s', v', x) =
              subst (Keeps l w e p output rest) (sym x)
                (Keeps-extended l w e p output utxo rest f coin s' v' k)

-- A funded transaction pays the given outputs and creates no money: its inputs are worth its
-- outputs and a fee. Behind the given outputs there is at most a change; it is at least the
-- smallest viable amount, or else the fee covers what the transaction's size without inputs costs.
-- That is where neither the outputs with those fees nor all coins exceed 64 bits.
pub fund_transaction_balances :
    (l : Library) (w : Wallet) (e : Electrs) (prev_inputs : List TxIn) (output : List TxOut)
    (change_script : Script) (rate : ℕ) (prev_txid : Option ℕ) (p : Plan) (psbt : Psbt)
    → plan l w e output change_script rate prev_txid ≡ ok p
    → values output + p.not_input_fees ≤ u64_max
    → sum_of coin_value (available_coins e prev_inputs (map (λ x. x.0) w.key_store)) ≤ u64_max
    → fund_transaction l w e prev_inputs output change_script rate prev_txid ≡ ok psbt
    → IsBalanced l w e p output psbt
unfolding fund_transaction
fund_transaction_balances l w e prev_inputs output change_script rate prev_txid p psbt q n m h =
    fund_from-IsBalanced l w e p output _ psbt r (subst (λ x. x + p.not_input_fees ≤ u64_max) r n) m
      (subst
        (λ x.
          (x >>= λ p'.
          fund_from l w e p' (available_coins e prev_inputs (map (λ y. y.0) w.key_store))
            (start_funding l w e p' output))
          ≡ ok psbt)
        q h)
  where
    r : values output ≡ p.recipients_sum
    r = sym (
        plan_lem l w e output change_script rate prev_txid p q
        ∙ mod_lem (values output) (omega arith))
