-- ===== src/Bitcoin/Wallet/Unused.antt =====
-- The addresses that the wallet does not ask about (bitcoin/src/light/wallet.rs).
use interbtc_clients.Prelude.{ℕ, ◌≡◌, refl, Option, List, [], ◌∷◌, ok, err}
use interbtc_clients.Bitcoin.Transactions.{Script, TxOut}
use interbtc_clients.Bitcoin.Wallet.Sizes.{Library, PublicKey}
use interbtc_clients.Bitcoin.Wallet.Coins.{
  Electrs, Address, not_enough_inputs, available_coins, address_coins,
}
use interbtc_clients.Bitcoin.Wallet.{Wallet, Plan, plan, fund_from, fund_transaction}

-- Where Electrs knows no coin of the first address of the key store, funding a transaction
-- without inputs fails for want of inputs, whatever coins the other addresses have.
pub fund_transaction_stops_at_unused_address :
    (l : Library) (w : Wallet) (e : Electrs) (output : List TxOut) (change_script : Script)
    (rate : ℕ) (prev_txid : Option ℕ) (p : Plan) (a : Address) (key : PublicKey)
    (keys : List (Address × PublicKey))
    → w.key_store ≡ (a, key) ∷ keys
    → e.get_utxos_for_address a ≡ ok []
    → plan l w e output change_script rate prev_txid ≡ ok p
    → fund_transaction l w e [] output change_script rate prev_txid ≡ err not_enough_inputs
unfolding fund_transaction fund_from available_coins address_coins
fund_transaction_stops_at_unused_address l w e output change_script rate prev_txid p a key keys k u
      q =
    rw (q, k, u) refl
