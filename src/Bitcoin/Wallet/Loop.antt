-- ===== src/Bitcoin/Wallet/Loop.antt =====
-- Invariants of the loop that looks for coins (bitcoin/src/light/wallet.rs).
use interbtc_clients.Prelude.{
  ◌≡◌, refl, Bool, true, false, List, [], ◌∷◌, ◌==◌, Result, ok, err, ◌>>=◌, arith,
}
use interbtc_clients.Bitcoin.Wallet.Sizes.{Library}
use interbtc_clients.Bitcoin.Wallet.Coins.{Utxo, Electrs, Error}
use interbtc_clients.Bitcoin.Wallet.{
  Wallet, Plan, Psbt, Funding, is_skipped, add_coin, finish, fund_from,
}

module _ {ℓ} (l : Library) (w : Wallet) (e : Electrs) (p : Plan)
    (I : List (Result Utxo Error) → Funding → Type ℓ) (Q : Psbt → Type ℓ)
    (skips : (utxo : Utxo) (rest : List (Result Utxo Error)) (f : Funding)
      → I (ok utxo ∷ rest) f
      → I rest f)
    (adds : (utxo : Utxo) (rest : List (Result Utxo Error)) (f f' : Funding)
      → is_skipped l w e p utxo ≡ false
      → add_coin l w e p utxo f ≡ ok f'
      → I (ok utxo ∷ rest) f
      → I rest f')
    (ends : (rest : List (Result Utxo Error)) (f : Funding) (psbt : Psbt)
      → f.value_to_select ≡ 0
      → finish l w e p f ≡ ok psbt
      → I rest f
      → Q psbt) where
  -- An invariant that skipping and adding keep holds when the loop finishes.
  pub fund_from_keeps :
      (coins : List (Result Utxo Error)) (f : Funding) (psbt : Psbt)
      → I coins f
      → fund_from l w e p coins f ≡ ok psbt
      → Q psbt
  unfolding fund_from
  fund_from_keeps [] f psbt i h = ground arith
  fund_from_keeps (err _ ∷ coins) f psbt i h = ground arith
  fund_from_keeps (ok utxo ∷ coins) f psbt i h =
      go (is_skipped l w e p utxo) refl (fund_from_keeps coins) h
    where
      added :
          (f' : Funding) (b : Bool)
          → (f'.value_to_select == 0) ≡ b
          → I coins f'
          → (I coins f' → fund_from l w e p coins f' ≡ ok psbt → Q psbt)
          → elim b [ true ↦ finish l w e p f' | false ↦ fund_from l w e p coins f' ] ≡ ok psbt
          → Q psbt
      added f' true q j rec k = ends coins f' psbt (ground arith) k j
      added f' false q j rec k = rec j k

      adding :
          (r : Result Funding Error)
          → add_coin l w e p utxo f ≡ r
          → is_skipped l w e p utxo ≡ false
          → ((f' : Funding) → I coins f' → fund_from l w e p coins f' ≡ ok psbt → Q psbt)
          → (r >>= λ f'. elim (f'.value_to_select == 0) [
            | true ↦ finish l w e p f'
            | false ↦ fund_from l w e p coins f'
          ])
            ≡ ok psbt
          → Q psbt
      adding (err x) q s rec k = ground arith
      adding (ok f') q s rec k =
          added f' (f'.value_to_select == 0) refl (adds utxo coins f f' s q i) (rec f') k

      go :
          (b : Bool)
          → is_skipped l w e p utxo ≡ b
          → ((f' : Funding) (psbt' : Psbt)
              → I coins f'
              → fund_from l w e p coins f' ≡ ok psbt'
              → Q psbt')
          → elim b [
            | true ↦ fund_from l w e p coins f
            | false ↦ add_coin l w e p utxo f >>= λ f'. elim (f'.value_to_select == 0) [
              | true ↦ finish l w e p f'
              | false ↦ fund_from l w e p coins f'
            ]
          ]
            ≡ ok psbt
          → Q psbt
      go true s rec k = rec f psbt (skips utxo coins f i) k
      go false s rec k = adding (add_coin l w e p utxo f) refl s (λ f'. rec f' psbt) k
