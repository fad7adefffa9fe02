-- ===== src/Bitcoin/Wallet/Enough.antt =====
-- When funding a transaction succeeds (bitcoin/src/light/wallet.rs).
use mathlib.Core.Path.{subst}
use interbtc_clients.Prelude.{
  ℕ, Option, ◌+◌, ◌-◌, ◌≤◌, ◌≡◌, refl, sym, Bool, true, false, not, List, [], ◌∷◌, ◌++◌, map,
  length, ◌==◌, filter_by, sum_of, Result, ok, err, ◌>>=◌, All, All-append, arith, length-append,
  if◌then◌else◌,
}
use interbtc_clients.Bitcoin.Transactions.{Script, TxOut}
use interbtc_clients.Bitcoin.Wallet.Sizes.{
  Library, TxIn, PublicKey, calculate_maximum_signed_input_size, default_txin, dummy_sign_input,
}
use interbtc_clients.Bitcoin.Wallet.Coins.{Utxo, Electrs, Error, get_fee, available_coins}
use interbtc_clients.Bitcoin.Wallet.{
  Wallet, Plan, Psbt, Funding, is_skipped, add_coin, finish, fund_from, plan, selection_target,
  start_funding, fund_transaction, get_pub_key, expect_key, dummy_sign_all,
  calculate_maximum_signed_tx_size,
}
use interbtc_clients.Bitcoin.Wallet.Inputs.{extended, with_change, change_of}

bind_ok :
    (r : Result ℕ Error) (g : ℕ → Psbt)
    → ((n : ℕ) × (r ≡ ok n))
    → (psbt : Psbt) × ((r >>= λ n. ok (g n)) ≡ ok psbt)
bind_ok r g (n, h) = (g n, ground (arith, h))

module _ (l : Library) (w : Wallet) (e : Electrs) (p : Plan) where
  -- Electrs knows the coin's script, and the wallet has the key for it.
  abbrev pub IsOwned : Utxo → Type 0
  IsOwned utxo =
      (s : Script) × ((key : PublicKey) × (e.get_script_pubkey utxo.outpoint ≡ ok s)
        × (get_pub_key w s ≡ ok key))

  abbrev pub key_of : Utxo → Result PublicKey Error
  key_of utxo = e.get_script_pubkey utxo.outpoint >>= get_pub_key w

  -- What the coin is worth, less the fee for spending it with a key.
  abbrev worth_with : Utxo → Result PublicKey Error → ℕ
  worth_with utxo (ok key) =
      utxo.value - get_fee p.feerate (calculate_maximum_signed_input_size l utxo.outpoint key)
  worth_with utxo (err _) = 0

  abbrev pub worth : Utxo → ℕ
  worth utxo = worth_with utxo (key_of utxo)

  abbrev HasKey : TxOut → Type 0
  HasKey out = (key : PublicKey) × (get_pub_key w out.script_pubkey ≡ ok key)

  abbrev IsSignable : Funding → Type 0
  IsSignable f =
      All HasKey f.psbt.witness_utxos × (length f.psbt.input ≡ length f.psbt.witness_utxos)

  dummy_sign_all_succeeds :
      (ins : List TxIn) (outs : List TxOut)
      → All HasKey outs
      → length ins ≡ length outs
      → (signed : List TxIn) × (dummy_sign_all l w ins outs ≡ ok signed)
  unfolding dummy_sign_all expect_key
  dummy_sign_all_succeeds [] outs h k = ([], refl)
  dummy_sign_all_succeeds (x ∷ ins) [] h k = absurd (omega (arith, k))
  dummy_sign_all_succeeds (x ∷ ins) (out ∷ outs) ((key, q), h) k =
      let (signed, r) = dummy_sign_all_succeeds ins outs h (omega (arith, k)) in
      (dummy_sign_input x key ∷ signed, ground (arith, q, r))

  calculate_maximum_signed_tx_size_succeeds :
      (f : Funding) (amount : ℕ)
      → IsSignable f
      → (n : ℕ) × (calculate_maximum_signed_tx_size l (with_change l w e p f amount) w ≡ ok n)
  unfolding calculate_maximum_signed_tx_size
  calculate_maximum_signed_tx_size_succeeds f amount (h, k) =
      let (signed, r) = dummy_sign_all_succeeds f.psbt.input f.psbt.witness_utxos h k in
      (l.to_vbytes_ceil signed (with_change l w e p f amount).output, ground (arith, r))

  finish_succeeds : (f : Funding) → IsSignable f → (psbt : Psbt) × (finish l w e p f ≡ ok psbt)
  unfolding finish
  finish_succeeds f h =
      bind_ok (calculate_maximum_signed_tx_size l (with_change l w e p f (change_of l w e p f)) w) _
        (calculate_maximum_signed_tx_size_succeeds f (change_of l w e p f) h)

  add_coin_succeeds :
      (utxo : Utxo) (f : Funding)
      → IsOwned utxo
      → IsSignable f
      → (f' : Funding) × (add_coin l w e p utxo f ≡ ok f')
        × IsSignable f'
        × (f'.value_to_select ≡ f.value_to_select - worth utxo)
  unfolding add_coin expect_key
  add_coin_succeeds utxo f (s, (key, q, r)) (h, k) = (
    extended utxo
        (record {
          value = utxo.value;
          fee = get_fee p.feerate (calculate_maximum_signed_input_size l utxo.outpoint key);
        })
        s f,
    ground (arith, q, r),
    (
      All-append HasKey f.psbt.witness_utxos _ h ((key, r), tt),
      omega (
        arith,
        k,
        length-append f.psbt.input (default_txin utxo.outpoint ∷ []),
        length-append f.psbt.witness_utxos
            ((record { value = utxo.value; script_pubkey = s }) ∷ []),
      ),
    ),
    sym (
        subst
          (λ x.
            f.value_to_select - worth_with utxo x ≡ f.value_to_select - worth_with utxo (ok key))
          (sym (subst (λ x. (x >>= get_pub_key w) ≡ ok key) (sym q) r)) refl),
  )

  abbrev pub unskipped : List Utxo → List Utxo
  unskipped coins = filter_by (λ utxo. not (is_skipped l w e p utxo)) coins

  -- Where the coins that are not skipped are worth the value to select, the loop finds it.
  fund_from_succeeds :
      (coins : List Utxo) (later : List (Result Utxo Error)) (f : Funding)
      → All IsOwned coins
      → IsSignable f
      → 1 ≤ f.value_to_select
      → f.value_to_select ≤ sum_of worth (unskipped coins)
      → (psbt : Psbt) × (fund_from l w e p (map ok coins ++ later) f ≡ ok psbt)
  unfolding fund_from
  fund_from_succeeds [] later f o i m n = absurd (omega (arith, m, n))
  fund_from_succeeds (utxo ∷ coins) later f (o, os) i m n =
      go (is_skipped l w e p utxo) n (fund_from_succeeds coins later)
    where
      rest : List (Result Utxo Error)
      rest = map ok coins ++ later

      added :
          (f' : Funding) (b : Bool)
          → (f'.value_to_select == 0) ≡ b
          → IsSignable f'
          → f'.value_to_select ≤ sum_of worth (unskipped coins)
          → (All IsOwned coins
              → IsSignable f'
              → 1 ≤ f'.value_to_select
              → f'.value_to_select ≤ sum_of worth (unskipped coins)
              → (psbt : Psbt) × (fund_from l w e p rest f' ≡ ok psbt))
          → (psbt : Psbt) × (elim b [ true ↦ finish l w e p f' | false ↦ fund_from l w e p rest f' ]
              ≡ ok psbt)
      added f' true q j k rec = finish_succeeds f' j
      added f' false q j k rec = rec os j (ground (arith, q)) k

      adding :
          ((f' : Funding) × (add_coin l w e p utxo f ≡ ok f')
            × IsSignable f'
            × (f'.value_to_select ≡ f.value_to_select - worth utxo))
          → f.value_to_select ≤ worth utxo + sum_of worth (unskipped coins)
          → ((f' : Funding)
              → All IsOwned coins
              → IsSignable f'
              → 1 ≤ f'.value_to_select
              → f'.value_to_select ≤ sum_of worth (unskipped coins)
              → (psbt : Psbt) × (fund_from l w e p rest f' ≡ ok psbt))
          → (psbt : Psbt) × ((add_coin l w e p utxo f >>= λ f'. elim (f'.value_to_select == 0) [
            | true ↦ finish l w e p f'
            | false ↦ fund_from l w e p rest f'
          ])
              ≡ ok psbt)
      adding (f', q, j, v) k rec =
          subst
            (λ r.
              (psbt : Psbt) × ((r >>= λ f''. elim (f''.value_to_select == 0) [
                | true ↦ finish l w e p f''
                | false ↦ fund_from l w e p rest f''
              ])
                ≡ ok psbt))
            (sym q) (added f' (f'.value_to_select == 0) refl j (omega (arith, v, k)) (rec f'))

      go :
          (b : Bool)
          → f.value_to_select
            ≤ sum_of worth (if not b then utxo ∷ unskipped coins else unskipped coins)
          → ((f' : Funding)
              → All IsOwned coins
              → IsSignable f'
              → 1 ≤ f'.value_to_select
              → f'.value_to_select ≤ sum_of worth (unskipped coins)
              → (psbt : Psbt) × (fund_from l w e p rest f' ≡ ok psbt))
          → (psbt : Psbt) × (elim b [
            | true ↦ fund_from l w e p rest f
            | false ↦ add_coin l w e p utxo f >>= λ f'. elim (f'.value_to_select == 0) [
              | true ↦ finish l w e p f'
              | false ↦ fund_from l w e p rest f'
            ]
          ]
              ≡ ok psbt)
      go true k rec = rec f os i m k
      go false k rec = adding (add_coin_succeeds utxo f o i) k rec

-- Funding a transaction succeeds if the wallet has the key of the change's address, so that there
-- is a plan, the sum that is to be selected for the outputs and the fee of the transaction without
-- inputs is not 0, and the stream of available coins, which may end early, starts with coins that
-- the wallet has the keys for, of which those that are not skipped are worth this sum, each less
-- the fee for spending it; what the stream yields after them does not matter.
pub fund_transaction_succeeds :
    (l : Library) (w : Wallet) (e : Electrs) (prev_inputs : List TxIn) (output : List TxOut)
    (change_script : Script) (rate : ℕ) (prev_txid : Option ℕ) (p : Plan) (coins : List Utxo)
    (later : List (Result Utxo Error))
    → plan l w e output change_script rate prev_txid ≡ ok p
    → available_coins e prev_inputs (map (λ x. x.0) w.key_store) ≡ map ok coins ++ later
    → All (IsOwned l w e p) coins
    → 1 ≤ selection_target p
    → selection_target p ≤ sum_of (worth l w e p) (unskipped l w e p coins)
    → (psbt : Psbt) × (fund_transaction l w e prev_inputs output change_script rate prev_txid
        ≡ ok psbt)
unfolding fund_transaction start_funding
fund_transaction_succeeds l w e prev_inputs output change_script rate prev_txid p coins later q s o
      m n =
    subst
      (λ r.
        (psbt : Psbt) × ((r >>= λ p'.
        fund_from l w e p' (available_coins e prev_inputs (map (λ x. x.0) w.key_store))
          (start_funding l w e p' output))
          ≡ ok psbt))
      (sym q)
      (subst (λ c. (psbt : Psbt) × (fund_from l w e p c (start_funding l w e p output) ≡ ok psbt))
        (sym s)
        (fund_from_succeeds l w e p coins later (start_funding l w e p output) o (tt, refl) m n))
