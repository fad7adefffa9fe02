-- ===== src/Bitcoin/Wallet/Balance.antt =====
-- What the result of a funding is worth (bitcoin/src/light/wallet.rs).
use mathlib.Core.Path.{subst}
use interbtc_clients.Prelude.{
  ℕ, ◌+◌, ◌-◌, ◌≤◌, ◌≡◌, refl, sym, ap, ◌⊎◌, inl, inr, Bool, true, false, List, ◌∷◌, ◌++◌, ltb,
  if◌then◌else◌, sum_of, u64_max, Result, ok, arith,
}
use interbtc_clients.Bitcoin.Transactions.{Script, TxOut}
use interbtc_clients.Bitcoin.Wallet.Sizes.{Library, wrapping_add, wrapping_sub}
use interbtc_clients.Bitcoin.Wallet.Coins.{
  Utxo, Electrs, Error, CoinOutput, get_effective_value, get_selected_value,
  get_selected_effective_value, get_change,
}
use interbtc_clients.Bitcoin.Wallet.{Wallet, Plan, Psbt, Funding, settle, change_outputs, finish}
use interbtc_clients.Bitcoin.Wallet.Sums.{
  sum_of-append, sum_of-snoc, effective_le, mod_lem, wrapping_add_lem, wrapping_sub_lem, coin_value,
}
use interbtc_clients.Bitcoin.Wallet.Inputs.{
  extended, finish_settles, change_of, fee_before_change, with_change,
}

abbrev pub values : List TxOut → ℕ
values = sum_of (λ o. o.value)

module _ (l : Library) (w : Wallet) (e : Electrs) where
  -- The outputs are the given ones and the change; what the inputs exceed them by is the fee, which
  -- pays for what is no input where there is no change; a change is no dust.
  abbrev pub IsBalanced : Plan → List TxOut → Psbt → Type 0
  IsBalanced p output psbt =
      (change fee : ℕ) × (psbt.output ≡ output ++ change_outputs l w e p change)
      × (values psbt.witness_utxos ≡ values psbt.output + fee)
      × (((change ≡ 0) × (p.not_input_fees ≤ fee)) ⊎ (p.min_viable_change ≤ change))

  -- The loop's invariant, for the coins that are left.
  abbrev pub Keeps : Plan → List TxOut → List (Result Utxo Error) → Funding → Type 0
  Keeps p output rest f =
      (f.value_to_select
        ≡ p.recipients_sum
          + p.not_input_fees
          - sum_of get_effective_value f.select_coins.preset_inputs)
      × (f.select_coins.target_value ≡ p.recipients_sum + p.not_input_fees)
      × (values f.psbt.witness_utxos ≡ sum_of (λ c. c.value) f.select_coins.preset_inputs)
      × (f.psbt.output ≡ output)
      × (sum_of (λ c. c.value) f.select_coins.preset_inputs + sum_of coin_value rest ≤ u64_max)

  pub Keeps-extended :
      (p : Plan) (output : List TxOut) (utxo : Utxo) (rest : List (Result Utxo Error)) (f : Funding)
      (coin : CoinOutput) (s : Script)
      → coin.value ≡ utxo.value
      → Keeps p output (ok utxo ∷ rest) f
      → Keeps p output rest (extended utxo coin s f)
  Keeps-extended p output utxo rest f coin s v (a, t, b, o, m) = (
    omega (arith, sum_of-snoc get_effective_value f.select_coins.preset_inputs coin),
    t,
    omega (
      arith,
      sum_of-snoc (λ o. o.value) f.psbt.witness_utxos
          (record { value = utxo.value; script_pubkey = s }),
      sum_of-snoc (λ c. c.value) f.select_coins.preset_inputs coin,
    ),
    o,
    omega (arith, sum_of-snoc (λ c. c.value) f.select_coins.preset_inputs coin),
  )

  pub Keeps-skipped :
      (p : Plan) (output : List TxOut) (utxo : Utxo) (rest : List (Result Utxo Error)) (f : Funding)
      → Keeps p output (ok utxo ∷ rest) f
      → Keeps p output rest f
  Keeps-skipped p output utxo rest f (a, t, b, o, m) = (a, t, b, o, omega arith)

  -- Of the amounts alone: `s` is selected, `r` is paid and `n` is for fees.
  settle_lem :
      (s r n c mvc fee : ℕ)
      → ((c ≡ 0) ⊎ (mvc ≤ c))
      → r + n + c ≤ s
      → s ≤ u64_max
      → let c' = settle l w e c (wrapping_sub (wrapping_sub s r) c) fee in
        (r + c' ≤ s) × (((c' ≡ 0) × (n ≤ s - r - c')) ⊎ (mvc ≤ c'))
  unfolding settle
  settle_lem s r n c mvc fee d h m =
      rw
        (
          wrapping_sub_lem s r (omega arith) m,
          wrapping_sub_lem (s - r) c (omega arith) (omega arith),
        )
        (settled (ltb 0 c) refl (ltb fee (s - r - c)) refl)
    where
      settled :
          (b : Bool)
          → ltb 0 c ≡ b
          → (b' : Bool) → ltb fee (s - r - c) ≡ b'
          → let c' = if b then (if b' then wrapping_add c (s - r - c - fee) else c) else c in
            (r + c' ≤ s) × (((c' ≡ 0) × (n ≤ s - r - c')) ⊎ (mvc ≤ c'))
      settled true q true q' =
          rw (wrapping_add_lem c (s - r - c - fee) (omega arith)) (omega arith, inr (ground arith))
      settled true q false q' = (omega arith, inr (ground arith))
      settled false q b' q' = (omega arith, inl (ground arith, ground arith))

  change_outputs-values : (p : Plan) (c : ℕ) → values (change_outputs l w e p c) ≡ c
  unfolding change_outputs
  change_outputs-values p c = ground arith

  change_of_lem :
      (p : Plan) (f : Funding)
      → sum_of get_effective_value f.select_coins.preset_inputs ≤ u64_max
      → let c = change_of l w e p f in
        ((c ≡ 0) ⊎ (p.min_viable_change ≤ c))
        × (c
            ≤ sum_of get_effective_value f.select_coins.preset_inputs - f.select_coins.target_value)
  unfolding get_change get_selected_effective_value
  change_of_lem p f m =
      rw (mod_lem (sum_of get_effective_value f.select_coins.preset_inputs) m) (ground arith)

  fee_before_change_lem :
      (p : Plan) (f : Funding) (fee : ℕ)
      → f.value_to_select ≡ 0
      → (f.value_to_select
          ≡ p.recipients_sum
            + p.not_input_fees
            - sum_of get_effective_value f.select_coins.preset_inputs)
      → f.select_coins.target_value ≡ p.recipients_sum + p.not_input_fees
      → sum_of (λ c. c.value) f.select_coins.preset_inputs ≤ u64_max
      → let s = sum_of (λ c. c.value) f.select_coins.preset_inputs in
        let c' = settle l w e (change_of l w e p f) (fee_before_change l w e p f) fee in
        (p.recipients_sum + c' ≤ s)
        × (((c' ≡ 0) × (p.not_input_fees ≤ s - p.recipients_sum - c')) ⊎ (p.min_viable_change ≤ c'))
  unfolding get_selected_value
  fee_before_change_lem p f fee z a t m =
      rw (mod_lem (sum_of (λ c. c.value) f.select_coins.preset_inputs) m) (
        settle_lem (sum_of (λ c. c.value) f.select_coins.preset_inputs) p.recipients_sum
          p.not_input_fees (change_of l w e p f) p.min_viable_change fee (change_of_lem p f bound).0
          (omega (arith, (change_of_lem p f bound).1, effective_le f.select_coins.preset_inputs)) m)
    where
      bound : sum_of get_effective_value f.select_coins.preset_inputs ≤ u64_max
      bound = omega (arith, effective_le f.select_coins.preset_inputs)

  with_change-IsBalanced :
      (p : Plan) (output : List TxOut) (rest : List (Result Utxo Error)) (f : Funding) (fee : ℕ)
      → values output ≡ p.recipients_sum
      → f.value_to_select ≡ 0
      → Keeps p output rest f
      → IsBalanced p output (
          with_change l w e p f
            (settle l w e (change_of l w e p f) (fee_before_change l w e p f) fee))
  with_change-IsBalanced p output rest f fee v z (a, t, b, o, m) =
      go (settle l w e (change_of l w e p f) (fee_before_change l w e p f) fee)
        (fee_before_change_lem p f fee z a t (omega arith))
    where
      go :
          (c' : ℕ)
          → let s = sum_of (λ c. c.value) f.select_coins.preset_inputs in
            (p.recipients_sum + c' ≤ s)
              × (((c' ≡ 0) × (p.not_input_fees ≤ s - p.recipients_sum - c'))
                  ⊎ (p.min_viable_change ≤ c'))
            → IsBalanced p output (with_change l w e p f c')
      go c' (h, d) = (
        c',
        sum_of (λ c. c.value) f.select_coins.preset_inputs - p.recipients_sum - c',
        ap (λ x. x ++ change_outputs l w e p c') o,
        omega (
          arith,
          sum_of-append (λ o. o.value) f.psbt.output (change_outputs l w e p c'),
          change_outputs-values p c',
          ap values o,
          v,
          b,
          h,
        ),
        d,
      )

  pub Keeps-IsBalanced :
      (p : Plan) (output : List TxOut) (rest : List (Result Utxo Error)) (f : Funding) (psbt : Psbt)
      → values output ≡ p.recipients_sum
      → f.value_to_select ≡ 0
      → finish l w e p f ≡ ok psbt
      → Keeps p output rest f
      → IsBalanced p output psbt
  Keeps-IsBalanced p output rest f psbt v z h k = go (finish_settles l w e p f psbt h)
    where
      go :
          ((fee : ℕ) × (psbt
              ≡ with_change l w e p f
                  (settle l w e (change_of l w e p f) (fee_before_change l w e p f) fee)))
          → IsBalanced p output psbt
      go (fee, q) =
          subst (IsBalanced p output) (sym q) (with_change-IsBalanced p output rest f fee v z k)
