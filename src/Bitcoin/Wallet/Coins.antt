-- ===== src/Bitcoin/Wallet/Coins.antt =====
-- Fee rates, the selection of coins and the stream of the available ones
-- (bitcoin/src/light/wallet.rs).
use interbtc_clients.Prelude.{
  ℕ, ◌+◌, ◌-◌, ◌*◌, ◌/◌, leb, ltb, if◌then◌else◌, List, [], ◌∷◌, ◌++◌, map, u64_max, Result, ok,
  err,
}
use interbtc_clients.Bitcoin.Transactions.{Script, TxOut}
use interbtc_clients.Bitcoin.Wallet.Sizes.{OutPoint, TxIn, Library, get_serialize_size, sum_u64}

-- `panicked` is the panic of an `expect`.
pub data Error : Type 0 where
  no_private_key not_enough_inputs invalid_address panicked : Error
  electrs_error : ℕ → Error

abbrev pub Address : Type 0
Address = ℕ

pub record Utxo : Type 0 where
  pub outpoint : OutPoint
  pub value : ℕ

-- The Electrs server's answers.
pub record Electrs : Type 0 where
  pub get_prev_value : OutPoint → Result ℕ Error
  pub get_utxos_for_address : Address → Result (List Utxo) Error
  pub get_script_pubkey : OutPoint → Result Script Error

pub record FeeRate : Type 0 where
  pub n_satoshis_per_k : ℕ

abbrev saturating_mul : ℕ → ℕ → ℕ
saturating_mul a b = if leb (a * b) u64_max then a * b else u64_max

unfoldable pub get_fee : FeeRate → ℕ → ℕ
get_fee r num_bytes = (saturating_mul r.n_satoshis_per_k num_bytes + 999) / 1000

abbrev pub dust_relay_tx_fee : FeeRate
dust_relay_tx_fee = record { n_satoshis_per_k = 3000 }

pub record CoinOutput : Type 0 where
  pub value : ℕ
  pub fee : ℕ

-- The output's value less the fees for spending it.
abbrev pub get_effective_value : CoinOutput → ℕ
get_effective_value c = c.value - c.fee

pub record SelectCoins : Type 0 where
  pub preset_inputs : List CoinOutput
  pub target_value : ℕ

abbrev pub add : SelectCoins → CoinOutput → SelectCoins
add s c = record { preset_inputs = s.preset_inputs ++ c ∷ []; target_value = s.target_value }

unfoldable pub get_selected_value : SelectCoins → ℕ
get_selected_value s = sum_u64 (λ c. c.value) s.preset_inputs

unfoldable pub get_selected_effective_value : SelectCoins → ℕ
get_selected_effective_value s = sum_u64 get_effective_value s.preset_inputs

unfoldable pub get_change : SelectCoins → ℕ → ℕ → ℕ
get_change s min_viable_change change_fee =
    let change = get_selected_effective_value s - s.target_value - change_fee in
    if ltb change min_viable_change then 0 else change

unfoldable pub get_dust_threshold : Library → TxOut → FeeRate → ℕ
get_dust_threshold l out fee = get_fee fee (
    get_serialize_size l out
    + (if l.is_witness_program out.script_pubkey
        then 32 + 4 + 1 + 107 / 4 + 4
        else 32 + 4 + 1 + 107 + 4))

module _ (e : Electrs) where
  -- The coins of the addresses: the stream ends at the first address without one.
  unfoldable pub address_coins : List Address → List (Result Utxo Error)
  address_coins [] = []
  address_coins (a ∷ addresses) =
      let rest = address_coins addresses in
      elim (e.get_utxos_for_address a) [
        | ok [] ↦ []
        | ok (utxo ∷ utxos) ↦ map ok (utxo ∷ utxos) ++ rest
        | err x ↦ err x ∷ rest
      ]

  unfoldable pub input_coin : TxIn → Result Utxo Error
  input_coin txin = elim (e.get_prev_value txin.previous_output) [
    | ok value ↦ ok (record { outpoint = txin.previous_output; value = value })
    | err x ↦ err x
  ]

  -- The whole stream: the coins of the given inputs, then those of the addresses.
  unfoldable pub available_coins : List TxIn → List Address → List (Result Utxo Error)
  unfolding address_coins input_coin
  available_coins tx_inputs addresses = map input_coin tx_inputs ++ address_coins addresses
