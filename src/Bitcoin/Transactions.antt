-- ===== src/Bitcoin/Transactions.antt =====
-- What the clients read from a Bitcoin transaction (`TransactionExt`, bitcoin/src/lib.rs). A script
-- is the list of its bytes. `Payload::from_script` is another crate's and is a parameter.
use interbtc_clients.Prelude.{
  ℕ, zero, suc, ◌+◌, ◌*◌, not, ◌&&◌, Option, none, some, List, [], ◌∷◌, map, length, ltb, ◌==◌,
  if◌then◌else◌, filter_by,
}
use interbtc_clients.Runtime.Requests.{H256}

abbrev pub Script : Type 0
Script = List ℕ

abbrev pub Payload : Type 0
Payload = ℕ

pub record TxOut : Type 0 where
  pub value : ℕ
  pub script_pubkey : Script

pub record Transaction : Type 0 where
  pub txid : ℕ
  pub output : List TxOut

-- `Iterator::find_map`
unfoldable pub find_map {ℓ κ} : {A : Type ℓ} {B : Type κ} → (A → Option B) → List A → Option B
find_map f [] = none
find_map f (x ∷ xs) = let rest = find_map f xs in elim (f x) [ some b ↦ some b | none ↦ rest ]

abbrev take {ℓ} : {A : Type ℓ} → ℕ → List A → List A
take zero xs = []
take (suc n) [] = []
take (suc n) (x ∷ xs) = x ∷ take n xs

-- 34 bytes, the first two OP_RETURN and the length 32.
unfoldable pub op_return_bytes : Script → Option Script
op_return_bytes [] = none
op_return_bytes (a ∷ []) = none
op_return_bytes (a ∷ b ∷ rest) =
    if length rest == 32 && (a == 0x6a && b == 32) then some (a ∷ b ∷ rest) else none

unfoldable pub get_op_return_bytes : Transaction → Option Script
unfolding find_map op_return_bytes
get_op_return_bytes tx = find_map (λ x. op_return_bytes x.script_pubkey) (take 3 tx.output)

abbrev big_endian : ℕ → List ℕ → H256
big_endian acc [] = acc
big_endian acc (b ∷ bytes) = big_endian (acc * 256 + b) bytes

-- `H256::from_slice(&x[2..])`
unfoldable pub from_op_return : Script → H256
from_op_return (a ∷ b ∷ bytes) = big_endian 0 bytes
from_op_return _ = 0

unfoldable pub get_op_return : Transaction → Option H256
unfolding get_op_return_bytes from_op_return
get_op_return tx = elim (get_op_return_bytes tx) [
  | some bytes ↦ some (from_op_return bytes)
  | none ↦ none
]

module _ (from_script : Script → Option Payload) where
  unfoldable pub pay_to : Payload → TxOut → Option ℕ
  pay_to dest out = elim (from_script out.script_pubkey) [
    | none ↦ none
    | some payload ↦ if payload == dest then some out.value else none
  ]

  unfoldable pub get_payment_amount_to : Transaction → Payload → Option ℕ
  unfolding find_map pay_to
  get_payment_amount_to tx dest = find_map (pay_to dest) tx.output

  -- The outputs from index `i` on that are of a value and have an address.
  unfoldable pub indexed_from : ℕ → List TxOut → List (ℕ × Payload)
  indexed_from i [] = []
  indexed_from i (out ∷ outs) =
      let rest = indexed_from (i + 1) outs in
      if ltb 0 out.value
      then elim (from_script out.script_pubkey) [ some payload ↦ (i, payload) ∷ rest | none ↦ rest ]
      else rest

  unfoldable pub extract_indexed_output_addresses : Transaction → List (ℕ × Payload)
  unfolding indexed_from
  extract_indexed_output_addresses tx = indexed_from 0 tx.output

  unfoldable pub extract_output_addresses : Transaction → List Payload
  unfolding extract_indexed_output_addresses
  extract_output_addresses tx = map (λ x. x.1) (extract_indexed_output_addresses tx)

  -- `none` is the error `TooManyReturnToSelfAddresses`.
  unfoldable pub single_address : List (ℕ × Payload) → Option (Option (ℕ × Payload))
  single_address [] = some none
  single_address (x ∷ []) = some (some x)
  single_address (x ∷ y ∷ rest) = none

  unfoldable pub extract_return_to_self_address :
      Transaction → Payload → Option (Option (ℕ × Payload))
  unfolding extract_indexed_output_addresses single_address
  extract_return_to_self_address tx destination =
      single_address
        (filter_by (λ x. not (x.1 == destination)) (extract_indexed_output_addresses tx))
