-- ===== src/Bitcoin/Wallet/Sizes.antt =====
-- The sizes of inputs and outputs, from which fees follow (bitcoin/src/light/wallet.rs).
use interbtc_clients.Prelude.{
  ℕ, zero, suc, ◌+◌, ◌-◌, ◌*◌, ◌/◌, ◌%◌, Bool, List, [], ◌∷◌, ◌++◌, length, sum_of, u64_max,
}
use interbtc_clients.Bitcoin.Transactions.{Script, TxOut}

abbrev pub PublicKey : Type 0
PublicKey = List ℕ

pub record OutPoint : Type 0 where
  pub txid : ℕ
  pub vout : ℕ

-- The sequence number is the same for all inputs and is left out.
pub record TxIn : Type 0 where
  pub previous_output : OutPoint
  pub script_sig : Script
  pub witness : List (List ℕ)

-- What the `bitcoin` crate computes: `VarInt(n).len()`, `Script::is_witness_program` and
-- `tx.weight().to_vbytes_ceil()`.
pub record Library : Type 0 where
  pub varint_len : ℕ → ℕ
  pub is_witness_program : Script → Bool
  pub to_vbytes_ceil : List TxIn → List TxOut → ℕ

-- Sums and differences in `u64`.
abbrev pub sum_u64 {ℓ} : {A : Type ℓ} → (A → ℕ) → List A → ℕ
sum_u64 f xs = sum_of f xs % (u64_max + 1)

abbrev pub wrapping_add : ℕ → ℕ → ℕ
wrapping_add a b = (a + b) % (u64_max + 1)

abbrev pub wrapping_sub : ℕ → ℕ → ℕ
wrapping_sub a b = (a + (u64_max + 1 - b)) % (u64_max + 1)

-- `TxOut::get_serialize_size`
unfoldable pub get_serialize_size : Library → TxOut → ℕ
get_serialize_size l out = 8 + l.varint_len (length out.script_pubkey) + length out.script_pubkey

unfoldable pub input_serialize_size : Library → TxIn → ℕ
input_serialize_size l txin =
    32 + 4 + 4 + l.varint_len (length txin.script_sig) + length txin.script_sig

unfoldable pub witness_serialize_size : Library → List (List ℕ) → ℕ
witness_serialize_size l elems =
    l.varint_len (length elems) + sum_of (λ elem. l.varint_len (length elem) + length elem) elems

abbrev pub default_txin : OutPoint → TxIn
default_txin o = record { previous_output = o; script_sig = []; witness = [] }

abbrev replicate : ℕ → ℕ → List ℕ
replicate zero x = []
replicate (suc n) x = x ∷ replicate n x

-- The DER encoding of a signature with 33 and 32 bytes, then the sighash type `All`.
unfoldable pub dummy_signature : List ℕ
dummy_signature =
    (0x30 ∷ 69 ∷ 0x02 ∷ 33 ∷ 0x01 ∷ [])
    ++ replicate 32 0
    ++ (0x02 ∷ 32 ∷ 0x01 ∷ [])
    ++ replicate 31 0
    ++ 1 ∷ []

unfoldable pub dummy_sign_input : TxIn → PublicKey → TxIn
unfolding dummy_signature
dummy_sign_input txin public_key = record {
  previous_output = txin.previous_output;
  script_sig = txin.script_sig;
  witness = dummy_signature ∷ public_key ∷ [];
}

abbrev witness_scale_factor : ℕ
witness_scale_factor = 4

unfoldable pub get_transaction_input_weight : Library → TxIn → ℕ
unfolding input_serialize_size witness_serialize_size
get_transaction_input_weight l txin =
    input_serialize_size l txin * (witness_scale_factor - 1)
    + input_serialize_size l txin
    + witness_serialize_size l txin.witness

unfoldable pub get_virtual_transaction_size : ℕ → ℕ
get_virtual_transaction_size n_weight = (n_weight + witness_scale_factor - 1) / witness_scale_factor

unfoldable pub calculate_maximum_signed_input_size : Library → OutPoint → PublicKey → ℕ
unfolding dummy_sign_input get_transaction_input_weight get_virtual_transaction_size
calculate_maximum_signed_input_size l outpoint public_key =
    get_virtual_transaction_size
      (get_transaction_input_weight l (dummy_sign_input (default_txin outpoint) public_key))
