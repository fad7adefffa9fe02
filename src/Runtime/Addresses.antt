-- ===== src/Runtime/Addresses.antt =====
-- The parachain's Bitcoin addresses and the payloads of Bitcoin's (runtime/src/addr.rs). The
-- scripts and `Payload::from_script` are another crate's: an interface with the laws that are
-- relied on. A hash is the list of its bytes.
mod Tests
use interbtc_clients.Prelude.{
  ℕ, ◌≡◌, refl, ap, ◌∙◌, Bool, true, false, List, length, ◌==◌, if◌then◌else◌, Result, ok, err,
  arith,
}

abbrev pub Bytes : Type 0
Bytes = List ℕ

pub data ConversionError : Type 0 where
  invalid_format invalid_payload hashes_error : ConversionError

pub data Payload : Type 0 where
  pubkey_hash : Bytes → Payload
  script_hash : Bytes → Payload
  -- version and program
  witness_program : ℕ → Bytes → Payload

pub data BtcAddress : Type 0 where
  p2pkh : Bytes → BtcAddress
  p2sh : Bytes → BtcAddress
  p2wpkhv0 : Bytes → BtcAddress
  p2wshv0 : Bytes → BtcAddress

-- What `ScriptBuf` and `Payload` offer.
pub record Scripts : Type 1 where
  pub Script : Type 0
  pub new_p2pkh : Bytes → Script
  pub new_p2sh : Bytes → Script
  pub new_v0_p2wpkh : Bytes → Script
  pub new_v0_p2wsh : Bytes → Script
  pub from_script : Script → Result Payload ConversionError
  pub from_new_p2pkh : (h : Bytes) → length h ≡ 20 → from_script (new_p2pkh h) ≡ ok (pubkey_hash h)
  pub from_new_p2sh : (h : Bytes) → length h ≡ 20 → from_script (new_p2sh h) ≡ ok (script_hash h)
  pub from_new_v0_p2wpkh :
      (h : Bytes) → length h ≡ 20 → from_script (new_v0_p2wpkh h) ≡ ok (witness_program 0 h)
  pub from_new_v0_p2wsh :
      (h : Bytes) → length h ≡ 32 → from_script (new_v0_p2wsh h) ≡ ok (witness_program 0 h)

unfoldable pub from_payload : Payload → Result BtcAddress ConversionError
from_payload (pubkey_hash h) = ok (p2pkh h)
from_payload (script_hash h) = ok (p2sh h)
from_payload (witness_program version program) =
    if length program == 20 then ok (p2wpkhv0 program) else err invalid_payload

-- The hash types are made of slices of this length.
abbrev hash_from_slice : ℕ → Bytes → Result Bytes ConversionError
hash_from_slice n h = if length h == n then ok h else err hashes_error

pub record Address : Type 0 where
  pub network : ℕ
  pub payload : Payload

module _ (scripts : Scripts) where
  unfoldable pub script_of : BtcAddress → Result scripts.Script ConversionError
  script_of (p2pkh h) = elim (hash_from_slice 20 h) [
    | ok x ↦ ok (scripts.new_p2pkh x)
    | err e ↦ err e
  ]
  script_of (p2sh h) = elim (hash_from_slice 20 h) [
    | ok x ↦ ok (scripts.new_p2sh x)
    | err e ↦ err e
  ]
  script_of (p2wpkhv0 h) = elim (hash_from_slice 20 h) [
    | ok x ↦ ok (scripts.new_v0_p2wpkh x)
    | err e ↦ err e
  ]
  script_of (p2wshv0 h) = elim (hash_from_slice 32 h) [
    | ok x ↦ ok (scripts.new_v0_p2wsh x)
    | err e ↦ err e
  ]

  unfoldable pub to_payload : BtcAddress → Result Payload ConversionError
  unfolding script_of
  to_payload a = elim (script_of a) [ ok script ↦ scripts.from_script script | err e ↦ err e ]

  unfoldable pub to_address : BtcAddress → ℕ → Result Address ConversionError
  unfolding to_payload
  to_address a network = elim (to_payload a) [
    | ok payload ↦ ok (record { network = network; payload = payload })
    | err e ↦ err e
  ]

unfoldable pub from_address : Address → Result BtcAddress ConversionError
from_address a = from_payload a.payload

-- The lengths of the parachain's hash types.
abbrev pub IsValid : BtcAddress → Type 0
IsValid (p2pkh h) = length h ≡ 20
IsValid (p2sh h) = length h ≡ 20
IsValid (p2wpkhv0 h) = length h ≡ 20
IsValid (p2wshv0 h) = length h ≡ 32

-- What comes back of an address.
abbrev pub returned : BtcAddress → Result BtcAddress ConversionError
returned (p2wshv0 h) = err invalid_payload
returned a = ok a

payload_round_trip :
    (scripts : Scripts) (a : BtcAddress)
    → IsValid a
    → (p : Payload) × (to_payload scripts a ≡ ok p) × (from_payload p ≡ returned a)
unfolding to_payload from_payload
payload_round_trip scripts (p2pkh h) v =
    (pubkey_hash h, ground (arith, v, scripts.from_new_p2pkh h v), refl)
payload_round_trip scripts (p2sh h) v =
    (script_hash h, ground (arith, v, scripts.from_new_p2sh h v), refl)
payload_round_trip scripts (p2wpkhv0 h) v =
    (witness_program 0 h, ground (arith, v, scripts.from_new_v0_p2wpkh h v), ground (arith, v))
payload_round_trip scripts (p2wshv0 h) v =
    (witness_program 0 h, ground (arith, v, scripts.from_new_v0_p2wsh h v), ground (arith, v))

-- Given what the scripts of Bitcoin promise, each of the parachain's addresses with a hash of its
-- length becomes a Bitcoin address of the given network, and comes back as it was: all but the
-- version 0 script hash, which becomes an address that is refused as an invalid payload.
pub to_address_round_trip :
    (scripts : Scripts) (a : BtcAddress) (network : ℕ)
    → IsValid a
    → (b : Address) × (to_address scripts a network ≡ ok b)
      × (b.network ≡ network)
      × (from_address b ≡ returned a)
unfolding to_address from_address
to_address_round_trip scripts a network v =
    let (p, e, f) = payload_round_trip scripts a v in
    (record { network = network; payload = p }, ground (arith, e), refl, f)
