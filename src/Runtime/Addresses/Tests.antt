-- ===== src/Runtime/Addresses/Tests.antt =====
-- Addresses and payloads, for scripts that are a tag and a hash (runtime/src/addr.rs).
use interbtc_clients.Prelude.{ℕ, zero, suc, ◌≡◌, refl, [], ◌∷◌, Result, ok, err}
use interbtc_clients.Runtime.Addresses.{
  Bytes, ConversionError, Payload, p2pkh, Scripts, from_payload, to_payload, script_of, to_address,
  from_address, Address, to_address_round_trip, pubkey_hash, script_hash, witness_program,
  invalid_payload,
}

data TaggedScript : Type 0 where
  tagged : ℕ → Bytes → TaggedScript

abbrev from_script : TaggedScript → Result Payload ConversionError
from_script (tagged zero h) = ok (pubkey_hash h)
from_script (tagged (suc zero) h) = ok (script_hash h)
from_script (tagged (suc (suc n)) h) = ok (witness_program n h)

abbrev scripts : Scripts
scripts = record {
  Script = TaggedScript;
  new_p2pkh = tagged 0;
  new_p2sh = tagged 1;
  new_v0_p2wpkh = tagged 2;
  new_v0_p2wsh = tagged 2;
  from_script = from_script;
  from_new_p2pkh = λ h e. refl;
  from_new_p2sh = λ h e. refl;
  from_new_v0_p2wpkh = λ h e. refl;
  from_new_v0_p2wsh = λ h e. refl;
}

abbrev repeat : ℕ → Bytes
repeat zero = []
repeat (suc n) = 7 ∷ repeat n

whole :
    to_address scripts (p2pkh (repeat 20)) 3
    ≡ ok (record { network = 3; payload = pubkey_hash (repeat 20) })
unfolding to_address to_payload script_of
whole = refl

refused :
    from_address (record { network = 3; payload = witness_program 0 (repeat 32) })
    ≡ err invalid_payload
unfolding from_address from_payload
refused = refl

to_address_round_trip_example :
    (b : Address) × (to_address scripts (p2pkh (repeat 20)) 3 ≡ ok b)
    × (b.network ≡ 3)
    × (from_address b ≡ ok (p2pkh (repeat 20)))
to_address_round_trip_example = to_address_round_trip scripts (p2pkh (repeat 20)) 3 refl
