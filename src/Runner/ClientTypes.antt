-- ===== src/Runner/ClientTypes.antt =====
-- The clients that can be run (`ClientType`, runner/src/runner.rs).
use interbtc_clients.Prelude.{◌≡◌, ◌↔◌, refl, if◌then◌else◌, Result, ok, err, arith}
use Prim.Native.String.{String}
use text.Mathlib.Text.{◌==◌ as str_eq}
use text.Mathlib.TextEquality.{eq_iff}
use interbtc_clients.Runner.Errors.{Error, client_type_parsing_error}

pub data ClientType : Type 0 where
  vault oracle faucet : ClientType

-- `fmt`, which `to_string` uses.
unfoldable pub to_string : ClientType → String
to_string ClientType.vault = "vault"
to_string ClientType.oracle = "oracle"
to_string ClientType.faucet = "faucet"

unfoldable pub from_str : String → Result ClientType Error
from_str s =
    if str_eq s "vault"
    then ok ClientType.vault
    else if str_eq s "oracle"
    then ok ClientType.oracle
    else if str_eq s "faucet"
    then ok ClientType.faucet
    else err client_type_parsing_error

from_str-to_string : (t : ClientType) → from_str (to_string t) ≡ ok t
unfolding from_str to_string
from_str-to_string ClientType.vault = refl
from_str-to_string ClientType.oracle = refl
from_str-to_string ClientType.faucet = refl

to_string-from_str : (s : String) (t : ClientType) → from_str s ≡ ok t → to_string t ≡ s
unfolding from_str to_string
to_string-from_str s ClientType.vault e =
    ground (arith, e, eq_iff s "vault", eq_iff s "oracle", eq_iff s "faucet")
to_string-from_str s ClientType.oracle e =
    ground (arith, e, eq_iff s "vault", eq_iff s "oracle", eq_iff s "faucet")
to_string-from_str s ClientType.faucet e =
    ground (arith, e, eq_iff s "vault", eq_iff s "oracle", eq_iff s "faucet")

-- Parsing and printing the type of a client are inverse: a text parses to a type just if it is what
-- the type is printed as.
pub from_str-eq-ok_iff : (s : String) (t : ClientType) → (from_str s ≡ ok t) ↔ (to_string t ≡ s)
from_str-eq-ok_iff s t = (to_string-from_str s t, λ e. rw (← e) (from_str-to_string t))
