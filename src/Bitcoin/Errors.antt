-- ===== src/Bitcoin/Errors.antt =====
-- The error type of the Bitcoin client (bitcoin/src/error.rs). `bitcoincore_rpc` is another crate:
-- of its errors the model keeps the cases that the code tells apart. An RPC code -n is `rpc n`;
-- a code above 0 is no `BitcoinRpcError` and is `rpc 0`, the unknown error, as `From` makes it.
use interbtc_clients.Prelude.{ℕ, Bool, true, false, ◌==◌, ◌||◌}

pub data JsonRpcError : Type 0 where
  transport json : JsonRpcError
  rpc : ℕ → JsonRpcError
  other : JsonRpcError

pub data Error : Type 0 where
  bitcoin_error : JsonRpcError → Error
  conversion_error : Error
  invalid_bitcoin_height : Error
  confirmation_error : Error
  missing_public_key : Error
  other : ℕ → Error

abbrev pub rpc_misc_error : ℕ
rpc_misc_error = 1

abbrev pub rpc_wallet_error : ℕ
rpc_wallet_error = 4

abbrev pub rpc_invalid_address_or_key : ℕ
rpc_invalid_address_or_key = 5

abbrev pub rpc_wallet_insufficient_funds : ℕ
rpc_wallet_insufficient_funds = 6

abbrev pub rpc_verify_rejected : ℕ
rpc_verify_rejected = 26

unfoldable pub is_transport_error : Error → Bool
is_transport_error (Error.bitcoin_error JsonRpcError.transport) = true
is_transport_error _ = false

unfoldable pub rejected_by_network_rules : Error → Bool
rejected_by_network_rules (Error.bitcoin_error (JsonRpcError.rpc c)) = c == rpc_verify_rejected
rejected_by_network_rules _ = false

unfoldable pub could_be_insufficient_funds : Error → Bool
could_be_insufficient_funds (Error.bitcoin_error (JsonRpcError.rpc c)) =
    c == rpc_wallet_error || c == rpc_wallet_insufficient_funds
could_be_insufficient_funds _ = false
