-- ===== src/Vault/Errors.antt =====
-- The vault's error type (vault/src/error.rs), with the cases that the modelled code makes.
use interbtc_clients.Runtime.Errors.{RuntimeError}
use interbtc_clients.Bitcoin.Errors as BitcoinErrors

pub data Error : Type 0 where
  insufficient_funds : Error
  arithmetic_overflow : Error
  arithmetic_underflow : Error
  try_into_int_error : Error
  deadline_expired : Error
  client_shutdown : Error
  broadcast_stream_recv_error : Error
  -- the errors of the local database and of what is stored in it
  database_error : Error
  wallet_initialization_failure : BitcoinErrors.Error → Error
  bitcoin_error : BitcoinErrors.Error → Error
  runtime_error : RuntimeError → Error
