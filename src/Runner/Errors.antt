-- ===== src/Runner/Errors.antt =====
-- The runner's error type (runner/src/error.rs), with the cases that its own code makes; the errors
-- of other crates are numbers.
use interbtc_clients.Prelude.{ℕ}

pub data Error : Type 0 where
  io_error os_error http_error url_parse_error subxt_error : ℕ → Error
  no_downloaded_release : Error
  child_process_exists : Error
  process_termination_failure : Error
  client_type_parsing_error : Error
  client_name_derivation_error : Error
  incorrect_checksum : Error
