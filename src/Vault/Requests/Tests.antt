-- ===== src/Vault/Requests/Tests.antt =====
-- The theorems on the deadlines, for one replace request (vault/src/execution.rs).
use interbtc_clients.Vault.Requests.{to_sat_per_vbyte, get_fee_rate}
use interbtc_clients.Prelude.{◌≡◌, refl, some, none, ok, err, arith}
use interbtc_clients.Runtime.Requests.{ReplaceRequest, RequestStatus}
use interbtc_clients.Vault.Errors.{deadline_expired}
use interbtc_clients.Vault.Blocks.{parachain_blocks_to_bitcoin_blocks_rounded_up}
use interbtc_clients.Vault.Cancellation.{ActiveRequest, convert}
use interbtc_clients.Vault.Requests.{
  Deadline, Request, replace, calculate_deadline, duration_to_parachain_blocks,
  from_replace_request, ensure_not_expired,
}
use interbtc_clients.Vault.Requests.Deadlines.{cancelled_replace_is_not_paid}

-- A period of 100 blocks is 2 Bitcoin blocks; a margin of a minute is 5 blocks, and 1 of Bitcoin.
abbrev deadline : Deadline
deadline = record { parachain = 1095; bitcoin = 501 }

abbrev replace_request : ReplaceRequest
replace_request = record {
  old_vault = 1;
  accept_time = 1000;
  btc_height = 500;
  period = 100;
  amount = 2000;
  btc_address = 9;
  status = RequestStatus.pending;
}

abbrev cancelled : ActiveRequest
cancelled = record { id = 3; parachain_deadline_height = 1100; bitcoin_deadline_height = 502 }

abbrev request : Request
request = record {
  hash = 3;
  btc_height = some 500;
  deadline = some deadline;
  amount = 2000;
  btc_address = 9;
  request_type = replace;
  vault_id = 1;
  fee_budget = none;
}

cancelled_replace_is_not_paid_example :
    ensure_not_expired (some deadline) (ok 1102) (ok 503) ≡ err deadline_expired
unfolding convert from_replace_request calculate_deadline duration_to_parachain_blocks
    parachain_blocks_to_bitcoin_blocks_rounded_up
cancelled_replace_is_not_paid_example =
    cancelled_replace_is_not_paid 3 replace_request 50 60000 cancelled request 1101 503 1102 503
      refl refl refl (omega arith) (omega arith)

-- 2.5 satoshi per byte are rounded down.
fee_rate_is_rounded_down : get_fee_rate (ok 2500000000000000000) ≡ ok 2
unfolding get_fee_rate to_sat_per_vbyte
fee_rate_is_rounded_down = refl
