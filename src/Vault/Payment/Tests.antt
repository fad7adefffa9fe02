-- ===== src/Vault/Payment/Tests.antt =====
-- The theorems on paying, for a payment whose fee is bumped once (vault/src/execution.rs).
use interbtc_clients.Runtime.Errors.{channel_closed}
use interbtc_clients.Runtime.Retry.{skip}
use interbtc_clients.Vault.Payment.{verify_execution}
use interbtc_clients.Runtime.Errors.{is_rpc_disconnect_error, is_invalid_chain_id, is_module_err}
use interbtc_clients.Prelude.{
  ◌≡◌, refl, true, false, some, none, List, [], ◌∷◌, ok, err, arith, ◌+◌,
}
use interbtc_clients.Vault.Requests.{Request, redeem}
use interbtc_clients.Vault.Payment.{
  Environment, FeeUpdate, InclusionEvent, metadata_ready, fee_update, wait_for_inclusion,
  pay_and_execute,
}
use interbtc_clients.Vault.Payment.Bumps.{IsChained, last_txid, IsOf}
use interbtc_clients.Vault.Payment.Inclusion.{wait_for_inclusion_follows_last}
use interbtc_clients.Vault.Payment.Once.{IsSingle, pay_and_execute_pays_once}

abbrev request : Request
request = record {
  hash = 5;
  btc_height = some 10;
  deadline = some (record { parachain = 150; bitcoin = 11 });
  amount = 1000;
  btc_address = 9;
  request_type = redeem;
  vault_id = 1;
  fee_budget = some 5;
}

-- From 2 to 7 satoshi per byte: transaction `t` is replaced by `t + 1`.
abbrev update : FeeUpdate
update = record {
  estimate = some 7000000000000000000;
  fee_rate = λ _. ok 2;
  is_in_mempool = λ _. ok true;
  bump_fee = λ t _ _. ok (t + 1);
}

abbrev events : List InclusionEvent
events =
    fee_update update
    ∷ metadata_ready (λ t. ok (record { txid = t; proof = 4; block_hash = 6; fee = none }))
        (λ _. ok tt)
    ∷ []

abbrev environment : Environment
environment = record {
  active_block_number = ok 150;
  block_count = ok 11;
  bitcoin_fees = ok 2000000000000000000;
  to_address = λ a. ok (a + 100);
  create_and_send = λ _ _ _ _. ok 40;
  inclusion = events;
  execution = λ _ _ _. (record { result = ok tt; next_backoff = false }) ∷ [];
}

wait_for_inclusion_follows_last_example :
    let w = wait_for_inclusion true request environment.to_address 40 events in
    IsChained request environment.to_address events 40 w.effects
    × IsOf (last_txid 40 w.effects) w.progress
wait_for_inclusion_follows_last_example =
    wait_for_inclusion_follows_last true request environment.to_address 40 events
      (tt, (λ t m e. ground arith, tt))

pay_and_execute_pays_once_example :
    IsSingle request
      (record environment { block_count = ok 10 })
      (pay_and_execute request (record environment { block_count = ok 10 }) true)
pay_and_execute_pays_once_example =
    pay_and_execute_pays_once request (record environment { block_count = ok 10 }) true

closed_channel_is_retried : verify_execution (err channel_closed) ≡ err (skip channel_closed)
unfolding verify_execution is_rpc_disconnect_error is_invalid_chain_id is_module_err
closed_channel_is_retried = refl
