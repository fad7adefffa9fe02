-- ===== src/Vault/OpenRequests/Tests.antt =====
-- The theorems on the start-up, for one redeem request that was paid on the chain
-- (vault/src/execution.rs).
use interbtc_clients.Prelude.{
  ℕ, ◌≡◌, ◌≤◌, refl, true, some, none, inl, List, [], ◌∷◌, ◌++◌, ◌==◌, if◌then◌else◌, length, ok,
  err, All,
}
use interbtc_clients.Runtime.Requests.{RedeemRequest, RequestStatus}
use interbtc_clients.Bitcoin.Errors as BitcoinErrors
use interbtc_clients.Bitcoin.Transactions.{
  Transaction, find_map, op_return_bytes, get_op_return_bytes, from_op_return, get_op_return,
  pay_to, get_payment_amount_to,
}
use interbtc_clients.Vault.Blocks.{parachain_blocks_to_bitcoin_blocks_rounded_up}
use interbtc_clients.Vault.Requests.{
  Request, redeem, calculate_deadline, duration_to_parachain_blocks, from_redeem_request,
}
use interbtc_clients.Vault.OpenRequests.{
  Answers, collect_into, insert, lookup, read_requests, open_requests, btc_start_height,
  request_of_hash, paid_in_full, get_request_for_btc_tx, execute_open_requests,
}
use interbtc_clients.Vault.OpenRequests.Counts.{count_open, count_handled}
use interbtc_clients.Vault.OpenRequests.Handled.{handled_at_most_once}
use interbtc_clients.Vault.OpenRequests.Complete.{handled_exactly_once}
use interbtc_clients.Vault.OpenRequests.Scan.{DoesNotPay}
use interbtc_clients.Vault.OpenRequests.Paid.{found_payment_is_not_repeated}

abbrev redeem_5 : RedeemRequest
redeem_5 = record {
  vault = 1;
  opentime = 100;
  btc_height = 10;
  period = 50;
  amount_btc = 1000;
  transfer_fee_btc = 5;
  btc_address = 9;
  status = RequestStatus.pending;
}

abbrev request_5 : Request
request_5 = record {
  hash = 5;
  btc_height = some 10;
  deadline = some (record { parachain = 150; bitcoin = 11 });
  amount = 1000;
  btc_address = 9;
  request_type = redeem;
  vault_id = 1;
  fee_budget = some 5;
}

abbrev zeros : List ℕ
zeros =
    0 ∷ 0 ∷ 0 ∷ 0 ∷ 0 ∷ 0 ∷ 0 ∷ 0 ∷ 0 ∷ 0 ∷ 0 ∷ 0 ∷ 0 ∷ 0 ∷ 0 ∷ 0 ∷ 0 ∷ 0 ∷ 0 ∷ 0 ∷ 0 ∷ 0 ∷ 0 ∷ 0
    ∷ 0 ∷ 0 ∷ 0 ∷ 0 ∷ 0 ∷ 0 ∷ 0 ∷ []

-- 1000 satoshi to the address 9, with the request's id.
abbrev payment_tx : Transaction
payment_tx = record {
  txid = 77;
  output =
      (record { value = 1000; script_pubkey = 9 ∷ [] })
      ∷ (record { value = 0; script_pubkey = 0x6a ∷ 32 ∷ (zeros ++ 5 ∷ []) })
      ∷ [];
}

abbrev answers : Answers
answers = record {
  redeem_requests = ok ((5, redeem_5) ∷ []);
  replace_requests = ok [];
  is_full_node = true;
  transactions = λ _. ok (err BitcoinErrors.conversion_error ∷ ok payment_tx ∷ []);
  to_address = λ a. ok a;
  to_payload = λ a. some a;
  from_script = λ s. if length s == 1 then some 9 else none;
  get_tx_for_op_return = λ _ _ _. ok none;
}

handled_at_most_once_example :
    (count_handled 5 (execute_open_requests 0 answers).1
      ≤ count_open 5 (open_requests 0 ((5, redeem_5) ∷ []) []))
    × (count_open 5 (open_requests 0 ((5, redeem_5) ∷ []) []) ≤ 1)
handled_at_most_once_example = handled_at_most_once 0 answers ((5, redeem_5) ∷ []) [] 5 refl refl

handled_exactly_once_example :
    ((execute_open_requests 0 answers).0 ≡ ok tt)
    × (count_handled 5 (execute_open_requests 0 answers).1
        ≡ count_open 5 (open_requests 0 ((5, redeem_5) ∷ []) []))
unfolding open_requests read_requests collect_into insert from_redeem_request calculate_deadline
    duration_to_parachain_blocks parachain_blocks_to_bitcoin_blocks_rounded_up
    BitcoinErrors.is_transport_error
handled_exactly_once_example =
    handled_exactly_once 0 answers ((5, redeem_5) ∷ []) [] 5 refl refl
      (λ height full.
        (err BitcoinErrors.conversion_error ∷ ok payment_tx ∷ [], refl, (refl, (tt, tt))))
      ((9, refl, (none, refl)), tt)

found_payment_is_not_repeated_example : All (DoesNotPay 5) (execute_open_requests 0 answers).1
unfolding open_requests read_requests collect_into insert from_redeem_request calculate_deadline
    duration_to_parachain_blocks parachain_blocks_to_bitcoin_blocks_rounded_up btc_start_height
    get_request_for_btc_tx request_of_hash lookup paid_in_full get_op_return get_op_return_bytes
    find_map op_return_bytes from_op_return get_payment_amount_to pay_to
found_payment_is_not_repeated_example =
    found_payment_is_not_repeated 0 answers ((5, redeem_5) ∷ []) [] 10
      (err BitcoinErrors.conversion_error ∷ ok payment_tx ∷ []) payment_tx request_5 refl refl refl
      refl refl (inl refl) refl
