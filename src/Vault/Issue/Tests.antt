-- ===== src/Vault/Issue/Tests.antt =====
-- The theorems on issue requests, for one that is requested, paid and executed
-- (vault/src/issue.rs).
use interbtc_clients.Prelude.{
  ℕ, ◌≡◌, ◌≤◌, ◌+◌, refl, true, false, none, some, List, [], ◌∷◌, ok, err, arith,
}
use interbtc_clients.Runtime.Requests.{IssueRequest, RequestStatus}
use interbtc_clients.Bitcoin.Transactions.{
  Transaction, find_map, extract_output_addresses, extract_indexed_output_addresses, indexed_from,
  get_payment_amount_to, pay_to,
}
use interbtc_clients.Vault.Errors.{client_shutdown}
use interbtc_clients.Vault.Cancellation.{opened, executed}
use interbtc_clients.Vault.IssueSet.{
  ReversibleHashMap, new, insert, remove_value, get_key_for_value,
}
use interbtc_clients.Vault.IssueSet.Watched.{Represents}
use interbtc_clients.Vault.Issue.{
  Answers, RequestIssueEvent, known_addresses, watched_at, find_watched, is_completed,
  execution_result, execute_with_proof, execute_unless_completed, wait_and_execute, process_payment,
  process_transaction_and_execute_issue, process_issue_requests, on_issue_request, on_issue_execute,
  on_issue_cancel, initialize_issue_set,
}
use interbtc_clients.Vault.Issue.Paid.{IsHandled, process_transaction-IsHandled}
use interbtc_clients.Vault.Issue.Once.{
  Step, transaction, requested, executed_by_someone, cancelled, executions, executions_of,
  requests_of, executed_at_most_once, watched_once,
}

abbrev issue : RequestStatus → IssueRequest
issue status = record {
  vault = 1;
  requester = 2;
  opentime = 10;
  btc_height = 100;
  period = 50;
  amount = 1000;
  fee = 5;
  btc_address = 103;
  btc_public_key = 7;
  status = status;
}

-- A script is its address; the address of an id is 100 higher.
abbrev answers : Answers
answers = record {
  from_script = λ s. elim s [ [] ↦ none | a ∷ _ ↦ some a ];
  from_payload = λ p. some p;
  to_payload = λ a. some a;
  get_issue_request = λ _. ok (issue RequestStatus.pending);
  wait_for_block_in_relay = λ _ _. ok tt;
  delay = λ _. ok tt;
  later = λ _. ok (issue RequestStatus.pending);
  wait_for_transaction_metadata = λ _ _ _. ok 77;
  execute_issue = λ _ _. ok tt;
}

abbrev payment : ℕ → Transaction
payment value = record {
  txid = 9;
  output =
      record { value = 4; script_pubkey = 50 ∷ [] }
      ∷ record { value = value; script_pubkey = 103 ∷ [] }
      ∷ [];
}

abbrev watched : ReversibleHashMap
unfolding insert new
watched = (insert 3 103 new).1

found : find_watched answers (payment 1005) watched ≡ some (3, 103)
unfolding find_watched get_key_for_value extract_output_addresses insert new
found = refl

paid :
    (process_transaction_and_execute_issue answers 6 55 (payment 1005) watched).executions
    ≡ (3, 77) ∷ []
unfolding process_transaction_and_execute_issue process_payment wait_and_execute
    execute_unless_completed execute_with_proof execution_result find_watched known_addresses
    watched_at get_key_for_value find_map extract_output_addresses extract_indexed_output_addresses
    indexed_from get_payment_amount_to pay_to remove_value insert new is_completed
paid = refl

paid_too_little :
    (process_transaction_and_execute_issue answers 6 55 (payment 1004) watched).executions ≡ []
unfolding process_transaction_and_execute_issue extract_output_addresses get_payment_amount_to
    insert new
paid_too_little = refl

stream :
    process_issue_requests (ok (1, payment 4) ∷ []) ≡ ((1, payment 4) ∷ [], err client_shutdown)
unfolding process_issue_requests
stream = refl

abbrev request : RequestIssueEvent
request = record {
  issue_id = 3;
  vault_id = 1;
  account_id = 8;
  vault_address = 103;
  vault_public_key = 7;
}

own_request : (on_issue_request 8 (λ _. true) request new).0 ≡ opened ∷ []
unfolding on_issue_request
own_request = refl

own_execution :
    (on_issue_execute 8 (record { issue_id = 3; account_id = 8 }) watched).0 ≡ executed 3 ∷ []
unfolding on_issue_execute
own_execution = refl

cancelled_request : (on_issue_cancel 3 watched).by_value 103 ≡ none
unfolding on_issue_cancel insert new
cancelled_request = refl

start : (initialize_issue_set (ok 120) (ok ((3, issue RequestStatus.pending) ∷ [])) new).0 ≡ ok 100
unfolding initialize_issue_set
start = refl

start_at_tip : (initialize_issue_set (ok 120) (ok []) new).0 ≡ ok 120
unfolding initialize_issue_set
start_at_tip = refl

none_watched : Represents (λ k. k + 100) new (λ _. false)
unfolding new
none_watched = record {
  at_key = λ k. refl;
  at_address = λ k. refl;
  by_address = λ v k e. ground arith;
}

abbrev steps : List Step
steps =
    requested request
    ∷ transaction answers 6 55 (payment 1005)
    ∷ transaction answers 6 56 (payment 1005)
    ∷ executed_by_someone (record { issue_id = 3; account_id = 8 })
    ∷ cancelled 4
    ∷ []

executed_at_most_once_example :
    executions_of 3 (executions 8 (λ _. true) steps new) ≤ watched_once false + requests_of 3 steps
executed_at_most_once_example =
    executed_at_most_once 8 (λ _. true) (λ k. k + 100) (λ j k e. omega arith) 3 steps new
      (λ _. false) (omega arith) none_watched

process_transaction-IsHandled_example :
    IsHandled answers 6 55
      (payment 1005)
      watched
      (process_transaction_and_execute_issue answers 6 55 (payment 1005) watched)
process_transaction-IsHandled_example =
    process_transaction-IsHandled answers 6 55 (payment 1005) watched

amount_paid : get_payment_amount_to answers.from_script (payment 1005) 103 ≡ some 1005
unfolding get_payment_amount_to
amount_paid = refl

pending : is_completed RequestStatus.pending ≡ false
unfolding is_completed
pending = refl
