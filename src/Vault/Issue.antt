-- ===== src/Vault/Issue.antt =====
-- Watching for the payments of issue requests and executing them (vault/src/issue.rs). The answers
-- of Bitcoin, the relay and the parachain are parameters. The lock on the watched requests is held
-- while a transaction is processed, so that the steps follow one another.
pub mod Paid
pub mod Once
pub mod Start
mod Tests
use interbtc_clients.Prelude.{
  ℕ, ◌+◌, ◌%◌, ◌^◌, ◌*◌, Bool, true, false, Option, none, some, List, [], ◌∷◌, ◌++◌, ltb, min, ◌==◌,
  if◌then◌else◌, Result, ok, err,
}
use interbtc_clients.Runtime.Errors.{RuntimeError, is_issue_completed}
use interbtc_clients.Runtime.Requests.{
  H256, VaultId, AccountId, BtcAddress, IssueRequest, RequestStatus,
}
use interbtc_clients.Bitcoin.Errors as BitcoinErrors
use interbtc_clients.Bitcoin.Transactions.{
  Script, Payload, Transaction, find_map, extract_output_addresses, get_payment_amount_to,
}
use interbtc_clients.Vault.Errors.{Error, bitcoin_error, runtime_error, client_shutdown}
use interbtc_clients.Vault.Cancellation.{Event, opened, executed}
use interbtc_clients.Vault.IssueSet.{
  ReversibleHashMap, insert, remove_key, remove_value, get_key_for_value,
}

-- The answers while one transaction is processed. `later` is what the second query of the request
-- gets, and a proof is a number.
pub record Answers : Type 0 where
  pub from_script : Script → Option Payload
  pub from_payload : Payload → Option BtcAddress
  pub to_payload : BtcAddress → Option Payload
  pub get_issue_request : H256 → Result IssueRequest RuntimeError
  pub wait_for_block_in_relay : ℕ → ℕ → Result (Unit {0}) RuntimeError
  pub delay : H256 → Result (Unit {0}) RuntimeError
  pub later : H256 → Result IssueRequest RuntimeError
  pub wait_for_transaction_metadata : ℕ → ℕ → ℕ → Result ℕ BitcoinErrors.Error
  pub execute_issue : H256 → ℕ → Result (Unit {0}) RuntimeError

-- The result, the watched requests and the calls of `execute_issue`.
pub record Outcome : Type 0 where
  pub result : Result (Unit {0}) Error
  pub issue_requests : ReversibleHashMap
  pub executions : List (H256 × ℕ)

abbrev pub ends : Result (Unit {0}) Error → ReversibleHashMap → Outcome
ends r m = record { result = r; issue_requests = m; executions = [] }

-- `filter_map(|payload| BtcAddress::from_payload(payload).ok())`
unfoldable pub known_addresses : (Payload → Option BtcAddress) → List Payload → List BtcAddress
known_addresses from_payload [] = []
known_addresses from_payload (p ∷ ps) =
    let rest = known_addresses from_payload ps in
    elim (from_payload p) [ some a ↦ a ∷ rest | none ↦ rest ]

-- The id with its address, if the address is watched.
unfoldable pub watched_at : ReversibleHashMap → BtcAddress → Option (H256 × BtcAddress)
unfolding get_key_for_value
watched_at m address = elim (get_key_for_value address m) [
  | some issue_id ↦ some (issue_id, address)
  | none ↦ none
]

unfoldable pub find_watched : Answers → Transaction → ReversibleHashMap → Option (H256 × BtcAddress)
unfolding find_map watched_at known_addresses
find_watched env tx m =
    find_map (watched_at m)
      (known_addresses env.from_payload (extract_output_addresses env.from_script tx))

-- `issue.amount + issue.fee`, in 128 bits.
abbrev pub expected : IssueRequest → ℕ
expected issue = (issue.amount + issue.fee) % 2 ^ 128

unfoldable pub is_completed : RequestStatus → Bool
is_completed RequestStatus.completed = true
is_completed _ = false

-- An issue that is completed already is no error.
unfoldable pub execution_result : Result (Unit {0}) RuntimeError → Result (Unit {0}) Error
execution_result (ok _) = ok tt
execution_result (err e) = if is_issue_completed e then ok tt else err (runtime_error e)

-- Once the request is known not to be completed.
unfoldable pub execute_with_proof :
    Answers → ℕ → ℕ → Transaction → H256 → ReversibleHashMap → Outcome
unfolding execution_result
execute_with_proof env num_confirmations block_hash tx issue_id m =
    elim (env.wait_for_transaction_metadata tx.txid num_confirmations block_hash) [
      | err e ↦ ends (err (bitcoin_error e)) m
      | ok proof ↦ record {
        result = execution_result (env.execute_issue issue_id proof);
        issue_requests = m;
        executions = (issue_id, proof) ∷ [];
      }
    ]

-- After the delay the request is read again.
unfoldable pub execute_unless_completed :
    Answers → ℕ → ℕ → Transaction → H256 → ReversibleHashMap → Outcome
unfolding execute_with_proof is_completed
execute_unless_completed env num_confirmations block_hash tx issue_id m =
    elim (env.later issue_id) [
      | err e ↦ ends (err (runtime_error e)) m
      | ok issue ↦
          if is_completed issue.status
          then ends (ok tt) m
          else execute_with_proof env num_confirmations block_hash tx issue_id m
    ]

-- The wait for the relay, and the delay.
unfoldable pub wait_and_execute : Answers → ℕ → ℕ → Transaction → H256 → ReversibleHashMap → Outcome
unfolding execute_unless_completed
wait_and_execute env num_confirmations block_hash tx issue_id m =
    elim (env.wait_for_block_in_relay block_hash num_confirmations) [
      | err e ↦ ends (err (runtime_error e)) m
      | ok _ ↦ elim (env.delay issue_id) [
        | err e ↦ ends (err (runtime_error e)) m
        | ok _ ↦ execute_unless_completed env num_confirmations block_hash tx issue_id m
      ]
    ]

-- The amount is checked, and the address is watched no longer.
unfoldable pub process_payment :
    Answers → ℕ → ℕ → Transaction → H256 → BtcAddress → IssueRequest → ReversibleHashMap → Outcome
unfolding wait_and_execute remove_value
process_payment env num_confirmations block_hash tx issue_id address issue m =
    elim (env.to_payload address) [
      | none ↦ ends (ok tt) m
      | some payload ↦ elim (get_payment_amount_to env.from_script tx payload) [
        | none ↦ ends (ok tt) m
        | some transferred ↦
            if ltb transferred (expected issue)
            then ends (ok tt) m
            else wait_and_execute env num_confirmations block_hash tx issue_id
                (remove_value address m).1
      ]
    ]

unfoldable pub process_transaction_and_execute_issue :
    Answers → ℕ → ℕ → Transaction → ReversibleHashMap → Outcome
unfolding find_watched process_payment
process_transaction_and_execute_issue env num_confirmations block_hash tx m =
    elim (find_watched env tx m) [
      | none ↦ ends (ok tt) m
      | some (issue_id, address) ↦ elim (env.get_issue_request issue_id) [
        | err e ↦ ends (err (runtime_error e)) m
        | ok issue ↦ process_payment env num_confirmations block_hash tx issue_id address issue m
      ]
    ]

-- The transactions that a task is spawned for, and the result: the stream has failed or ended.
unfoldable pub process_issue_requests :
    List (Result (ℕ × Transaction) BitcoinErrors.Error)
    → List (ℕ × Transaction) × Result (Unit {0}) Error
process_issue_requests [] = ([], err client_shutdown)
process_issue_requests (ok t ∷ stream) =
    let (spawned, result) = process_issue_requests stream in (t ∷ spawned, result)
process_issue_requests (err e ∷ stream) = ([], err (bitcoin_error e))

pub record RequestIssueEvent : Type 0 where
  pub issue_id : H256
  pub vault_id : VaultId
  -- `vault_id.account_id`
  pub account_id : AccountId
  pub vault_address : BtcAddress
  pub vault_public_key : ℕ

pub record ExecuteIssueEvent : Type 0 where
  pub issue_id : H256
  pub account_id : AccountId

-- The handler of `listen_for_issue_requests`: the events sent, the deposit keys asked for, and the
-- watched requests. `has_vault` tells whether there is a wallet for the vault id.
unfoldable pub on_issue_request :
    AccountId
    → (VaultId → Bool)
    → RequestIssueEvent
    → ReversibleHashMap
    → List Event × List (H256 × ℕ) × ReversibleHashMap
unfolding insert
on_issue_request own has_vault event m =
    let watched = (insert event.issue_id event.vault_address m).1 in
    if event.account_id == own
    then if has_vault event.vault_id
      then (opened ∷ [], (event.issue_id, event.vault_public_key) ∷ [], watched)
      else ([], [], m)
    else ([], [], watched)

-- The handler of `listen_for_issue_executes`.
unfoldable pub on_issue_execute :
    AccountId → ExecuteIssueEvent → ReversibleHashMap → List Event × ReversibleHashMap
unfolding remove_key
on_issue_execute own event m = (
  if event.account_id == own then executed event.issue_id ∷ [] else [],
  (remove_key event.issue_id m).1,
)

-- The handler of `listen_for_issue_cancels`.
unfoldable pub on_issue_cancel : H256 → ReversibleHashMap → ReversibleHashMap
unfolding remove_key
on_issue_cancel issue_id m = (remove_key issue_id m).1

-- The loop that watches the active issues.
unfoldable pub watch_all : List (H256 × IssueRequest) → ReversibleHashMap → ReversibleHashMap
unfolding insert
watch_all [] m = m
watch_all ((issue_id, request) ∷ rest) m = watch_all rest (insert issue_id request.btc_address m).1

-- `requests.iter().map(|(_, request)| request.btc_height).min()`
unfoldable pub least_height : List (H256 × IssueRequest) → Option ℕ
least_height [] = none
least_height ((_, request) ∷ rest) = elim (least_height rest) [
  | none ↦ some request.btc_height
  | some h ↦ some (min request.btc_height h)
]

-- The height to start at, and the watched requests. `as u32` keeps 32 bits.
unfoldable pub initialize_issue_set :
    Result ℕ BitcoinErrors.Error
    → Result (List (H256 × IssueRequest)) RuntimeError
    → ReversibleHashMap
    → Result ℕ Error × ReversibleHashMap
unfolding watch_all least_height
initialize_issue_set block_count active m = elim active [
  | err e ↦ (err (runtime_error e), m)
  | ok requests ↦ elim (least_height requests) [
    | some h ↦ (ok h, watch_all requests m)
    | none ↦ elim block_count [
      | err e ↦ (err (bitcoin_error e), m)
      | ok count ↦ (ok (count % 2 ^ 32), watch_all requests m)
    ]
  ]
]
