-- ===== src/Vault/Payment.antt =====
-- Paying a request in Bitcoin and executing it on the parachain (`Request::pay_and_execute` and
-- what it calls, vault/src/execution.rs). Bitcoin and the parachain are other systems: their
-- answers are parameters, and what the vault makes them do is recorded as effects.
mod Effects
pub mod Bumps
pub mod Inclusion
pub mod Once
mod Tests
pub use Effects.*
use interbtc_clients.Prelude.{
  ℕ, ◌+◌, ◌%◌, ◌^◌, Bool, true, false, Option, none, some, List, [], ◌∷◌, ◌++◌, ltb, if◌then◌else◌,
  Result, ok, err, map_err,
}
use interbtc_clients.Runtime.Errors.{
  RuntimeError, channel_closed, is_invalid_chain_id, is_rpc_disconnect_error,
}
use interbtc_clients.Runtime.Requests.{H256, BtcAddress}
use interbtc_clients.Runtime.Retry.{
  RetryPolicy, skip, throw, Attempt, Retried, returned, waiting, notify_retry,
}
use interbtc_clients.Bitcoin.Errors as BitcoinErrors
use interbtc_clients.Vault.Errors.{Error, bitcoin_error, runtime_error, broadcast_stream_recv_error}
use interbtc_clients.Vault.Requests.{
  Request, RequestType, get_fee_rate, to_sat_per_vbyte, ensure_not_expired,
}

-- `to_address` for the node's network: the Bitcoin address, or why there is none.
abbrev pub Conversion : Type 0
Conversion = BtcAddress → Result Address BitcoinErrors.Error

-- One value of the fee rate subscription, and the answers that Bitcoin gives while it is handled.
-- `none` is a receive error of the stream.
pub record FeeUpdate : Type 0 where
  pub estimate : Option ℕ
  pub fee_rate : Txid → Result ℕ BitcoinErrors.Error
  pub is_in_mempool : Txid → Result Bool BitcoinErrors.Error
  pub bump_fee : Txid → Address → ℕ → Result Txid BitcoinErrors.Error

-- What `select` yields: the transaction's metadata, with the relay's answer for its block, or an
-- item of the subscription.
pub data InclusionEvent : Type 0 where
  metadata_ready :
      (Txid → Result TransactionMetadata BitcoinErrors.Error)
      → (ℕ → Result (Unit {0}) RuntimeError)
      → InclusionEvent
  subscription_closed : InclusionEvent
  fee_update : FeeUpdate → InclusionEvent

-- `map_err` and `and_then`: the estimate in satoshi per virtual byte.
pub new_estimate : FeeUpdate → Result ℕ Error
new_estimate u = elim u.estimate [
  | none ↦ err broadcast_stream_recv_error
  | some inner ↦ to_sat_per_vbyte inner
]

-- `try_filter_map`: the current and the new rate, where the new one is higher.
pub higher_fee : FeeUpdate → Txid → Result ℕ Error → Option (Result (ℕ × ℕ) Error)
higher_fee u txid (err e) = some (err e)
higher_fee u txid (ok x) = elim (u.fee_rate txid) [
  | ok current_fee ↦ if ltb current_fee x then some (ok (current_fee, x)) else none
  | err _ ↦ none
]

-- `filter_map`: nothing is passed on for a transaction that is not in the mempool.
pub still_in_mempool :
    FeeUpdate → Txid → Option (Result (ℕ × ℕ) Error) → Option (Result (ℕ × ℕ) Error)
still_in_mempool u txid none = none
still_in_mempool u txid (some x) = elim (u.is_in_mempool txid) [
  | ok b ↦ if b then some x else none
  | err e ↦ some (err (bitcoin_error e))
]

-- The subscription's pipeline; `filter(auto_rbf)` drops everything if fees are not to be bumped.
pub propagate : Bool → FeeUpdate → Txid → Option (Result (ℕ × ℕ) Error)
unfolding new_estimate higher_fee still_in_mempool
propagate auto_rbf u txid =
    if auto_rbf then still_in_mempool u txid (higher_fee u txid (new_estimate u)) else none

-- The answer to one event: the loops end, or go on with a transaction.
pub data Reaction : Type 0 where
  stop : Result TransactionMetadata Error → Reaction
  go_on : Txid → List Effect → Reaction

-- A failed bump is logged, and the wait goes on for the old transaction.
pub try_bump : Request → Conversion → FeeUpdate → Txid → Option (Result (ℕ × ℕ) Error) → Reaction
try_bump r to_address u txid none = go_on txid []
try_bump r to_address u txid (some (err e)) = go_on txid []
try_bump r to_address u txid (some (ok (old_fee, new_fee))) = elim (to_address r.btc_address) [
  | err e ↦ stop (err (bitcoin_error e))
  | ok a ↦ elim (u.bump_fee txid a new_fee) [
    | ok new_txid ↦ go_on new_txid (bumped txid new_txid a old_fee new_fee ∷ [])
    | err _ ↦ go_on txid []
  ]
]

-- Once the block is known, it has to be in the relay; after a fork the metadata is fetched again.
pub check_relay : Txid → TransactionMetadata → Result (Unit {0}) RuntimeError → Reaction
check_relay txid m (ok _) = stop (ok m)
check_relay txid m (err e) =
    if is_invalid_chain_id e then go_on txid [] else stop (err (runtime_error e))

pub react : Bool → Request → Conversion → Txid → InclusionEvent → Reaction
unfolding try_bump check_relay propagate
react auto_rbf r to_address txid (metadata_ready metadata relay) = elim (metadata txid) [
  | err e ↦ stop (err (bitcoin_error e))
  | ok m ↦ check_relay txid m (relay m.block_hash)
]
react auto_rbf r to_address txid subscription_closed = stop (err (runtime_error channel_closed))
react auto_rbf r to_address txid (fee_update u) =
    try_bump r to_address u txid (propagate auto_rbf u txid)

-- `wait_for_inclusion`, over the events that come while it waits.
pub wait_for_inclusion :
    Bool → Request → Conversion → Txid → List InclusionEvent → Run TransactionMetadata
wait_for_inclusion auto_rbf r to_address txid [] = record { progress = pending; effects = [] }
wait_for_inclusion auto_rbf r to_address txid (event ∷ rest) =
    elim (react auto_rbf r to_address txid event) [
      | stop x ↦ record { progress = finished x; effects = [] }
      | go_on next effects ↦ emit effects (wait_for_inclusion auto_rbf r to_address next rest)
    ]

-- The answers that one payment meets.
pub record Environment : Type 0 where
  pub active_block_number : Result ℕ RuntimeError
  pub block_count : Result ℕ BitcoinErrors.Error
  pub bitcoin_fees : Result ℕ RuntimeError
  pub to_address : Conversion
  pub create_and_send : Address → ℕ → ℕ → H256 → Result Txid BitcoinErrors.Error
  pub inclusion : List InclusionEvent
  -- the attempts to execute the request with a proof
  pub execution : RequestType → H256 → ℕ → List (Attempt (Unit {0}) RuntimeError)

-- `create_and_send_transaction` to the request's address; it has paid if it returns a transaction.
pub send : Request → Environment → ℕ → Run Txid
send r env fee_rate = elim (env.to_address r.btc_address) [
  | err e ↦ record { progress = finished (err (bitcoin_error e)); effects = [] }
  | ok a ↦
      let sat = r.amount % 2 ^ 64 in
      elim (env.create_and_send a sat fee_rate r.hash) [
        | ok txid ↦ record {
          progress = finished (ok txid);
          effects = sent a sat fee_rate r.hash ∷ [];
        }
        | err e ↦ record { progress = finished (err (bitcoin_error e)); effects = [] }
      ]
]

pub transfer_btc : Request → Environment → Bool → Run TransactionMetadata
transfer_btc r env auto_rbf = do
  fee_rate ← lift (get_fee_rate env.bitcoin_fees)
  txid ← send r env fee_rate
  wait_for_inclusion auto_rbf r env.to_address txid env.inclusion

-- Which errors of an execution end the retries.
pub verify_execution : Result (Unit {0}) RuntimeError → Result (Unit {0}) (RetryPolicy RuntimeError)
verify_execution (ok x) = ok x
verify_execution (err e) =
    if is_rpc_disconnect_error e
    then err (throw e)
    else if is_invalid_chain_id e
    then err (throw e)
    else err (skip e)

pub execute : Request → Environment → TransactionMetadata → Run (Unit {0})
execute r env m =
    let (retried, calls) =
      notify_retry verify_execution (env.execution r.request_type r.hash m.proof) in
    record {
      progress = elim retried [
        | returned x ↦ finished (map_err runtime_error x)
        | Retried.waiting ↦ pending
      ];
      effects = executions r.request_type r.hash m.proof calls ∷ [];
    }

pub pay_and_execute : Request → Environment → Bool → Run (Unit {0})
pay_and_execute r env auto_rbf = do
  _ ← lift (
      ensure_not_expired r.deadline (map_err runtime_error env.active_block_number)
        (map_err bitcoin_error env.block_count))
  m ← transfer_btc r env auto_rbf
  execute r env m
