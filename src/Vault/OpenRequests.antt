-- ===== src/Vault/OpenRequests.antt =====
-- At its start the vault looks for payments of its open requests on the Bitcoin chain, and pays
-- those that it does not find (`execute_open_requests`, vault/src/execution.rs). The tasks that it
-- spawns are recorded as actions. A `HashMap` is an association list; its order, in which the
-- code pays, is not specified.
pub mod Counts
pub mod Handled
pub mod Complete
pub mod Scan
pub mod Paid
mod Tests
use interbtc_clients.Prelude.{
  ℕ, Bool, true, false, not, Option, none, some, List, [], ◌∷◌, ◌++◌, map, min, leb, ◌==◌,
  if◌then◌else◌, filter_by, Result, ok, err, map_err, u32_max,
}
use interbtc_clients.Runtime.Errors.{RuntimeError}
use interbtc_clients.Runtime.Requests.{H256, BtcAddress, RedeemRequest, ReplaceRequest, is_pending}
use interbtc_clients.Bitcoin.Errors as BitcoinErrors
use interbtc_clients.Bitcoin.Errors.{is_transport_error}
use interbtc_clients.Bitcoin.Transactions.{
  Script, Payload, Transaction, get_op_return, get_payment_amount_to,
}
use interbtc_clients.Vault.Errors.{Error, bitcoin_error, runtime_error}
use interbtc_clients.Vault.Requests.{Request, from_redeem_request, from_replace_request}

abbrev pub Requests : Type 0
Requests = List (H256 × Request)

-- What the other systems answer.
pub record Answers : Type 0 where
  pub redeem_requests : Result (List (H256 × RedeemRequest)) RuntimeError
  pub replace_requests : Result (List (H256 × ReplaceRequest)) RuntimeError
  pub is_full_node : Bool
  -- `reverse_stream_transactions` down to a height
  pub transactions : ℕ → Result (List (Result Transaction BitcoinErrors.Error)) BitcoinErrors.Error
  pub to_address : BtcAddress → Result ℕ BitcoinErrors.Error
  pub to_payload : BtcAddress → Option Payload
  pub from_script : Script → Option Payload
  pub get_tx_for_op_return : ℕ → ℕ → H256 → Result (Option ℕ) BitcoinErrors.Error

-- A spawned task: one waits for a payment that was found and executes the request, the other
-- pays first.
pub data Action : Type 0 where
  payment_worker : Request → ℕ → Action
  pay : Request → Action

-- The requests that can be read, in order (`filter_map` of `.ok()`).
abbrev pub keep_ok : {A : Type 0} → List (Result A Error) → List A
keep_ok [] = []
keep_ok (ok a ∷ rest) = a ∷ keep_ok rest
keep_ok (err _ ∷ rest) = keep_ok rest

pub lookup : H256 → Requests → Option Request
lookup k [] = none
lookup k ((j, q) ∷ rest) = if j == k then some q else lookup k rest

-- `HashMap::insert`, which replaces what was there.
pub insert : H256 → Request → Requests → Requests
insert k q [] = (k, q) ∷ []
insert k q ((j, p) ∷ rest) = if j == k then (k, q) ∷ rest else (j, p) ∷ insert k q rest

-- `collect::<HashMap<_, _>>()` of `(x.hash, x)`
pub collect_into : Requests → List Request → Requests
unfolding insert
collect_into m [] = m
collect_into m (q ∷ qs) = collect_into (insert q.hash q m) qs

-- `retain(|&key, _| key != k)`
pub remove : H256 → Requests → Requests
remove k m = filter_by (λ e. not (e.0 == k)) m

abbrev start_height : Request → ℕ
start_height q = elim q.btc_height [ none ↦ u32_max | some h ↦ h ]

-- `values().map(…).min()`
pub btc_start_height : Requests → Option ℕ
btc_start_height [] = none
btc_start_height ((_, q) ∷ rest) = elim (btc_start_height rest) [
  | none ↦ some (start_height q)
  | some h ↦ some (min (start_height q) h)
]

-- `get_request_for_btc_tx`
pub paid_in_full : Answers → Transaction → Request → Option Request
paid_in_full env tx q = elim (env.to_payload q.btc_address) [
  | none ↦ none
  | some payload ↦ elim (get_payment_amount_to env.from_script tx payload) [
    | none ↦ none
    | some paid_amount ↦ if leb q.amount paid_amount then some q else none
  ]
]

pub request_of_hash : Answers → Transaction → Requests → H256 → Option Request
unfolding lookup paid_in_full
request_of_hash env tx m hash = elim (lookup hash m) [
  | none ↦ none
  | some q ↦ paid_in_full env tx q
]

pub get_request_for_btc_tx : Answers → Transaction → Requests → Option Request
unfolding request_of_hash
get_request_for_btc_tx env tx m = elim (get_op_return tx) [
  | none ↦ none
  | some hash ↦ request_of_hash env tx m hash
]

abbrev before : {A : Type 0} → Action → A × List Action → A × List Action
before a (x, rest) = (x, a ∷ rest)

-- The loop over the stream: the requests that were not found, or the error that ended it.
pub scan :
    Answers
    → List (Result Transaction BitcoinErrors.Error)
    → Requests
    → Result Requests Error × List Action
scan env [] m = (ok m, [])
scan env (ok tx ∷ rest) m = elim (get_request_for_btc_tx env tx m) [
  | none ↦ scan env rest m
  | some q ↦ before (payment_worker q tx.txid) (scan env rest (remove q.hash m))
]
scan env (err e ∷ rest) m =
    let others = scan env rest m in
    if is_transport_error e then (err (bitcoin_error e), []) else others

-- The loop over the remaining requests.
pub pay_remaining : Answers → Requests → Result (Unit {0}) Error × List Action
pay_remaining env [] = (ok tt, [])
pay_remaining env ((i, q) ∷ rest) = elim (env.to_address q.btc_address) [
  | err e ↦ (err (bitcoin_error e), [])
  | ok address ↦ elim (env.get_tx_for_op_return address q.amount i) [
    | ok (some txid) ↦ before (payment_worker q txid) (pay_remaining env rest)
    | ok none ↦ before (pay q) (pay_remaining env rest)
    | err _ ↦ pay_remaining env rest
  ]
]

-- The pending requests that can be read.
pub read_requests : ℕ → List (H256 × RedeemRequest) → List (H256 × ReplaceRequest) → List Request
read_requests payment_margin redeems replaces =
    keep_ok (
      map (λ e. from_redeem_request e.0 e.1 payment_margin)
        (filter_by (λ e. is_pending e.1.status) redeems))
    ++ keep_ok (
        map (λ e. from_replace_request e.0 e.1 payment_margin)
          (filter_by (λ e. is_pending e.1.status) replaces))

-- The requests that are open, as a map by their ids.
pub open_requests : ℕ → List (H256 × RedeemRequest) → List (H256 × ReplaceRequest) → Requests
unfolding collect_into read_requests
open_requests payment_margin redeems replaces =
    collect_into [] (read_requests payment_margin redeems replaces)

-- What follows the scan.
abbrev pub and_pay :
    Answers → Result Requests Error × List Action → Result (Unit {0}) Error × List Action
and_pay env (err e, found) = (err e, found)
and_pay env (ok m, found) = let (r, rest) = pay_remaining env m in (r, found ++ rest)

stream_and_pay :
    Answers
    → Requests
    → Result (List (Result Transaction BitcoinErrors.Error)) BitcoinErrors.Error
    → Result (Unit {0}) Error × List Action
stream_and_pay env m (err e) = (err (bitcoin_error e), [])
stream_and_pay env m (ok stream) = and_pay env (scan env stream m)

-- Only a full node's blocks are scanned, from the least height on.
scan_and_pay : Answers → Requests → Option ℕ → Result (Unit {0}) Error × List Action
unfolding stream_and_pay
scan_and_pay env m none = (ok tt, [])
scan_and_pay env m (some height) =
    if env.is_full_node
    then stream_and_pay env m (env.transactions height)
    else and_pay env (ok m, [])

pub find_and_pay : Answers → Requests → Result (Unit {0}) Error × List Action
unfolding scan_and_pay btc_start_height
find_and_pay env m = scan_and_pay env m (btc_start_height m)

pub execute_open_requests : ℕ → Answers → Result (Unit {0}) Error × List Action
execute_open_requests payment_margin env = elim env.redeem_requests [
  | err e ↦ (err (runtime_error e), [])
  | ok redeems ↦ elim env.replace_requests [
    | err e ↦ (err (runtime_error e), [])
    | ok replaces ↦ find_and_pay env (open_requests payment_margin redeems replaces)
  ]
]
