-- ===== src/Vault/Cancellation.antt =====
-- The scheduler that cancels issue and replace requests once they have expired
-- (vault/src/cancellation.rs). The parachain is another system: `Parachain` holds the answers that
-- it gives while one event is handled. A request id (`H256`) and an account are numbers.
pub mod Drain
pub mod Steps
pub mod Traces
pub mod Outage
mod Tests
use interbtc_clients.Prelude.{
  ℕ, zero, suc, ◌+◌, ◌≡◌, Bool, true, false, ◌&&◌, not, List, [], ◌∷◌, ◌++◌, map, Option, none,
  some, max, ltb, ◌==◌, if◌then◌else◌, length, get_elem?, remove_at, filter_by, Result, ok, err,
  ◌>>=◌, map_err, ok_or, checked_add, u32_max,
}
use interbtc_clients.Runtime.Requests.{H256, AccountId, IssueRequest, ReplaceRequest, is_pending}
use interbtc_clients.Runtime.Errors.{RuntimeError}
use interbtc_clients.Vault.Errors.{Error, runtime_error, arithmetic_overflow}
use interbtc_clients.Vault.Blocks.{parachain_blocks_to_bitcoin_blocks_rounded_up}

pub data Event : Type 0 where
  opened : Event
  executed : H256 → Event
  parachain_block bitcoin_block : ℕ → Event

pub record CancellationScheduler : Type 0 where
  pub vault_id : AccountId
  pub parachain_height : ℕ
  pub bitcoin_height : ℕ

pub record ActiveRequest : Type 0 where
  pub id : H256
  pub parachain_deadline_height : ℕ
  pub bitcoin_deadline_height : ℕ

pub record UnconvertedOpenTime : Type 0 where
  pub id : H256
  pub parachain_open_height : ℕ
  pub bitcoin_open_height : ℕ
  pub period : ℕ

pub data ListState : Type 0 where
  valid invalid : ListState

pub record Parachain : Type 0 where
  pub get_vault_issue_requests : AccountId → Result (List (H256 × IssueRequest)) RuntimeError
  pub get_new_vault_replace_requests :
      AccountId → Result (List (H256 × ReplaceRequest)) RuntimeError
  pub get_issue_period : Result ℕ RuntimeError
  pub get_replace_period : Result ℕ RuntimeError
  pub cancel_issue : H256 → Result (Unit {0}) RuntimeError
  pub cancel_replace : H256 → Result (Unit {0}) RuntimeError

-- The two implementations of the trait `Canceller`.
pub data Canceller : Type 0 where
  issue replace : Canceller

abbrev pub open_issue : H256 × IssueRequest → UnconvertedOpenTime
open_issue (i, r) = record {
  id = i;
  parachain_open_height = r.opentime;
  bitcoin_open_height = r.btc_height;
  period = r.period;
}

abbrev pub open_replace : H256 × ReplaceRequest → UnconvertedOpenTime
open_replace (i, r) = record {
  id = i;
  parachain_open_height = r.accept_time;
  bitcoin_open_height = r.btc_height;
  period = r.period;
}

-- `T::get_open_requests`
pub fetch_open_requests :
    Canceller → Parachain → AccountId → Result (List UnconvertedOpenTime) Error
fetch_open_requests issue p vault_id = do
  requests ← map_err runtime_error (p.get_vault_issue_requests vault_id)
  ok (map open_issue (filter_by (λ r. is_pending r.1.status) requests))
fetch_open_requests replace p vault_id = do
  requests ← map_err runtime_error (p.get_new_vault_replace_requests vault_id)
  ok (map open_replace (filter_by (λ r. is_pending r.1.status) requests))

pub get_period : Canceller → Parachain → Result ℕ Error
get_period issue p = map_err runtime_error p.get_issue_period
get_period replace p = map_err runtime_error p.get_replace_period

pub cancel_request : Canceller → Parachain → H256 → Result (Unit {0}) Error
cancel_request issue p i = map_err runtime_error (p.cancel_issue i)
cancel_request replace p i = map_err runtime_error (p.cancel_replace i)

abbrev pub has_expired : ℕ → ℕ → ActiveRequest → Bool
has_expired current_height bitcoin_height r =
    ltb r.parachain_deadline_height current_height && ltb r.bitcoin_deadline_height bitcoin_height

-- The variables of the loop in `drain_expired`.
pub record Draining : Type 0 where
  pub requests : List ActiveRequest
  pub i : ℕ
  pub expired : List ActiveRequest

-- One round: `requests[i]` is moved to `expired`, or stays and `i` goes on.
pub drain_step : (ActiveRequest → Bool) → Draining → Draining
drain_step expires s = elim (get_elem? s.requests s.i) [
  | none ↦ s
  | some r ↦
      if expires r
      then record s { requests = remove_at s.requests s.i; expired = s.expired ++ r ∷ [] }
      else record s { i = s.i + 1 }
]

-- `while i != requests.len()`
drain_loop : ℕ → (ActiveRequest → Bool) → Draining → Draining
unfolding drain_step
drain_loop zero expires s = s
drain_loop (suc fuel) expires s =
    let rest = drain_loop fuel expires (drain_step expires s) in
    if s.i == length s.requests then s else rest

-- What is left in the list, and what has expired. Each round shortens `requests[i..]` by one.
pub drain_expired : List ActiveRequest → ℕ → ℕ → List ActiveRequest × List ActiveRequest
unfolding drain_loop
drain_expired requests current_height bitcoin_height =
    let s =
      drain_loop (length requests) (has_expired current_height bitcoin_height)
        (record { requests = requests; i = 0; expired = [] }) in
    (s.requests, s.expired)

-- The loop in `cancel_requests`, with the ids of the cancellations that it submits.
pub submit_cancellations :
    (H256 → Result (Unit {0}) Error) → List ActiveRequest → ListState × List H256
submit_cancellations cancel [] = (valid, [])
submit_cancellations cancel (r ∷ rs) =
    let (state, calls) = submit_cancellations cancel rs in
    elim (cancel r.id) [ ok _ ↦ (state, r.id ∷ calls) | err _ ↦ (invalid, r.id ∷ []) ]

-- What handling an event leaves behind, with the ids that it tried to cancel.
pub record Outcome : Type 0 where
  pub scheduler : CancellationScheduler
  pub active_requests : List ActiveRequest
  pub list_state : ListState
  pub calls : List H256

pub cancel_requests : Canceller → Parachain → CancellationScheduler → List ActiveRequest → Outcome
unfolding submit_cancellations
cancel_requests t p s active =
    let (left, expired) = drain_expired active s.parachain_height s.bitcoin_height in
    let (state, calls) = submit_cancellations (cancel_request t p) expired in
    record { scheduler = s; active_requests = left; list_state = state; calls = calls }

-- The deadlines of one request, in `get_open_requests`.
unfoldable pub convert : ℕ → UnconvertedOpenTime → Result ActiveRequest Error
convert global_period r = do
  let period = max global_period r.period
  parachain_deadline ←
      ok_or (checked_add u32_max r.parachain_open_height period) arithmetic_overflow
  blocks ← parachain_blocks_to_bitcoin_blocks_rounded_up period
  bitcoin_deadline ← ok_or (checked_add u32_max r.bitcoin_open_height blocks) arithmetic_overflow
  ok (record {
    id = r.id;
    parachain_deadline_height = parachain_deadline;
    bitcoin_deadline_height = bitcoin_deadline;
  })

-- `collect::<Result<Vec<_>, _>>()`: the first error is the result.
pub convert_all : ℕ → List UnconvertedOpenTime → Result (List ActiveRequest) Error
convert_all global_period [] = ok []
convert_all global_period (r ∷ rs) =
    let rest = convert_all global_period rs in
    do a ← convert global_period r; as' ← rest; ok (a ∷ as')

pub get_open_requests : Canceller → Parachain → AccountId → Result (List ActiveRequest) Error
get_open_requests t p vault_id = do
  requests ← fetch_open_requests t p vault_id
  elim requests [
    | [] ↦ ok []
    | r ∷ rs ↦ get_period t p >>= λ global_period. convert_all global_period (r ∷ rs)
  ]

-- The list that the event is handled with: a list that is not valid is queried anew.
pub refresh :
    Canceller → Parachain → AccountId → List ActiveRequest → ListState → List ActiveRequest
refresh t p vault_id active valid = active
refresh t p vault_id active invalid = elim (get_open_requests t p vault_id) [
  | ok requests ↦ requests
  | err _ ↦ []
]

pub handle_event :
    Canceller → Parachain → CancellationScheduler → Event → List ActiveRequest → Outcome
handle_event t p s (parachain_block height) active =
    cancel_requests t p (record s { parachain_height = height }) active
handle_event t p s (bitcoin_block height) active =
    cancel_requests t p (record s { bitcoin_height = height }) active
handle_event t p s (executed i) active = record {
  scheduler = s;
  active_requests = filter_by (λ r. not (r.id == i)) active;
  list_state = valid;
  calls = [];
}
handle_event t p s opened active = record {
  scheduler = s;
  active_requests = active;
  list_state = invalid;
  calls = [];
}

pub process_event :
    Canceller → Parachain → CancellationScheduler → Event → List ActiveRequest → ListState → Outcome
unfolding refresh handle_event
process_event t p s event active state =
    handle_event t p s event (refresh t p s.vault_id active state)

-- `handle_cancellation`, until its channel is closed: each event comes with the parachain that
-- answers while it is handled. The outcomes are listed in order.
pub handle_cancellation :
    Canceller
    → CancellationScheduler
    → List ActiveRequest
    → ListState
    → List (Event × Parachain)
    → List Outcome
handle_cancellation t s active state [] = []
handle_cancellation t s active state ((event, p) ∷ rest) =
    let o = process_event t p s event active state in
    o ∷ handle_cancellation t o.scheduler o.active_requests o.list_state rest
