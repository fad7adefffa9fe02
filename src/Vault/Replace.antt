-- ===== src/Vault/Replace.antt =====
-- The answers to replace requests: accepting them for another vault, paying accepted ones, and the
-- events for the cancellation scheduler (vault/src/replace.rs).
pub mod Accepting
mod Tests
use interbtc_clients.Prelude.{
  ℕ, Bool, Option, none, some, List, [], ◌∷◌, ◌++◌, ltb, ◌==◌, if◌then◌else◌, Result, ok, err,
  map_err, u128_max, saturating_add,
}
use interbtc_clients.Runtime.Errors.{RuntimeError}
use interbtc_clients.Runtime.Requests.{H256, VaultId, AccountId, BtcAddress, ReplaceRequest}
use interbtc_clients.Bitcoin.Errors as BitcoinErrors
use interbtc_clients.Vault.Errors.{Error, bitcoin_error, runtime_error, insufficient_funds}
use interbtc_clients.Vault.Cancellation.{Event, opened, executed}
use interbtc_clients.Vault.Requests.{from_replace_request}
use interbtc_clients.Vault.Payment.{Run, lift, ◌>>=◌, Environment, pay_and_execute}

pub record RequestReplaceEvent : Type 0 where
  pub old_vault_id : VaultId
  pub amount : ℕ

-- The arguments of `accept_replace`.
pub record AcceptReplace : Type 0 where
  pub new_vault_id : VaultId
  pub old_vault_id : VaultId
  pub amount_btc : ℕ
  pub collateral : ℕ
  pub btc_address : BtcAddress

-- The collateral that `try_join3` gets.
pub record Collateral : Type 0 where
  pub required_replace_collateral : ℕ
  pub current_collateral : ℕ
  pub used_collateral : ℕ

-- One of the vault ids, with the answers that it gets. `try_join3` is another crate's: it has the
-- three answers, or the error that came first.
pub record VaultAnswers : Type 0 where
  pub vault_id : VaultId
  pub try_join3 : Result Collateral RuntimeError
  pub get_new_address : Result ℕ BitcoinErrors.Error
  pub from_address : ℕ → Result BtcAddress BitcoinErrors.Error
  pub accept_replace : AcceptReplace → Result (Unit {0}) RuntimeError

-- A call of `accept_replace`, with its result.
pub record Attempt : Type 0 where
  pub call : AcceptReplace
  pub result : Result (Unit {0}) RuntimeError

abbrev refused : Error → Result (Unit {0}) Error × List Attempt
refused e = (err e, [])

unfoldable pub accept :
    RequestReplaceEvent → VaultAnswers → BtcAddress → Result (Unit {0}) Error × List Attempt
accept event v address =
    let call : AcceptReplace = record {
      new_vault_id = v.vault_id;
      old_vault_id = event.old_vault_id;
      amount_btc = event.amount;
      collateral = 0;
      btc_address = address;
    } in
    (
      map_err runtime_error (v.accept_replace call),
      record { call = call; result = v.accept_replace call } ∷ [],
    )

-- `get_new_address` and its conversion.
unfoldable pub new_btc_address : VaultAnswers → Result BtcAddress Error
new_btc_address v = elim v.get_new_address [
  | err e ↦ err (bitcoin_error e)
  | ok address ↦ map_err bitcoin_error (v.from_address address)
]

unfoldable pub handle_replace_request :
    RequestReplaceEvent → VaultAnswers → Result (Unit {0}) Error × List Attempt
unfolding accept new_btc_address
handle_replace_request event v = elim v.try_join3 [
  | err e ↦ refused (runtime_error e)
  | ok c ↦
      if ltb c.current_collateral
        (saturating_add u128_max c.required_replace_collateral c.used_collateral)
      then refused insufficient_funds
      else elim (new_btc_address v) [ err e ↦ refused e | ok address ↦ accept event v address ]
]

-- The loop over the vault ids: the first that accepts ends it.
unfoldable pub try_vaults : RequestReplaceEvent → List VaultAnswers → List Event × List Attempt
try_vaults event [] = ([], [])
try_vaults event (v ∷ vs) =
    let (result, attempts) = handle_replace_request event v in
    let rest = try_vaults event vs in
    elim result [ ok _ ↦ (opened ∷ [], attempts) | err _ ↦ (rest.0, attempts ++ rest.1) ]

-- The handler of `listen_for_replace_requests`: the events sent and the calls made.
unfoldable pub on_replace_request :
    (VaultId → Bool) → Bool → List VaultAnswers → RequestReplaceEvent → List Event × List Attempt
unfolding try_vaults
on_replace_request is_this_vault accept_replace_requests vaults event =
    if is_this_vault event.old_vault_id
    then ([], [])
    else if accept_replace_requests
    then try_vaults event vaults
    else ([], [])

-- The handler of `listen_for_accept_replace`, with the task that it spawns; `none` if the event is
-- not directed at this vault.
unfoldable pub on_accept_replace :
    (VaultId → Bool)
    → (H256 → Result ReplaceRequest RuntimeError)
    → Environment
    → ℕ
    → Bool
    → VaultId
    → H256
    → Option (Run (Unit {0}))
on_accept_replace has_vault get_replace_request env payment_margin auto_rbf old_vault_id
      replace_id =
    if has_vault old_vault_id
    then some (
        lift (map_err runtime_error (get_replace_request replace_id)) >>= λ q.
        lift (from_replace_request replace_id q payment_margin) >>= λ r.
        pay_and_execute r env auto_rbf)
    else none

-- The handler of `listen_for_execute_replace`.
unfoldable pub on_execute_replace : AccountId → AccountId → H256 → List Event
on_execute_replace own new_account_id replace_id =
    if new_account_id == own then executed replace_id ∷ [] else []
