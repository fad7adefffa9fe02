-- ===== src/Vault/Issue/Paid.antt =====
-- When an issue request is executed, and what for (`process_transaction_and_execute_issue`,
-- vault/src/issue.rs).
use interbtc_clients.Prelude.{
  ℕ, ◌≡◌, ◌≤◌, refl, false, Option, none, some, [], ◌∷◌, inl, inr, ◌⊎◌, ltb, if◌then◌else◌, Result,
  ok, err, arith, if_cases,
}
use interbtc_clients.Runtime.Errors.{RuntimeError}
use interbtc_clients.Runtime.Requests.{H256, BtcAddress, IssueRequest}
use interbtc_clients.Bitcoin.Errors as BitcoinErrors
use interbtc_clients.Bitcoin.Transactions.{Payload, Transaction, get_payment_amount_to}
use interbtc_clients.Vault.Errors.{bitcoin_error, runtime_error}
use interbtc_clients.Vault.IssueSet.{ReversibleHashMap, remove_value}
use interbtc_clients.Vault.Issue.{
  Answers, Outcome, ends, expected, is_completed, execution_result, execute_with_proof,
  execute_unless_completed, wait_and_execute, process_payment, find_watched,
  process_transaction_and_execute_issue,
}

module _ (env : Answers) (num_confirmations block_hash : ℕ) (tx : Transaction) where
  -- There is one execution, of this id, after the request was found not to be completed.
  pub record Executes (issue_id : H256) (r : Outcome) : Type 0 where
    pub latest : IssueRequest
    pub proof : ℕ
    pub read_again : env.later issue_id ≡ ok latest
    pub not_completed : is_completed latest.status ≡ false
    pub executes : r.executions ≡ (issue_id, proof) ∷ []

  -- The watched requests stay, and there is no execution or one.
  abbrev pub MayExecute : H256 → ReversibleHashMap → Outcome → Type 0
  MayExecute issue_id m r = (r.issue_requests ≡ m) × ((r.executions ≡ []) ⊎ Executes issue_id r)

  execute_with_proof-MayExecute :
      (issue_id : H256) (m : ReversibleHashMap) (issue : IssueRequest)
      → env.later issue_id ≡ ok issue
      → is_completed issue.status ≡ false
      → MayExecute issue_id m (execute_with_proof env num_confirmations block_hash tx issue_id m)
  unfolding execute_with_proof
  execute_with_proof-MayExecute issue_id m issue e o =
      go (env.wait_for_transaction_metadata tx.txid num_confirmations block_hash)
    where
      go :
          (x : Result ℕ BitcoinErrors.Error)
          → MayExecute issue_id m (elim x as (λ _. Outcome) [
            | err y ↦ ends (err (bitcoin_error y)) m
            | ok proof ↦ record {
              result = execution_result (env.execute_issue issue_id proof);
              issue_requests = m;
              executions = (issue_id, proof) ∷ [];
            }
          ])
      go (err y) = (refl, inl refl)
      go (ok proof) = (
        refl,
        inr (record {
          latest = issue;
          proof = proof;
          read_again = e;
          not_completed = o;
          executes = refl;
        }),
      )

  execute_unless_completed-MayExecute :
      (issue_id : H256) (m : ReversibleHashMap)
      → MayExecute issue_id m
          (execute_unless_completed env num_confirmations block_hash tx issue_id m)
  unfolding execute_unless_completed
  execute_unless_completed-MayExecute issue_id m = go (env.later issue_id) refl
    where
      go :
          (x : Result IssueRequest RuntimeError)
          → env.later issue_id ≡ x
          → MayExecute issue_id m (elim x as (λ _. Outcome) [
            | err y ↦ ends (err (runtime_error y)) m
            | ok issue ↦
                if is_completed issue.status
                then ends (ok tt) m
                else execute_with_proof env num_confirmations block_hash tx issue_id m
          ])
      go (err y) e = (refl, inl refl)
      go (ok issue) e =
          if_cases (MayExecute issue_id m) (is_completed issue.status) _ _ (λ _. (refl, inl refl))
            (λ o. execute_with_proof-MayExecute issue_id m issue e o)

  wait_and_execute-MayExecute :
      (issue_id : H256) (m : ReversibleHashMap)
      → MayExecute issue_id m (wait_and_execute env num_confirmations block_hash tx issue_id m)
  unfolding wait_and_execute
  wait_and_execute-MayExecute issue_id m =
      go (env.wait_for_block_in_relay block_hash num_confirmations) (env.delay issue_id)
    where
      go :
          (x y : Result (Unit {0}) RuntimeError)
          → MayExecute issue_id m (elim x as (λ _. Outcome) [
            | err z ↦ ends (err (runtime_error z)) m
            | ok _ ↦ elim y as (λ _. Outcome) [
              | err z ↦ ends (err (runtime_error z)) m
              | ok _ ↦ execute_unless_completed env num_confirmations block_hash tx issue_id m
            ]
          ])
      go (err z) y = (refl, inl refl)
      go (ok _) (err z) = (refl, inl refl)
      go (ok _) (ok _) = execute_unless_completed-MayExecute issue_id m

  -- The payment of a watched request was found, is enough, and is taken out of the watched ones.
  pub record IsPaid (m : ReversibleHashMap) (r : Outcome) : Type 0 where
    pub issue_id : H256
    pub address : BtcAddress
    pub issue : IssueRequest
    pub payload : Payload
    pub transferred : ℕ
    pub found : find_watched env tx m ≡ some (issue_id, address)
    pub read : env.get_issue_request issue_id ≡ ok issue
    pub to_payload : env.to_payload address ≡ some payload
    pub pays : get_payment_amount_to env.from_script tx payload ≡ some transferred
    pub enough : expected issue ≤ transferred
    pub unwatched : r.issue_requests ≡ (remove_value address m).1
    pub may_execute : (r.executions ≡ []) ⊎ Executes issue_id r

  -- Nothing is done, or the request is paid.
  abbrev pub IsHandled : ReversibleHashMap → Outcome → Type 0
  IsHandled m r = (r.issue_requests ≡ m) × (r.executions ≡ []) ⊎ IsPaid m r

  process_payment-IsHandled :
      (issue_id : H256) (address : BtcAddress) (issue : IssueRequest) (m : ReversibleHashMap)
      → find_watched env tx m ≡ some (issue_id, address)
      → env.get_issue_request issue_id ≡ ok issue
      → IsHandled m (process_payment env num_confirmations block_hash tx issue_id address issue m)
  unfolding process_payment
  process_payment-IsHandled issue_id address issue m f g = go (env.to_payload address) refl
    where
      executed : Outcome
      executed =
          wait_and_execute env num_confirmations block_hash tx issue_id (remove_value address m).1

      amount :
          (p : Payload)
          → env.to_payload address ≡ some p
          → (x : Option ℕ) → get_payment_amount_to env.from_script tx p ≡ x
          → IsHandled m (elim x as (λ _. Outcome) [
            | none ↦ ends (ok tt) m
            | some transferred ↦
                if ltb transferred (expected issue) then ends (ok tt) m else executed
          ])
      amount p e none k = inl (refl, refl)
      amount p e (some transferred) k =
          if_cases (IsHandled m) (ltb transferred (expected issue)) _ _ (λ _. inl (refl, refl))
            (λ o.
              let (same, may) = wait_and_execute-MayExecute issue_id (remove_value address m).1 in
              inr (record {
                issue_id = issue_id;
                address = address;
                issue = issue;
                payload = p;
                transferred = transferred;
                found = f;
                read = g;
                to_payload = e;
                pays = k;
                enough = ground (arith, o);
                unwatched = same;
                may_execute = may;
              }))

      go :
          (x : Option Payload)
          → env.to_payload address ≡ x
          → IsHandled m (elim x as (λ _. Outcome) [
            | none ↦ ends (ok tt) m
            | some p ↦ elim (get_payment_amount_to env.from_script tx p) as (λ _. Outcome) [
              | none ↦ ends (ok tt) m
              | some transferred ↦
                  if ltb transferred (expected issue) then ends (ok tt) m else executed
            ]
          ])
      go none e = inl (refl, refl)
      go (some p) e = amount p e (get_payment_amount_to env.from_script tx p) refl

  -- Whatever the answers are, a transaction changes nothing, or it pays a watched request in full:
  -- an output that has an address of its own pays the address the request was found by at least the
  -- amount and the fee that the parachain has for it, in 128 bits; then just this address is
  -- watched no longer, and there is no execution, or one of this request with a proof, after the
  -- parachain has shown it once more and not as completed.
  pub process_transaction-IsHandled :
      (m : ReversibleHashMap)
      → IsHandled m (process_transaction_and_execute_issue env num_confirmations block_hash tx m)
  unfolding process_transaction_and_execute_issue
  process_transaction-IsHandled m = go (find_watched env tx m) refl
    where
      issues :
          (issue_id : H256) (address : BtcAddress)
          → find_watched env tx m ≡ some (issue_id, address)
          → (x : Result IssueRequest RuntimeError) → env.get_issue_request issue_id ≡ x
          → IsHandled m (elim x as (λ _. Outcome) [
            | err e ↦ ends (err (runtime_error e)) m
            | ok issue ↦
                process_payment env num_confirmations block_hash tx issue_id address issue m
          ])
      issues issue_id address f (err e) g = inl (refl, refl)
      issues issue_id address f (ok issue) g =
          process_payment-IsHandled issue_id address issue m f g

      go :
          (x : Option (H256 × BtcAddress))
          → find_watched env tx m ≡ x
          → IsHandled m (elim x as (λ _. Outcome) [
            | none ↦ ends (ok tt) m
            | some (issue_id, address) ↦ elim (env.get_issue_request issue_id) as (λ _. Outcome) [
              | err e ↦ ends (err (runtime_error e)) m
              | ok issue ↦
                  process_payment env num_confirmations block_hash tx issue_id address issue m
            ]
          ])
      go none f = inl (refl, refl)
      go (some (issue_id, address)) f =
          issues issue_id address f (env.get_issue_request issue_id) refl
