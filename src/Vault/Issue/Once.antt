-- ===== src/Vault/Issue/Once.antt =====
-- How often an issue request is executed, over transactions and events in any order
-- (vault/src/issue.rs).
use mathlib.Core.Path.{subst}
use interbtc_clients.Prelude.{
  ℕ, ◌+◌, ◌≡◌, ◌≤◌, refl, sym, Bool, true, some, List, [], ◌∷◌, ◌++◌, inl, inr, ◌⊎◌, ◌==◌,
  if◌then◌else◌, arith, Option-cases, if_cases,
}
use interbtc_clients.Runtime.Requests.{H256, VaultId, AccountId, BtcAddress}
use interbtc_clients.Bitcoin.Transactions.{Transaction, find_map}
use interbtc_clients.Vault.Cancellation.{Event}
use interbtc_clients.Vault.IssueSet.{ReversibleHashMap, remove_key, insert}
use interbtc_clients.Vault.IssueSet.Watched.{
  WatchedSet, IsInjective, Represents, watched_step, inserted-Represents, key_removed-Represents,
  value_removed-Represents,
}
use interbtc_clients.Vault.IssueSet.{inserted, key_removed, value_removed}
use interbtc_clients.Vault.Issue.{
  Answers, Outcome, RequestIssueEvent, ExecuteIssueEvent, on_issue_request, on_issue_execute,
  on_issue_cancel, process_transaction_and_execute_issue, find_watched, watched_at,
}
use interbtc_clients.Vault.Issue.Paid.{IsHandled, IsPaid, Executes, process_transaction-IsHandled}

-- What happens to the watched requests, one after another.
pub data Step : Type 0 where
  transaction : Answers → ℕ → ℕ → Transaction → Step
  requested : RequestIssueEvent → Step
  executed_by_someone : ExecuteIssueEvent → Step
  cancelled : H256 → Step

-- A request is watched, or nothing changes.
on_issue_request_watches :
    (own : AccountId) (has_vault : VaultId → Bool) (event : RequestIssueEvent)
    (m : ReversibleHashMap)
    → ((on_issue_request own has_vault event m).2 ≡ (insert event.issue_id event.vault_address m).1)
      ⊎ ((on_issue_request own has_vault event m).2 ≡ m)
unfolding on_issue_request
on_issue_request_watches own has_vault event m =
    if_cases
      (λ (x : List Event × List (H256 × ℕ) × ReversibleHashMap).
        (x.2 ≡ (insert event.issue_id event.vault_address m).1) ⊎ (x.2 ≡ m))
      (event.account_id == own) _ _
      (λ _.
        if_cases
          (λ (x : List Event × List (H256 × ℕ) × ReversibleHashMap).
            (x.2 ≡ (insert event.issue_id event.vault_address m).1) ⊎ (x.2 ≡ m))
          (has_vault event.vault_id) _ _ (λ _. inl refl) (λ _. inr refl))
      (λ _. inl refl)

-- The executions of an id.
abbrev pub executions_of : H256 → List (H256 × ℕ) → ℕ
executions_of k [] = 0
executions_of k ((i, proof) ∷ rest) = (if i == k then 1 else 0) + executions_of k rest

executions_of-append :
    (k : H256) (xs ys : List (H256 × ℕ))
    → executions_of k (xs ++ ys) ≡ executions_of k xs + executions_of k ys
executions_of-append k [] ys = omega arith
executions_of-append k (x ∷ xs) ys = omega (arith, executions_of-append k xs ys)

-- The requests of an id.
abbrev pub requests_of : H256 → List Step → ℕ
requests_of k [] = 0
requests_of k (transaction env n b tx ∷ rest) = requests_of k rest
requests_of k (requested event ∷ rest) = (if event.issue_id == k then 1 else 0) + requests_of k rest
requests_of k (executed_by_someone event ∷ rest) = requests_of k rest
requests_of k (cancelled i ∷ rest) = requests_of k rest

-- Each request event carries the address of its id.
abbrev pub AllAddressed : (H256 → BtcAddress) → List Step → Type 0
AllAddressed address [] = Unit {0}
AllAddressed address (requested event ∷ rest) =
    (event.vault_address ≡ address event.issue_id) × AllAddressed address rest
AllAddressed address (transaction env n b tx ∷ rest) = AllAddressed address rest
AllAddressed address (executed_by_someone event ∷ rest) = AllAddressed address rest
AllAddressed address (cancelled i ∷ rest) = AllAddressed address rest

abbrev pub watched_once : Bool → ℕ
watched_once watched = if watched then 1 else 0

module _ (own : AccountId) (has_vault : VaultId → Bool) where
  -- The watched requests and the executions of a step.
  pub step : Step → ReversibleHashMap → ReversibleHashMap × List (H256 × ℕ)
  step (transaction env n b tx) m =
      let r = process_transaction_and_execute_issue env n b tx m in (r.issue_requests, r.executions)
  step (requested event) m = ((on_issue_request own has_vault event m).2, [])
  step (executed_by_someone event) m = ((on_issue_execute own event m).1, [])
  step (cancelled i) m = (on_issue_cancel i m, [])

  unfoldable pub executions : List Step → ReversibleHashMap → List (H256 × ℕ)
  unfolding step
  executions [] m = []
  executions (x ∷ xs) m = (step x m).1 ++ executions xs (step x m).0

  module _ (address : H256 → BtcAddress) where
    -- After some executions, with so many new requests.
    IsCounted : H256 → WatchedSet → ℕ → ReversibleHashMap × List (H256 × ℕ) → Type 0
    IsCounted k s requests (m, es) =
        (s' : WatchedSet) × Represents address m s'
        × (executions_of k es + watched_once (s' k) ≤ watched_once (s k) + requests)

    find_map-watched :
        (m : ReversibleHashMap) (l : List BtcAddress) (i : H256) (a : BtcAddress)
        → find_map (watched_at m) l ≡ some (i, a)
        → m.by_value a ≡ some i
    unfolding find_map watched_at
    find_map-watched m [] i a e = cc
    find_map-watched m (x ∷ xs) i a e =
        ground (arith, Option-cases (m.by_value x), find_map-watched m xs i a)

    module _ (inj : IsInjective address) (k : H256) where
      paid-IsCounted :
          (env : Answers) (n b : ℕ) (tx : Transaction) (m : ReversibleHashMap) (s : WatchedSet)
          (r : Outcome)
          → Represents address m s
          → IsPaid env n b tx m r
          → IsCounted k s 0 (r.issue_requests, r.executions)
      unfolding IsCounted
      paid-IsCounted env n b tx m s r rep p = (
        watched_step address (value_removed p.address) s,
        subst (λ x. Represents address x (watched_step address (value_removed p.address) s))
            (sym p.unwatched) (value_removed-Represents address m s p.address inj rep),
        counted p.may_execute,
      )
        where
          by_value : m.by_value p.address ≡ some p.issue_id
          by_value = unfold find_watched in find_map-watched m _ p.issue_id p.address p.found

          at_address : p.address ≡ address p.issue_id
          at_address = rep.by_address p.address p.issue_id by_value

          was_watched : s p.issue_id ≡ true
          was_watched = ground (arith, rep.at_address p.issue_id, by_value, at_address)

          executed_once :
              (proof : ℕ)
              → executions_of k ((p.issue_id, proof) ∷ [])
                  + watched_once (watched_step address (value_removed p.address) s k)
                ≤ watched_once (s k) + 0
          executed_once proof = ground (arith, at_address, was_watched)

          counted :
              (r.executions ≡ []) ⊎ Executes env n b tx p.issue_id r
              → executions_of k r.executions
                  + watched_once (watched_step address (value_removed p.address) s k)
                ≤ watched_once (s k) + 0
          counted (inl e) = rw e (ground arith)
          counted (inr x) = rw x.executes (executed_once x.proof)

      handled-IsCounted :
          (env : Answers) (n b : ℕ) (tx : Transaction) (m : ReversibleHashMap) (s : WatchedSet)
          (r : Outcome)
          → Represents address m s
          → IsHandled env n b tx m r
          → IsCounted k s 0 (r.issue_requests, r.executions)
      unfolding IsCounted
      handled-IsCounted env n b tx m s r rep (inl (same, none_done)) =
          (s, subst (λ x. Represents address x s) (sym same) rep, rw none_done (omega arith))
      handled-IsCounted env n b tx m s r rep (inr p) =
          unfold IsCounted in paid-IsCounted env n b tx m s r rep p

      requested-IsCounted :
          (event : RequestIssueEvent) (m : ReversibleHashMap) (s : WatchedSet)
          → event.vault_address ≡ address event.issue_id
          → Represents address m s
          → IsCounted k s
              (if event.issue_id == k then 1 else 0)
              ((on_issue_request own has_vault event m).2, [])
      unfolding IsCounted
      requested-IsCounted event m s e rep = go (on_issue_request_watches own has_vault event m)
        where
          Counts : ReversibleHashMap → Type 0
          Counts x = IsCounted k s (if event.issue_id == k then 1 else 0) (x, [])

          watched : Counts (insert event.issue_id event.vault_address m).1
          watched =
              subst (λ a. Counts (insert event.issue_id a m).1) (sym e)
                (
                  watched_step address (inserted event.issue_id (address event.issue_id)) s,
                  inserted-Represents address m s event.issue_id inj rep,
                  ground arith,
                )

          go :
              ((on_issue_request own has_vault event m).2
                  ≡ (insert event.issue_id event.vault_address m).1)
                ⊎ ((on_issue_request own has_vault event m).2 ≡ m)
              → Counts (on_issue_request own has_vault event m).2
          go (inl x) = subst Counts (sym x) watched
          go (inr x) = subst Counts (sym x) (s, rep, ground arith)

      removed-IsCounted :
          (i : H256) (m : ReversibleHashMap) (s : WatchedSet)
          → Represents address m s
          → IsCounted k s 0 ((remove_key i m).1, [])
      unfolding IsCounted
      removed-IsCounted i m s rep = (
        watched_step address (key_removed i) s,
        key_removed-Represents address m s i inj rep,
        ground arith,
      )

      -- Executions after executions.
      then-IsCounted :
          (s : WatchedSet) (a b total : ℕ) (m : ReversibleHashMap) (es : List (H256 × ℕ))
          (xs : List Step)
          → a + b ≡ total
          → IsCounted k s a (m, es)
          → ((s' : WatchedSet)
              → Represents address m s'
              → executions_of k (executions xs m) ≤ watched_once (s' k) + b)
          → executions_of k (es ++ executions xs m) ≤ watched_once (s k) + total
      unfolding IsCounted
      then-IsCounted s a b total m es xs t (s', rep, c) f =
          omega (arith, c, f s' rep, executions_of-append k es (executions xs m))

      -- Where each id has its own address, and the map holds just the ids of a set, each found by
      -- its address: over any transactions, requests, executions by others and cancellations in
      -- any order, whatever the answers are, the vault executes an id no more often than it was
      -- watched at the start, which is once or not at all, plus the number of its request events.
      pub executed_at_most_once :
          (xs : List Step) (m : ReversibleHashMap) (s : WatchedSet)
          → AllAddressed address xs
          → Represents address m s
          → executions_of k (executions xs m) ≤ watched_once (s k) + requests_of k xs
      unfolding executions on_issue_execute on_issue_cancel
      executed_at_most_once [] m s a rep = omega arith
      executed_at_most_once (transaction env n b tx ∷ xs) m s a rep =
          let r = process_transaction_and_execute_issue env n b tx m in
          then-IsCounted s 0 (requests_of k xs) (requests_of k xs) r.issue_requests r.executions xs
            (omega arith)
            (handled-IsCounted env n b tx m s r rep (process_transaction-IsHandled env n b tx m))
            (λ s' rep'. executed_at_most_once xs r.issue_requests s' a rep')
      executed_at_most_once (requested event ∷ xs) m s (e, a) rep =
          then-IsCounted s (if event.issue_id == k then 1 else 0) (requests_of k xs)
            (requests_of k (requested event ∷ xs)) (on_issue_request own has_vault event m).2 [] xs
            refl (requested-IsCounted event m s e rep)
            (λ s' rep'.
              executed_at_most_once xs (on_issue_request own has_vault event m).2 s' a rep')
      executed_at_most_once (executed_by_someone event ∷ xs) m s a rep =
          then-IsCounted s 0 (requests_of k xs) (requests_of k xs) (remove_key event.issue_id m).1
            [] xs (omega arith) (removed-IsCounted event.issue_id m s rep)
            (λ s' rep'. executed_at_most_once xs (remove_key event.issue_id m).1 s' a rep')
      executed_at_most_once (cancelled i ∷ xs) m s a rep =
          then-IsCounted s 0 (requests_of k xs) (requests_of k xs) (remove_key i m).1 [] xs
            (omega arith) (removed-IsCounted i m s rep)
            (λ s' rep'. executed_at_most_once xs (remove_key i m).1 s' a rep')
