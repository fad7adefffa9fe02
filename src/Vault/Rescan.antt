-- ===== src/Vault/Rescan.antt =====
-- The search for past payments to a vault's issue requests (`RescanStatus` and
-- `add_keys_from_past_issue_request`, vault/src/issue.rs). The answers of Bitcoin, the parachain
-- and the database are parameters, and what they are asked to do is recorded as effects.
pub mod Range
pub mod Chunks
pub mod Past
mod Tests
use interbtc_clients.Prelude.{
  ℕ, zero, suc, ◌+◌, ◌-◌, ◌*◌, Bool, Option, none, some, List, [], ◌∷◌, ◌++◌, map, min, max, ltb,
  ◌==◌, if◌then◌else◌, filter_by, Result, ok, err, map_err, ok_or, u64_max, saturating_add,
  checked_div,
}
use interbtc_clients.Runtime.Errors.{RuntimeError}
use interbtc_clients.Runtime.Requests.{H256, VaultId, BtcAddress, IssueRequest}
use interbtc_clients.Bitcoin.Errors as BitcoinErrors
use interbtc_clients.Vault.Errors.{Error, bitcoin_error, runtime_error, arithmetic_underflow}

pub record RescanStatus : Type 0 where
  pub newest_issue_height : ℕ
  -- start, end (including)
  pub queued_rescan_range : Option (ℕ × ℕ)

-- `RescanStatus::default()`
abbrev pub default_status : RescanStatus
default_status = record { newest_issue_height = 0; queued_rescan_range = none }

-- The body of the loop over the new issues.
unfoldable pub queue_issue : ℕ → RescanStatus → IssueRequest → RescanStatus
queue_issue current_bitcoin_height s issue =
    let begin : ℕ = elim s.queued_rescan_range [
      | some (b, _) ↦ min b issue.btc_height
      | none ↦ issue.btc_height
    ] in
    record {
      newest_issue_height = max s.newest_issue_height issue.opentime;
      queued_rescan_range = some (begin, max begin current_bitcoin_height);
    }

unfoldable pub queue_issues : ℕ → RescanStatus → List IssueRequest → RescanStatus
unfolding queue_issue
queue_issues current_bitcoin_height s [] = s
queue_issues current_bitcoin_height s (issue ∷ issues) =
    queue_issues current_bitcoin_height (queue_issue current_bitcoin_height s issue) issues

unfoldable pub update : RescanStatus → List IssueRequest → ℕ → RescanStatus
unfolding queue_issues
update s issues current_bitcoin_height =
    queue_issues current_bitcoin_height s
      (filter_by (λ issue. ltb s.newest_issue_height issue.opentime) issues)

-- The range that cannot be scanned, and the status after it.
unfoldable pub prune : RescanStatus → ℕ → Option (ℕ × ℕ) × RescanStatus
prune s btc_pruned_start_height = elim s.queued_rescan_range [
  | some (start, end) ↦
      if ltb start btc_pruned_start_height
      then (
        some (start, btc_pruned_start_height - 1),
        record s { queued_rescan_range = some (btc_pruned_start_height, end) },
      )
      else (none, s)
  | none ↦ (none, s)
]

-- The chunk to rescan now, and the status after it.
unfoldable pub process_blocks : RescanStatus → ℕ → Option (ℕ × ℕ) × RescanStatus
process_blocks s max_blocks = elim s.queued_rescan_range [
  | none ↦ (none, s)
  | some (start, end) ↦
      let chunk_end = min end (saturating_add u64_max start max_blocks - 1) in
      (
        some (start, chunk_end),
        record s {
          queued_rescan_range = if chunk_end == end then none else some (chunk_end + 1, end);
        },
      )
]

pub data Effect : Type 0 where
  deposit_key_added : H256 → ℕ → Effect
  electrs_scanned : List ℕ → Effect
  rescanned : ℕ → ℕ → Effect
  stored : RescanStatus → Effect

-- The answers that one run meets. `quick` tells whether a rescan took less than ten seconds.
pub record Answers : Type 0 where
  pub get : Result (Option RescanStatus) Error
  pub get_vault_issue_requests : Result (List (H256 × IssueRequest)) RuntimeError
  pub add_new_deposit_key : H256 → ℕ → Result (Unit {0}) BitcoinErrors.Error
  pub get_block_count : Result ℕ BitcoinErrors.Error
  pub get_pruned_height : Result ℕ BitcoinErrors.Error
  pub to_address : BtcAddress → Option ℕ
  pub rescan_electrs_for_addresses : List ℕ → Result (Unit {0}) BitcoinErrors.Error
  pub rescan_blockchain : ℕ → ℕ → Result (Unit {0}) BitcoinErrors.Error
  pub quick : ℕ → ℕ → Bool
  pub put : RescanStatus → Result (Unit {0}) Error

-- `none` means that the fuel of the loop ran out.
pub record Outcome : Type 0 where
  pub result : Option (Result (Unit {0}) Error)
  pub effects : List Effect

abbrev pub fails : Error → Outcome
fails e = record { result = some (err e); effects = [] }

-- `?` after an operation that has an effect if it succeeds.
abbrev pub attempt : Result (Unit {0}) Error → Effect → Outcome → Outcome
attempt (ok _) effect k = record { result = k.result; effects = effect ∷ k.effects }
attempt (err e) effect k = fails e

unfoldable pub next_chunk_size : Bool → ℕ → Result ℕ Error
next_chunk_size quick chunk_size =
    if quick then ok (min u64_max (chunk_size * 2)) else elim (checked_div chunk_size 2) [
      | some half ↦ ok (max half 1)
      | none ↦ err arithmetic_underflow
    ]

-- The loop over the chunks.
unfoldable pub rescan_chunks : ℕ → Answers → RescanStatus → ℕ → Outcome
rescan_chunks zero env s chunk_size = record { result = none; effects = [] }
rescan_chunks (suc fuel) env s chunk_size =
    let (chunk, s') = process_blocks s chunk_size in
    elim chunk [
      | none ↦ record { result = some (ok tt); effects = [] }
      | some (start, end) ↦
          attempt (map_err bitcoin_error (env.rescan_blockchain start end)) (rescanned start end)
            (elim (next_chunk_size (env.quick start end) chunk_size) [
              | err e ↦ fails e
              | ok chunk_size' ↦
                  attempt (env.put s') (stored s') (rescan_chunks fuel env s' chunk_size')
            ])
    ]

-- `filter_map`: the addresses of the issues that were opened below the pruned height.
unfoldable pub pruned_addresses : Answers → ℕ → List (H256 × IssueRequest) → List ℕ
pruned_addresses env pruned [] = []
pruned_addresses env pruned ((_, request) ∷ rest) =
    let others = pruned_addresses env pruned rest in
    if ltb request.btc_height pruned
    then elim (env.to_address request.btc_address) [ some a ↦ a ∷ others | none ↦ others ]
    else others

-- From the pruned status on: save progress, then rescan, beginning with one block.
unfoldable pub store_and_rescan : ℕ → Answers → RescanStatus → Outcome
store_and_rescan fuel env s = attempt (env.put s) (stored s) (rescan_chunks fuel env s 1)

-- From the two heights on.
unfoldable pub scan_from : ℕ → Answers → RescanStatus → List (H256 × IssueRequest) → ℕ → ℕ → Outcome
unfolding store_and_rescan
scan_from fuel env s requests tip pruned =
    let (unscannable, s') = prune (update s (map (λ r. r.1) requests) tip) pruned in
    elim unscannable [
      | none ↦ store_and_rescan fuel env s'
      | some _ ↦
          let addresses = pruned_addresses env pruned requests in
          attempt (map_err bitcoin_error (env.rescan_electrs_for_addresses addresses))
            (electrs_scanned addresses) (store_and_rescan fuel env s')
    ]

-- The loop over the requests: a key that cannot be added is logged.
unfoldable pub add_deposit_keys : Answers → List (H256 × IssueRequest) → List Effect
add_deposit_keys env [] = []
add_deposit_keys env ((issue_id, request) ∷ rest) =
    let others = add_deposit_keys env rest in
    elim (env.add_new_deposit_key issue_id request.btc_public_key) [
      | ok _ ↦ deposit_key_added issue_id request.btc_public_key ∷ others
      | err _ ↦ others
    ]

abbrev pub after : List Effect → Outcome → Outcome
after effects k = record { result = k.result; effects = effects ++ k.effects }

unfoldable pub scan_past : ℕ → Answers → RescanStatus → List (H256 × IssueRequest) → Outcome
unfolding scan_from add_deposit_keys
scan_past fuel env s requests = after (add_deposit_keys env requests) (elim env.get_block_count [
  | err e ↦ fails (bitcoin_error e)
  | ok tip ↦ elim env.get_pruned_height [
    | err e ↦ fails (bitcoin_error e)
    | ok pruned ↦ scan_from fuel env s requests tip pruned
  ]
])

abbrev unwrap_or_default : Option RescanStatus → RescanStatus
unwrap_or_default none = default_status
unwrap_or_default (some s) = s

unfoldable pub add_keys_from_past_issue_request : ℕ → Answers → VaultId → Outcome
unfolding scan_past
add_keys_from_past_issue_request fuel env vault_id = elim env.get [
  | err e ↦ fails e
  | ok status ↦ elim env.get_vault_issue_requests [
    | err e ↦ fails (runtime_error e)
    | ok requests ↦
        scan_past fuel env (unwrap_or_default status)
          (filter_by (λ r. r.1.vault == vault_id) requests)
  ]
]
