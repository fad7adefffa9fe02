-- ===== src/Vault/Rescan/Past.antt =====
-- What a start-up of the vault does about the payments that were made while it was off
-- (`add_keys_from_past_issue_request`, vault/src/issue.rs).
use mathlib.Core.Path.{subst}
use native.Mathlib.Decide.{dec_lt}
use interbtc_clients.Prelude.{
  ℕ, ◌+◌, ◌≡◌, ◌≤◌, ◌<◌, refl, sym, ◌∙◌, Option, none, some, List, [], ◌∷◌, ◌++◌, map, min, arith,
  inl, inr, ◌⊎◌, ltb, All, max, u64_max, Result, ok, err, filter_by, All-filter_by, map_err, ◌==◌,
}
use interbtc_clients.Vault.Errors.{Error, bitcoin_error}
use interbtc_clients.Runtime.Requests.{H256, VaultId, IssueRequest}
use interbtc_clients.Vault.Rescan.{
  RescanStatus, update, prune, queue_issues, queue_issue, Answers, Outcome, Effect, rescanned,
  stored, deposit_key_added, electrs_scanned, rescan_chunks, attempt, store_and_rescan, scan_from,
  scan_past, pruned_addresses, add_keys_from_past_issue_request, unwrap_or_default, after,
  add_deposit_keys,
}
use interbtc_clients.Vault.Rescan.Range.{Covers, IsUpdated, update-IsUpdated}
use interbtc_clients.Vault.Rescan.Chunks.{Chunks, Unfinished, rescan_chunks-Chunks}

-- Some chunk has the block.
abbrev pub IsScanned : ℕ → List Effect → Type 0
IsScanned height [] = ⊥
IsScanned height (rescanned a b ∷ rest) = (a ≤ height) × (height ≤ b) ⊎ IsScanned height rest
IsScanned height (electrs_scanned l ∷ rest) = IsScanned height rest
IsScanned height (stored s ∷ rest) = IsScanned height rest
IsScanned height (deposit_key_added i k ∷ rest) = IsScanned height rest

IsScanned-append :
    (height : ℕ) (es fs : List Effect) → IsScanned height fs → IsScanned height (es ++ fs)
IsScanned-append height [] fs h = h
IsScanned-append height (rescanned a b ∷ es) fs h = inr (IsScanned-append height es fs h)
IsScanned-append height (electrs_scanned l ∷ es) fs h = IsScanned-append height es fs h
IsScanned-append height (stored s ∷ es) fs h = IsScanned-append height es fs h
IsScanned-append height (deposit_key_added i k ∷ es) fs h = IsScanned-append height es fs h

-- Chunks that go on to the end have every block.
Chunks-IsScanned :
    (Stop : Type 0) (start end height : ℕ) (es : List Effect)
    → (Stop → ⊥)
    → Chunks Stop start end es
    → start ≤ height
    → height ≤ end
    → IsScanned height es
Chunks-IsScanned Stop start end height [] f c h k = absurd (f c)
Chunks-IsScanned Stop start end height (rescanned a b ∷ []) f c h k = absurd (f c.0)
Chunks-IsScanned Stop start end height (rescanned a b ∷ stored s ∷ rest) f (p, l, q, inl (e, r)) h
      k =
    inl (omega arith)
Chunks-IsScanned Stop start end height (rescanned a b ∷ stored s ∷ rest) f (p, l, q, inr (e, r)) h
      k =
    elim (dec_lt b height) [
      | yes m ↦ inr (Chunks-IsScanned Stop (b + 1) end height rest f r (omega arith) k)
      | no m ↦ inl (omega arith)
    ]
Chunks-IsScanned Stop start end height (_ ∷ es) f c h k = absurd c

-- A success of an operation and what follows it is a success of what follows.
attempt-IsScanned :
    (height : ℕ) (r : Result (Unit {0}) Error) (effect : Effect) (k : Outcome)
    → (k.result ≡ some (ok tt) → IsScanned height k.effects)
    → (attempt r effect k).result ≡ some (ok tt)
    → IsScanned height (attempt r effect k).effects
attempt-IsScanned height (ok _) effect k f p = IsScanned-append height (effect ∷ []) k.effects (f p)
attempt-IsScanned height (err e) effect k f p = cc

store_and_rescan-IsScanned :
    (fuel : ℕ) (env : Answers) (s : RescanStatus) (start end height : ℕ)
    → s.queued_rescan_range ≡ some (start, end)
    → start ≤ height
    → height ≤ end
    → end < u64_max
    → (store_and_rescan fuel env s).result ≡ some (ok tt)
    → IsScanned height (store_and_rescan fuel env s).effects
unfolding store_and_rescan
store_and_rescan-IsScanned fuel env s start end height e h k m =
    attempt-IsScanned height (env.put s) (stored s) (rescan_chunks fuel env s 1) (λ p.
      Chunks-IsScanned (Unfinished (rescan_chunks fuel env s 1)) start end height
        (rescan_chunks fuel env s 1).effects (λ u. u p)
        (rescan_chunks-Chunks fuel env s 1 start end e (omega arith) m (omega arith)) h k)

-- Pruning keeps the blocks that the node still has.
prune_keeps :
    (s : RescanStatus) (start end pruned : ℕ)
    → s.queued_rescan_range ≡ some (start, end)
    → (prune s pruned).1.queued_rescan_range ≡ some (max start pruned, end)
unfolding prune
prune_keeps s start end pruned e = ground (arith, e)

-- The end of the range is below the largest 64-bit number.
abbrev pub HasRoom : Option (ℕ × ℕ) → Type 0
HasRoom none = Unit {0}
HasRoom (some (start, end)) = end < u64_max

queue_issues-HasRoom :
    (tip : ℕ) (s : RescanStatus) (issues : List IssueRequest)
    → tip < u64_max
    → HasRoom s.queued_rescan_range
    → All (λ i. i.btc_height < u64_max) issues
    → HasRoom (queue_issues tip s issues).queued_rescan_range
unfolding queue_issues queue_issue
queue_issues-HasRoom tip s [] h r a = r
queue_issues-HasRoom tip s (x ∷ xs) h r a =
    queue_issues-HasRoom tip (queue_issue tip s x) xs h (go s.queued_rescan_range) a.1
  where
    go :
        (q : Option (ℕ × ℕ))
        → max (elim q as (λ _. ℕ) [ some (b, _) ↦ min b x.btc_height | none ↦ x.btc_height ]) tip
          < u64_max
    go none = omega (arith, a.0)
    go (some (b, e)) = omega (arith, a.0)

scan_from-IsScanned :
    (fuel : ℕ) (env : Answers) (s : RescanStatus) (requests : List (H256 × IssueRequest))
    (tip pruned height issue_height : ℕ)
    → let s' = update s (map (λ r. r.1) requests) tip in
      HasRoom s'.queued_rescan_range
      → Covers s'.queued_rescan_range issue_height tip
      → issue_height ≤ height
      → pruned ≤ height
      → height ≤ tip
      → (scan_from fuel env s requests tip pruned).result ≡ some (ok tt)
      → IsScanned height (scan_from fuel env s requests tip pruned).effects
unfolding scan_from
scan_from-IsScanned fuel env s requests tip pruned height issue_height room covers h k l =
    queued s'.queued_rescan_range refl room covers
  where
    s' : RescanStatus
    s' = update s (map (λ r. r.1) requests) tip

    pruned_status : RescanStatus
    pruned_status = (prune s' pruned).1

    Looks : Option (ℕ × ℕ) → Type 0
    Looks o =
        let r =
          let y : Outcome = elim o [
            | none ↦ store_and_rescan fuel env pruned_status
            | some _ ↦
                attempt
                  (map_err bitcoin_error
                    (env.rescan_electrs_for_addresses (pruned_addresses env pruned requests)))
                  (electrs_scanned (pruned_addresses env pruned requests))
                  (store_and_rescan fuel env pruned_status)
          ] in
          y in
        r.result ≡ some (ok tt) → IsScanned height r.effects

    go :
        (o : Option (ℕ × ℕ))
        → ((store_and_rescan fuel env pruned_status).result ≡ some (ok tt)
            → IsScanned height (store_and_rescan fuel env pruned_status).effects)
        → Looks o
    go none f = f
    go (some _) f = attempt-IsScanned height _ _ (store_and_rescan fuel env pruned_status) f

    queued :
        (q : Option (ℕ × ℕ))
        → s'.queued_rescan_range ≡ q
        → HasRoom q
        → Covers q issue_height tip
        → Looks (prune s' pruned).0
    queued none e r c = absurd c
    queued (some (b, x)) e r c = go (prune s' pruned).0 (
        store_and_rescan-IsScanned fuel env pruned_status (max b pruned) x height
          (prune_keeps s' b x pruned e) (omega (arith, c.0)) (omega (arith, c.1)) r)

-- Every block from the issue's height and from the pruned height up to the tip is rescanned.
abbrev pub IsLookedFor : ℕ → ℕ → List Effect → IssueRequest → Type 0
IsLookedFor pruned tip effects issue =
    (height : ℕ)
    → issue.btc_height ≤ height
    → pruned ≤ height
    → height ≤ tip
    → IsScanned height effects

All-map_1 :
    (P : IssueRequest → Type 0) (requests : List (H256 × IssueRequest))
    → All (λ r. P r.1) requests
    → All P (map (λ r. r.1) requests)
All-map_1 P [] h = h
All-map_1 P (r ∷ rs) h = (h.0, All-map_1 P rs h.1)

All-from_map {ℓ} :
    (P Q : IssueRequest → Type ℓ) (requests : List (H256 × IssueRequest))
    → ((i : IssueRequest) → P i → Q i)
    → All P (map (λ r. r.1) requests)
    → All (λ r. Q r.1) requests
All-from_map P Q [] f h = tt
All-from_map P Q (r ∷ rs) f h = (f r.1 h.0, All-from_map P Q rs f h.1)

-- Once the status, the requests and the heights are known.
scan_past_lem :
    (fuel : ℕ) (env : Answers) (s : RescanStatus) (requests : List (H256 × IssueRequest))
    (tip pruned : ℕ)
    → env.get_block_count ≡ ok tip
    → env.get_pruned_height ≡ ok pruned
    → scan_past fuel env s requests
      ≡ after (add_deposit_keys env requests) (scan_from fuel env s requests tip pruned)
unfolding scan_past
scan_past_lem fuel env s requests tip pruned g h = simp (g, h)

past_lem :
    (fuel : ℕ) (env : Answers) (vault_id : VaultId) (status : Option RescanStatus)
    (all : List (H256 × IssueRequest))
    → env.get ≡ ok status
    → env.get_vault_issue_requests ≡ ok all
    → add_keys_from_past_issue_request fuel env vault_id
      ≡ scan_past fuel env (unwrap_or_default status) (filter_by (λ r. r.1.vault == vault_id) all)
unfolding add_keys_from_past_issue_request
past_lem fuel env vault_id status all e f = ground (arith, e, f)

-- If a start-up succeeds, no past payment to a new issue request is missed where the node still has
-- the blocks: with the stored status and the heights as given, each below the largest 64-bit
-- number, for each of this vault's requests that is newer than the stored status every block from
-- the request's height and the pruned height on up to the current height is rescanned.
pub past_payments-IsLookedFor :
    (fuel : ℕ) (env : Answers) (vault_id : VaultId) (status : Option RescanStatus)
    (all : List (H256 × IssueRequest)) (tip pruned : ℕ)
    → env.get ≡ ok status
    → env.get_vault_issue_requests ≡ ok all
    → env.get_block_count ≡ ok tip
    → env.get_pruned_height ≡ ok pruned
    → tip < u64_max
    → HasRoom (unwrap_or_default status).queued_rescan_range
    → All (λ r. r.1.btc_height < u64_max) all
    → (add_keys_from_past_issue_request fuel env vault_id).result ≡ some (ok tt)
    → All
        (λ r.
          (unwrap_or_default status).newest_issue_height < r.1.opentime
          → IsLookedFor pruned tip (add_keys_from_past_issue_request fuel env vault_id).effects r.1)
        (filter_by (λ r. r.1.vault == vault_id) all)
past_payments-IsLookedFor fuel env vault_id status all tip pruned e f g h t room a =
    subst Finds (sym outcome) found
  where
    s : RescanStatus
    s = unwrap_or_default status

    requests : List (H256 × IssueRequest)
    requests = filter_by (λ r. r.1.vault == vault_id) all

    issues : List IssueRequest
    issues = map (λ r. r.1) requests

    Finds : Outcome → Type 0
    Finds o =
        o.result ≡ some (ok tt)
        → All (λ r. s.newest_issue_height < r.1.opentime → IsLookedFor pruned tip o.effects r.1)
            requests

    outcome :
        add_keys_from_past_issue_request fuel env vault_id
        ≡ after (add_deposit_keys env requests) (scan_from fuel env s requests tip pruned)
    outcome =
        past_lem fuel env vault_id status all e f ∙ scan_past_lem fuel env s requests tip pruned g h

    has_room : HasRoom (update s issues tip).queued_rescan_range
    has_room =
        unfold update in
        queue_issues-HasRoom tip s (filter_by (λ i. ltb s.newest_issue_height i.opentime) issues) t
          room
          (All-filter_by (λ i. i.btc_height < u64_max) (λ i. ltb s.newest_issue_height i.opentime)
            issues
            (All-map_1 (λ i. i.btc_height < u64_max) requests
              (All-filter_by (λ r. r.1.btc_height < u64_max) (λ r. r.1.vault == vault_id) all a)))

    found : Finds (after (add_deposit_keys env requests) (scan_from fuel env s requests tip pruned))
    found p =
        All-from_map (IsUpdated s (update s issues tip) tip)
          (λ i.
            s.newest_issue_height < i.opentime
            → IsLookedFor pruned tip
                (add_deposit_keys env requests
                  ++ (scan_from fuel env s requests tip pruned).effects)
                i)
          requests
          (λ i u n height x y z. IsScanned-append height (add_deposit_keys env requests) _ (
            scan_from-IsScanned fuel env s requests tip pruned height i.btc_height has_room (u.1 n)
              x y z p))
          (update-IsUpdated s issues tip)
