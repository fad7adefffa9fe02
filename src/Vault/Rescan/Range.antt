-- ===== src/Vault/Rescan/Range.antt =====
-- The range that is queued for a rescan (`RescanStatus`, vault/src/issue.rs).
use mathlib.Core.Path.{subst}
use interbtc_clients.Prelude.{
  ℕ, ◌≡◌, ◌≤◌, ◌<◌, refl, ap, Bool, true, false, Option, none, some, List, [], ◌∷◌, arith, ltb,
  filter_by, Bool-cases, inl, inr, All, if◌then◌else◌, min, max, lt→ltb, u64_max,
}
use interbtc_clients.Runtime.Requests.{IssueRequest}
use interbtc_clients.Vault.Rescan.{
  RescanStatus, queue_issue, queue_issues, update, prune, process_blocks,
}

-- A queued range has no more than the blocks up to `tip` and is not empty.
abbrev pub IsQueued : Option (ℕ × ℕ) → Type 0
IsQueued none = Unit {0}
IsQueued (some (start, end)) = start ≤ end

-- Every block from `height` to `tip` is queued.
abbrev pub Covers : Option (ℕ × ℕ) → ℕ → ℕ → Type 0
Covers none height tip = ⊥
Covers (some (start, end)) height tip = (start ≤ height) × (tip ≤ end)

-- The issue is not new any more, and the blocks from its height on are queued.
abbrev pub IsCovered : RescanStatus → ℕ → IssueRequest → Type 0
IsCovered s tip issue =
    (issue.opentime ≤ s.newest_issue_height) × Covers s.queued_rescan_range issue.btc_height tip

queue_issue-IsCovered :
    (tip : ℕ) (s : RescanStatus) (issue : IssueRequest)
    → IsCovered (queue_issue tip s issue) tip issue
unfolding queue_issue
queue_issue-IsCovered tip s issue = go s.queued_rescan_range
  where
    go :
        (q : Option (ℕ × ℕ))
        → let begin : ℕ = elim q [
          | some (b, _) ↦ min b issue.btc_height
          | none ↦ issue.btc_height
        ] in
          (issue.opentime ≤ max s.newest_issue_height issue.opentime)
          × ((begin ≤ issue.btc_height) × (tip ≤ max begin tip))
    go none = omega arith
    go (some (b, e)) = omega arith

-- A new tip may be lower than an old end, but not than an end that was queued for the same tip.
queue_issue_keeps :
    (tip : ℕ) (s : RescanStatus) (issue other : IssueRequest)
    → IsCovered s tip other
    → IsCovered (queue_issue tip s issue) tip other
unfolding queue_issue
queue_issue_keeps tip s issue other (n, c) = go s.queued_rescan_range c
  where
    go :
        (q : Option (ℕ × ℕ))
        → Covers q other.btc_height tip
        → let begin : ℕ = elim q [
          | some (b, _) ↦ min b issue.btc_height
          | none ↦ issue.btc_height
        ] in
          (other.opentime ≤ max s.newest_issue_height issue.opentime)
          × ((begin ≤ other.btc_height) × (tip ≤ max begin tip))
    go none h = absurd h
    go (some (b, e)) h = omega arith

queue_issues_keeps :
    (tip : ℕ) (s : RescanStatus) (issues : List IssueRequest) (other : IssueRequest)
    → IsCovered s tip other
    → IsCovered (queue_issues tip s issues) tip other
unfolding queue_issues
queue_issues_keeps tip s [] other c = c
queue_issues_keeps tip s (x ∷ xs) other c =
    queue_issues_keeps tip (queue_issue tip s x) xs other (queue_issue_keeps tip s x other c)

queue_issues-IsCovered :
    (tip : ℕ) (s : RescanStatus) (issues : List IssueRequest)
    → All (IsCovered (queue_issues tip s issues) tip) issues
unfolding queue_issues
queue_issues-IsCovered tip s [] = tt
queue_issues-IsCovered tip s (x ∷ xs) = (
  queue_issues_keeps tip (queue_issue tip s x) xs x (queue_issue-IsCovered tip s x),
  queue_issues-IsCovered tip (queue_issue tip s x) xs,
)

queue_issues_newest :
    (tip : ℕ) (s : RescanStatus) (issues : List IssueRequest)
    → s.newest_issue_height ≤ (queue_issues tip s issues).newest_issue_height
unfolding queue_issues queue_issue
queue_issues_newest tip s [] = omega arith
queue_issues_newest tip s (x ∷ xs) = omega (arith, queue_issues_newest tip (queue_issue tip s x) xs)

-- What holds of the elements that a filter keeps.
All-of_filter_by {ℓ κ} :
    {A : Type ℓ} (P : A → Type κ) (p : A → Bool) (xs : List A)
    → All P (filter_by p xs)
    → All (λ x. p x ≡ true → P x) xs
All-of_filter_by P p [] h = tt
All-of_filter_by {A} P p (x ∷ xs) h = elim (Bool-cases (p x)) [
  | inl e ↦
      let kept : All P (x ∷ filter_by p xs) =
        subst (λ b. All P (if b then x ∷ filter_by p xs else filter_by p xs)) e h in
      ((λ _. kept.0), All-of_filter_by P p xs kept.1)
  | inr e ↦ (
    (λ k. cc),
    All-of_filter_by P p xs
        (subst (λ b. All P (if b then x ∷ filter_by p xs else filter_by p xs)) e h),
  )
]

filter_by-none {ℓ} :
    {A : Type ℓ} (p : A → Bool) (xs : List A) → All (λ x. p x ≡ false) xs → filter_by p xs ≡ []
filter_by-none p [] h = refl
filter_by-none p (x ∷ xs) h = rw h.0 (filter_by-none p xs h.1)

All-map {ℓ κ} :
    {A : Type ℓ} (P Q : A → Type κ) (xs : List A) → ((x : A) → P x → Q x) → All P xs → All Q xs
All-map P Q [] f h = tt
All-map P Q (x ∷ xs) f h = (f x h.0, All-map P Q xs f h.1)

-- What `update` does for an issue.
abbrev pub IsUpdated : RescanStatus → RescanStatus → ℕ → IssueRequest → Type 0
IsUpdated s s' tip issue =
    (issue.opentime ≤ s'.newest_issue_height)
    × (s.newest_issue_height < issue.opentime → Covers s'.queued_rescan_range issue.btc_height tip)

pub update-IsUpdated :
    (s : RescanStatus) (issues : List IssueRequest) (tip : ℕ)
    → All (IsUpdated s (update s issues tip) tip) issues
unfolding update
update-IsUpdated s issues tip =
    let new : IssueRequest → Bool = λ i. ltb s.newest_issue_height i.opentime in
    let s' = queue_issues tip s (filter_by new issues) in
    let old : s.newest_issue_height ≤ s'.newest_issue_height =
      queue_issues_newest tip s (filter_by new issues) in
    All-map (λ i. new i ≡ true → IsCovered s' tip i) (IsUpdated s s' tip) issues
      (λ i covered. (
        elim (Bool-cases (new i)) [ inl e ↦ (covered e).0 | inr e ↦ ground (arith, old, e) ],
        λ h. (covered (lt→ltb _ _ h)).1,
      ))
      (All-of_filter_by (IsCovered s' tip) new issues
        (queue_issues-IsCovered tip s (filter_by new issues)))

-- Looking at a vault's issues queues all that it has to, once: afterwards each issue is at most as
-- new as the newest that was looked at, all blocks from the height of an issue that was new up to
-- the current height are queued, and to look at the same issues again changes nothing, whatever the
-- current height is by then.
pub update_lem :
    (s : RescanStatus) (issues : List IssueRequest) (tip later : ℕ)
    → All (IsUpdated s (update s issues tip) tip) issues
      × (update (update s issues tip) issues later ≡ update s issues tip)
update_lem s issues tip later = (update-IsUpdated s issues tip, again)
  where
    s' : RescanStatus
    s' = update s issues tip

    again : update s' issues later ≡ s'
    again =
        unfold update queue_issues in
        ap (queue_issues later s') (
          filter_by-none (λ i. ltb s'.newest_issue_height i.opentime) issues
            (All-map (IsUpdated s s' tip) (λ i. ltb s'.newest_issue_height i.opentime ≡ false)
              issues (λ i u. ground (arith, u.0)) (update-IsUpdated s issues tip)))

-- A node that has pruned the end of the range as well leaves an empty range, which the next chunk
-- asks for in reverse: from the first block that the node still has down to the queued end.
pub prune_reverses :
    (s : RescanStatus) (start end pruned chunk_size : ℕ)
    → s.queued_rescan_range ≡ some (start, end)
    → start ≤ end
    → end < pruned
    → pruned < u64_max
    → 0 < chunk_size
    → (process_blocks (prune s pruned).1 chunk_size).0 ≡ some (pruned, end)
unfolding prune process_blocks
prune_reverses s start end pruned chunk_size e h k m c = ground (arith, e)
