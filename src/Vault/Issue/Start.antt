-- ===== src/Vault/Issue/Start.antt =====
-- The issue requests that are watched from the start (`initialize_issue_set`, vault/src/issue.rs).
use mathlib.Core.Path.{subst}
use interbtc_clients.Prelude.{
  ℕ, ◌%◌, ◌^◌, ◌≡◌, ◌≤◌, refl, sym, Option, none, some, List, [], ◌∷◌, min, arith, Result, ok, err,
  All,
}
use interbtc_clients.Vault.Errors.{Error, bitcoin_error}
use interbtc_clients.Runtime.Requests.{H256, BtcAddress, IssueRequest}
use interbtc_clients.Bitcoin.Errors as BitcoinErrors
use interbtc_clients.Vault.IssueSet.{ReversibleHashMap, insert, inserted}
use interbtc_clients.Vault.IssueSet.Watched.{
  WatchedSet, IsInjective, Represents, watched_step, inserted-Represents,
}
use interbtc_clients.Vault.Issue.{watch_all, least_height, initialize_issue_set}

-- Each height of the list is at least this one.
abbrev pub IsStart : ℕ → List (H256 × IssueRequest) → Type 0
IsStart h requests = All (λ r. h ≤ r.1.btc_height) requests

module _ (address : H256 → BtcAddress) where
  -- The parachain has an address of its own for each id.
  abbrev pub HasAddresses : List (H256 × IssueRequest) → Type 0
  HasAddresses requests = All (λ r. r.1.btc_address ≡ address r.0) requests

  abbrev pub with_ids : List (H256 × IssueRequest) → WatchedSet → WatchedSet
  with_ids [] s = s
  with_ids (r ∷ rest) s = with_ids rest (watched_step address (inserted r.0 (address r.0)) s)

  watch_all-Represents :
      (requests : List (H256 × IssueRequest)) (m : ReversibleHashMap) (s : WatchedSet)
      → IsInjective address
      → HasAddresses requests
      → Represents address m s
      → Represents address (watch_all requests m) (with_ids requests s)
  unfolding watch_all
  watch_all-Represents [] m s inj h r = r
  watch_all-Represents ((i, request) ∷ rest) m s inj (e, h) r =
      watch_all-Represents rest (insert i request.btc_address m).1
        (watched_step address (inserted i (address i)) s) inj h
        (subst
          (λ a.
            Represents address (insert i a m).1 (watched_step address (inserted i (address i)) s))
          (sym e) (inserted-Represents address m s i inj r))

IsStart-le :
    (h l : ℕ) (requests : List (H256 × IssueRequest))
    → l ≤ h
    → IsStart h requests
    → IsStart l requests
IsStart-le h l [] p s = tt
IsStart-le h l (r ∷ rest) p s = (omega (arith, s.0), IsStart-le h l rest p s.1)

least_height-none :
    (requests : List (H256 × IssueRequest)) (h : ℕ)
    → least_height requests ≡ none
    → IsStart h requests
unfolding least_height
least_height-none [] h e = tt
least_height-none ((i, request) ∷ rest) h e = absurd (go (least_height rest) e)
  where
    go :
        (o : Option ℕ)
        → elim o as (λ _. Option ℕ) [
          | none ↦ some request.btc_height
          | some l ↦ some (min request.btc_height l)
        ]
          ≡ none
        → ⊥
    go none p = cc
    go (some l) p = cc

least_height-IsStart :
    (requests : List (H256 × IssueRequest)) (h : ℕ)
    → least_height requests ≡ some h
    → IsStart h requests
unfolding least_height
least_height-IsStart [] h e = tt
least_height-IsStart ((i, request) ∷ rest) h e =
    go (least_height rest) refl (least_height-IsStart rest) e
  where
    go :
        (o : Option ℕ)
        → least_height rest ≡ o
        → ((l : ℕ) → least_height rest ≡ some l → IsStart l rest)
        → elim o as (λ _. Option ℕ) [
          | none ↦ some request.btc_height
          | some l ↦ some (min request.btc_height l)
        ]
          ≡ some h
        → (h ≤ request.btc_height) × IsStart h rest
    go none f rec p = (ground arith, least_height-none rest h f)
    go (some l) f rec p = (ground arith, IsStart-le l h rest (ground arith) (rec l f))

-- Where each id has its own address and the map holds just the ids of a set: if the start succeeds,
-- the height to start at is at most the height of each active issue request, and the map holds just
-- the ids that it held and those of the active requests, each found by its address.
pub initialize_issue_set_lem :
    (address : H256 → BtcAddress) (block_count : Result ℕ BitcoinErrors.Error)
    (requests : List (H256 × IssueRequest)) (m : ReversibleHashMap) (s : WatchedSet) (h : ℕ)
    → IsInjective address
    → HasAddresses address requests
    → Represents address m s
    → (initialize_issue_set block_count (ok requests) m).0 ≡ ok h
    → IsStart h requests
      × Represents address
          (initialize_issue_set block_count (ok requests) m).1
          (with_ids address requests s)
unfolding initialize_issue_set
initialize_issue_set_lem address block_count requests m s h inj a r =
    go (least_height requests) refl block_count
  where
    watched : Represents address (watch_all requests m) (with_ids address requests s)
    watched = watch_all-Represents address requests m s inj a r

    Starts : Result ℕ Error × ReversibleHashMap → Type 0
    Starts (x, m') =
        x ≡ ok h → IsStart h requests × Represents address m' (with_ids address requests s)

    go :
        (o : Option ℕ)
        → least_height requests ≡ o
        → (b : Result ℕ BitcoinErrors.Error)
        → Starts (elim o as (λ _. Result ℕ Error × ReversibleHashMap) [
          | some l ↦ (ok l, watch_all requests m)
          | none ↦ elim b as (λ _. Result ℕ Error × ReversibleHashMap) [
            | err e ↦ (err (bitcoin_error e), m)
            | ok count ↦ (ok (count % 2 ^ 32), watch_all requests m)
          ]
        ])
    go (some l) e b p = (least_height-IsStart requests h (ground (arith, e, p)), watched)
    go none e (ok count) p = (least_height-none requests h e, watched)
    go none e (err x) p = cc
