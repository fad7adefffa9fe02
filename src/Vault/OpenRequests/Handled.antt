-- ===== src/Vault/OpenRequests/Handled.antt =====
-- How many tasks the start-up spawns for each open request (vault/src/execution.rs).
use interbtc_clients.Prelude.{
  ℕ, ◌+◌, ◌≤◌, ◌≡◌, refl, Option, none, some, List, [], ◌∷◌, Result, ok, err, arith, Bool-cases,
  if_cases, inl, inr,
}
use mathlib.Core.Path.{sym, subst}
use interbtc_clients.Runtime.Requests.{H256, RedeemRequest, ReplaceRequest}
use interbtc_clients.Bitcoin.Errors as BitcoinErrors
use interbtc_clients.Bitcoin.Errors.{is_transport_error}
use interbtc_clients.Bitcoin.Transactions.{Transaction, get_op_return}
use interbtc_clients.Vault.Errors.{Error}
use interbtc_clients.Vault.Requests.{Request}
use interbtc_clients.Vault.OpenRequests.{
  Requests, Answers, Action, payment_worker, lookup, remove, paid_in_full, request_of_hash,
  get_request_for_btc_tx, scan, before, pay_remaining, and_pay, find_and_pay, read_requests,
  stream_and_pay, scan_and_pay, open_requests, execute_open_requests, btc_start_height,
}
use interbtc_clients.Vault.OpenRequests.Counts.{
  count_open, count_handled, count_handled-append, IsKeyed, IsUnique, lookup-hash,
  count_open-lookup, count_open-remove, remove-IsKeyed, remove-IsUnique, collect_into-IsKeyed,
  collect_into-IsUnique,
}

request_of_hash-lookup :
    (env : Answers) (tx : Transaction) (m : Requests) (k : H256) (q : Request)
    → request_of_hash env tx m k ≡ some q
    → lookup k m ≡ some q
unfolding request_of_hash paid_in_full
request_of_hash-lookup env tx m k q e = ground arith

-- A transaction is only ever matched to a request that is in the map under its own id.
pub get_request_for_btc_tx-lookup :
    (env : Answers) (tx : Transaction) (m : Requests) (q : Request)
    → IsKeyed m
    → get_request_for_btc_tx env tx m ≡ some q
    → lookup q.hash m ≡ some q
unfolding get_request_for_btc_tx
get_request_for_btc_tx-lookup env tx m q h = go (get_op_return tx)
  where
    go :
        (r : Option H256)
        → elim r [ none ↦ none | some hash ↦ request_of_hash env tx m hash ] ≡ some q
        → lookup q.hash m ≡ some q
    go none e = cc
    go (some k) e =
        let found = request_of_hash-lookup env tx m k q e in
        subst (λ j. lookup j m ≡ some q) (sym (lookup-hash k m q h found)) found

-- The tasks for id `i`, and what is left of it in the map, make up what was in the map.
abbrev pub Accounts : H256 → Requests → Result Requests Error × List Action → Type 0
Accounts i m (ok m', as') =
    (count_handled i as' + count_open i m' ≡ count_open i m) × IsKeyed m' × IsUnique m'
Accounts i m (err e, as') = count_handled i as' ≤ count_open i m

before-Accounts :
    (i : H256) (m : Requests) (q : Request) (txid : ℕ) (x : Result Requests Error × List Action)
    → IsUnique m
    → lookup q.hash m ≡ some q
    → Accounts i (remove q.hash m) x
    → Accounts i m (before (payment_worker q txid) x)
before-Accounts i m q txid (ok m', as') u e (h, k, v) = (
  ground (arith, h, u q.hash, count_open-lookup q.hash m q e, count_open-remove i q.hash m),
  k,
  v,
)
before-Accounts i m q txid (err x, as') u e h =
    ground (arith, h, u q.hash, count_open-lookup q.hash m q e, count_open-remove i q.hash m)

pub scan-Accounts :
    (env : Answers) (i : H256) (stream : List (Result Transaction BitcoinErrors.Error))
    (m : Requests)
    → IsKeyed m
    → IsUnique m
    → Accounts i m (scan env stream m)
unfolding scan
scan-Accounts env i [] m k u = (omega arith, k, u)
scan-Accounts env i (ok tx ∷ rest) m k u =
    go (get_request_for_btc_tx env tx m) refl (scan-Accounts env i rest m k u)
      (λ j. scan-Accounts env i rest (remove j m) (remove-IsKeyed j m k) (remove-IsUnique j m u))
  where
    go :
        (r : Option Request)
        → get_request_for_btc_tx env tx m ≡ r
        → Accounts i m (scan env rest m)
        → ((j : H256) → Accounts i (remove j m) (scan env rest (remove j m)))
        → Accounts i m (elim r [
          | none ↦ scan env rest m
          | some q ↦ before (payment_worker q tx.txid) (scan env rest (remove q.hash m))
        ])
    go none e same less = same
    go (some q) e same less =
        before-Accounts i m q tx.txid _ u (get_request_for_btc_tx-lookup env tx m q k e)
          (less q.hash)
scan-Accounts env i (err e ∷ rest) m k u = elim (Bool-cases (is_transport_error e)) [
  | inl t ↦ rw (t, Accounts) (omega arith)
  | inr f ↦ rw (f, Accounts) (scan-Accounts env i rest m k u)
]

pub pay_remaining-le :
    (env : Answers) (i : H256) (m : Requests)
    → IsKeyed m
    → count_handled i (pay_remaining env m).1 ≤ count_open i m
unfolding pay_remaining
pay_remaining-le env i [] k = omega arith
pay_remaining-le env i ((j, q) ∷ m) k = ground (arith, k.0, pay_remaining-le env i m k.1)

and_pay-le :
    (env : Answers) (i : H256) (m : Requests) (x : Result Requests Error × List Action)
    → Accounts i m x
    → count_handled i (and_pay env x).1 ≤ count_open i m
and_pay-le env i m (err e, found) h = h
and_pay-le env i m (ok m', found) (h, k, u) =
    omega
      (arith, pay_remaining-le env i m' k, count_handled-append i found (pay_remaining env m').1)

stream_and_pay-le :
    (env : Answers) (i : H256) (m : Requests)
    (s : Result (List (Result Transaction BitcoinErrors.Error)) BitcoinErrors.Error)
    → IsKeyed m
    → IsUnique m
    → count_handled i (stream_and_pay env m s).1 ≤ count_open i m
unfolding stream_and_pay
stream_and_pay-le env i m (err e) k u = omega arith
stream_and_pay-le env i m (ok stream) k u = and_pay-le env i m _ (scan-Accounts env i stream m k u)

scan_and_pay-le :
    (env : Answers) (i : H256) (m : Requests) (o : Option ℕ)
    → IsKeyed m
    → IsUnique m
    → count_handled i (scan_and_pay env m o).1 ≤ count_open i m
unfolding scan_and_pay
scan_and_pay-le env i m none k u = omega arith
scan_and_pay-le env i m (some height) k u =
    if_cases (λ (t : Result (Unit {0}) Error × List Action). count_handled i t.1 ≤ count_open i m)
      env.is_full_node _ _ (λ _. stream_and_pay-le env i m (env.transactions height) k u)
      (λ _. and_pay-le env i m (ok m, []) (omega arith, k, u))

pub open_requests-IsKeyed :
    (margin : ℕ) (rs : List (H256 × RedeemRequest)) (ps : List (H256 × ReplaceRequest))
    → IsKeyed (open_requests margin rs ps)
unfolding open_requests
open_requests-IsKeyed margin rs ps = collect_into-IsKeyed [] (read_requests margin rs ps) tt

pub open_requests-IsUnique :
    (margin : ℕ) (rs : List (H256 × RedeemRequest)) (ps : List (H256 × ReplaceRequest))
    → IsUnique (open_requests margin rs ps)
unfolding open_requests
open_requests-IsUnique margin rs ps =
    collect_into-IsUnique [] (read_requests margin rs ps) (λ i. omega arith)

-- The start-up never spawns two tasks for one id: once the parachain has answered with the vault's
-- requests, and whatever the other answers are, at most one of the tasks is for a given id, and
-- none if no open request has it.
pub handled_at_most_once :
    (margin : ℕ) (env : Answers) (rs : List (H256 × RedeemRequest))
    (ps : List (H256 × ReplaceRequest)) (i : H256)
    → env.redeem_requests ≡ ok rs
    → env.replace_requests ≡ ok ps
    → let m = open_requests margin rs ps in
      (count_handled i (execute_open_requests margin env).1 ≤ count_open i m) × (count_open i m ≤ 1)
unfolding execute_open_requests find_and_pay
handled_at_most_once margin env rs ps i e f =
    let m = open_requests margin rs ps in
    let k = open_requests-IsKeyed margin rs ps in
    let u = open_requests-IsUnique margin rs ps in
    (ground (arith, e, f, scan_and_pay-le env i m (btc_start_height m) k u), u i)
