-- ===== src/Vault/OpenRequests/Paid.antt =====
-- What `execute_open_requests` (vault/src/execution.rs) does about a payment that it finds.
use interbtc_clients.Prelude.{
  ℕ, ◌≡◌, true, Option, none, some, List, [], ◌∷◌, Result, ok, err, All, All-append, sym, arith,
  if_cases,
}
use mathlib.Core.Path.{subst}
use interbtc_clients.Runtime.Requests.{H256, RedeemRequest, ReplaceRequest}
use interbtc_clients.Bitcoin.Errors as BitcoinErrors
use interbtc_clients.Bitcoin.Errors.{is_transport_error}
use interbtc_clients.Bitcoin.Transactions.{Transaction}
use interbtc_clients.Vault.Errors.{Error}
use interbtc_clients.Vault.Requests.{Request}
use interbtc_clients.Vault.OpenRequests.{
  Requests, Answers, Action, payment_worker, remove, get_request_for_btc_tx, scan, before,
  pay_remaining, and_pay, find_and_pay, open_requests, execute_open_requests, btc_start_height,
}
use interbtc_clients.Vault.OpenRequests.Counts.{count_open, IsKeyed}
use interbtc_clients.Vault.OpenRequests.Handled.{
  Accounts, scan-Accounts, get_request_for_btc_tx-lookup, open_requests-IsKeyed,
  open_requests-IsUnique,
}
use interbtc_clients.Vault.OpenRequests.Scan.{
  Seen, DoesNotPay, get_request_for_btc_tx-Pays, Gone, scan-Seen,
}

scan-DoesNotPay :
    (env : Answers) (h : H256) (stream : List (Result Transaction BitcoinErrors.Error))
    (m : Requests)
    → All (DoesNotPay h) (scan env stream m).1
unfolding scan
scan-DoesNotPay env h [] m = tt
scan-DoesNotPay env h (ok tx ∷ rest) m =
    go (get_request_for_btc_tx env tx m) (scan-DoesNotPay env h rest m)
      (λ j. scan-DoesNotPay env h rest (remove j m))
  where
    go :
        (r : Option Request)
        → All (DoesNotPay h) (scan env rest m).1
        → ((j : H256) → All (DoesNotPay h) (scan env rest (remove j m)).1)
        → All
            (DoesNotPay h)
            (elim r as (λ x. Result Requests Error × List Action) [
              | none ↦ scan env rest m
              | some q ↦ before (payment_worker q tx.txid) (scan env rest (remove q.hash m))
            ]).1
    go none same less = same
    go (some q) same less = (tt, less q.hash)
scan-DoesNotPay env h (err e ∷ rest) m =
    if_cases (λ (x : Result Requests Error × List Action). All (DoesNotPay h) x.1)
      (is_transport_error e) _ _ (λ _. tt) (λ _. scan-DoesNotPay env h rest m)

pay_remaining-DoesNotPay :
    (env : Answers) (h : H256) (m : Requests)
    → IsKeyed m
    → count_open h m ≡ 0
    → All (DoesNotPay h) (pay_remaining env m).1
unfolding pay_remaining
pay_remaining-DoesNotPay env h [] k z = tt
pay_remaining-DoesNotPay env h ((j, q) ∷ m) k z =
    ground (arith, k.0, pay_remaining-DoesNotPay env h m k.1)

and_pay-DoesNotPay :
    (env : Answers) (h : H256) (m : Requests) (x : Result Requests Error × List Action)
    → Accounts h m x
    → Gone h x
    → All (DoesNotPay h) x.1
    → All (DoesNotPay h) (and_pay env x).1
and_pay-DoesNotPay env h m (err e, found) a g d = d
and_pay-DoesNotPay env h m (ok m', found) (e, k, u) g d =
    All-append (DoesNotPay h) found (pay_remaining env m').1 d
      (pay_remaining-DoesNotPay env h m' k g)

execute_open_requests_scans :
    (margin : ℕ) (env : Answers) (rs : List (H256 × RedeemRequest))
    (ps : List (H256 × ReplaceRequest)) (height : ℕ)
    (stream : List (Result Transaction BitcoinErrors.Error))
    → env.redeem_requests ≡ ok rs
    → env.replace_requests ≡ ok ps
    → env.is_full_node ≡ true
    → btc_start_height (open_requests margin rs ps) ≡ some height
    → env.transactions height ≡ ok stream
    → execute_open_requests margin env ≡ and_pay env (scan env stream (open_requests margin rs ps))
unfolding execute_open_requests find_and_pay
execute_open_requests_scans margin env rs ps height stream er ep full eh es = ground arith

-- A payment that a full node's scan comes across is not made a second time: if the parachain
-- answers with the vault's requests and the stream of
-- transactions, from the least height of the open requests on, holds a transaction that is matched
-- to an open request, then no task pays that request, whatever errors the stream holds besides.
pub found_payment_is_not_repeated :
    (margin : ℕ) (env : Answers) (rs : List (H256 × RedeemRequest))
    (ps : List (H256 × ReplaceRequest)) (height : ℕ)
    (stream : List (Result Transaction BitcoinErrors.Error)) (tx : Transaction) (q : Request)
    → env.redeem_requests ≡ ok rs
    → env.replace_requests ≡ ok ps
    → env.is_full_node ≡ true
    → btc_start_height (open_requests margin rs ps) ≡ some height
    → env.transactions height ≡ ok stream
    → Seen tx stream
    → get_request_for_btc_tx env tx (open_requests margin rs ps) ≡ some q
    → All (DoesNotPay q.hash) (execute_open_requests margin env).1
found_payment_is_not_repeated margin env rs ps height stream tx q er ep full eh es s e =
    let m = open_requests margin rs ps in
    let k = open_requests-IsKeyed margin rs ps in
    let u = open_requests-IsUnique margin rs ps in
    let gone =
      scan-Seen env tx q stream m k u (get_request_for_btc_tx-Pays env tx m q k e) s
        (get_request_for_btc_tx-lookup env tx m q k e) in
    let done =
      and_pay-DoesNotPay env q.hash m (scan env stream m) (scan-Accounts env q.hash stream m k u)
        gone (scan-DoesNotPay env q.hash stream m) in
    subst (λ (x : Result (Unit {0}) Error × List Action). All (DoesNotPay q.hash) x.1)
      (sym (execute_open_requests_scans margin env rs ps height stream er ep full eh es)) done
