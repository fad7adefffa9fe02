-- ===== src/Vault/OpenRequests/Complete.antt =====
-- When the start-up spawns a task for every open request (vault/src/execution.rs).
use interbtc_clients.Prelude.{
  ℕ, ◌≡◌, refl, true, false, Option, none, some, List, [], ◌∷◌, Result, ok, err, All, arith,
  if_cases,
}
use mathlib.Core.Path.{sym, subst}
use interbtc_clients.Runtime.Requests.{H256, RedeemRequest, ReplaceRequest}
use interbtc_clients.Bitcoin.Errors as BitcoinErrors
use interbtc_clients.Bitcoin.Errors.{is_transport_error}
use interbtc_clients.Bitcoin.Transactions.{Transaction}
use interbtc_clients.Vault.Errors.{Error}
use interbtc_clients.Vault.Requests.{Request}
use interbtc_clients.Vault.OpenRequests.{
  Requests, Answers, Action, payment_worker, remove, get_request_for_btc_tx, scan, before,
  pay_remaining, and_pay, find_and_pay, stream_and_pay, scan_and_pay, open_requests,
  execute_open_requests, btc_start_height,
}
use interbtc_clients.Vault.OpenRequests.Counts.{
  count_open, count_handled, count_handled-append, IsKeyed, IsUnique, remove-All,
}
use interbtc_clients.Vault.OpenRequests.Handled.{
  Accounts, scan-Accounts, open_requests-IsKeyed, open_requests-IsUnique,
}

-- The address can be converted, and the lookup by OP_RETURN gives an answer.
abbrev pub IsAnswered : Answers → H256 × Request → Type 0
IsAnswered env (i, q) =
    (address : ℕ) × (env.to_address q.btc_address ≡ ok address)
    × ((found : Option ℕ) × (env.get_tx_for_op_return address q.amount i ≡ ok found))

pay_remaining-eq :
    (env : Answers) (i : H256) (m : Requests)
    → IsKeyed m
    → All (IsAnswered env) m
    → ((pay_remaining env m).0 ≡ ok tt) × (count_handled i (pay_remaining env m).1 ≡ count_open i m)
unfolding pay_remaining
pay_remaining-eq env i [] k h = (refl, refl)
pay_remaining-eq env i ((j, q) ∷ m) k ((a, e, (none, f)), h) =
    ground (arith, e, f, k.0, pay_remaining-eq env i m k.1 h)
pay_remaining-eq env i ((j, q) ∷ m) k ((a, e, (some txid, f)), h) =
    ground (arith, e, f, k.0, pay_remaining-eq env i m k.1 h)

abbrev pub IsNoTransportError : Result Transaction BitcoinErrors.Error → Type 0
IsNoTransportError (ok tx) = Unit {0}
IsNoTransportError (err e) = is_transport_error e ≡ false

-- The scan came to its end, and `P` holds of the requests that are left.
abbrev Ended : (H256 × Request → Type 0) → Result Requests Error × List Action → Type 0
Ended P (ok m, found) = All P m
Ended P (err e, found) = ⊥

before-Ended :
    (P : H256 × Request → Type 0) (a : Action) (x : Result Requests Error × List Action)
    → Ended P x
    → Ended P (before a x)
before-Ended P a (ok m, found) h = h
before-Ended P a (err e, found) h = h

scan-Ended :
    (P : H256 × Request → Type 0) (env : Answers)
    (stream : List (Result Transaction BitcoinErrors.Error)) (m : Requests)
    → All IsNoTransportError stream
    → All P m
    → Ended P (scan env stream m)
unfolding scan
scan-Ended P env [] m t h = h
scan-Ended P env (ok tx ∷ rest) m t h =
    go (get_request_for_btc_tx env tx m) (scan-Ended P env rest m t.1 h)
      (λ j. scan-Ended P env rest (remove j m) t.1 (remove-All P j m h))
  where
    go :
        (r : Option Request)
        → Ended P (scan env rest m)
        → ((j : H256) → Ended P (scan env rest (remove j m)))
        → Ended P (elim r [
          | none ↦ scan env rest m
          | some q ↦ before (payment_worker q tx.txid) (scan env rest (remove q.hash m))
        ])
    go none same less = same
    go (some q) same less = before-Ended P (payment_worker q tx.txid) _ (less q.hash)
scan-Ended P env (err e ∷ rest) m t h = rw (t.0, Ended) (scan-Ended P env rest m t.1 h)

-- The result is a success, with exactly the tasks that the map asks for.
abbrev HandlesAll : H256 → Requests → Result (Unit {0}) Error × List Action → Type 0
HandlesAll i m (r, tasks) = (r ≡ ok tt) × (count_handled i tasks ≡ count_open i m)

and_pay-HandlesAll :
    (env : Answers) (i : H256) (m : Requests) (x : Result Requests Error × List Action)
    → Accounts i m x
    → Ended (IsAnswered env) x
    → HandlesAll i m (and_pay env x)
and_pay-HandlesAll env i m (err e, found) h a = elim a [ ]
and_pay-HandlesAll env i m (ok m', found) (h, k, u) a =
    let paid = pay_remaining-eq env i m' k a in
    (paid.0, omega (arith, paid.1, count_handled-append i found (pay_remaining env m').1))

-- The scan's stream comes, and no transport error is in it.
abbrev pub IsScannable : Answers → ℕ → Type 0
IsScannable env height =
    (stream : List (Result Transaction BitcoinErrors.Error)) × (env.transactions height ≡ ok stream)
    × All IsNoTransportError stream

scan_and_pay-HandlesAll :
    (env : Answers) (i : H256) (m : Requests) (o : Option ℕ)
    → IsKeyed m
    → IsUnique m
    → All (IsAnswered env) m
    → ((height : ℕ) → env.is_full_node ≡ true → IsScannable env height)
    → (o ≡ none → m ≡ [])
    → HandlesAll i m (scan_and_pay env m o)
unfolding scan_and_pay stream_and_pay
scan_and_pay-HandlesAll env i m none k u a s z = rw (z refl) (refl, refl)
scan_and_pay-HandlesAll env i m (some height) k u a s z =
    if_cases (HandlesAll i m) env.is_full_node _ _
      (λ full.
        let (stream, e, t) = s height full in
        subst (λ x. HandlesAll i m (stream_and_pay env m x)) (sym e)
          (and_pay-HandlesAll env i m (scan env stream m) (scan-Accounts env i stream m k u)
            (scan-Ended (IsAnswered env) env stream m t a)))
      (λ _. and_pay-HandlesAll env i m (ok m, []) (omega arith, k, u) a)

btc_start_height-none : (m : Requests) → btc_start_height m ≡ none → m ≡ []
unfolding btc_start_height
btc_start_height-none [] e = refl
btc_start_height-none ((j, q) ∷ m) e = absurd (ground arith)

-- If the parachain answers with the vault's requests, the chain can be scanned without a transport
-- error (by a full node) and there is an answer about each open request, then the start-up
-- succeeds, and of each id it spawns exactly as many tasks as there are open requests with it.
pub handled_exactly_once :
    (margin : ℕ) (env : Answers) (rs : List (H256 × RedeemRequest))
    (ps : List (H256 × ReplaceRequest)) (i : H256)
    → env.redeem_requests ≡ ok rs
    → env.replace_requests ≡ ok ps
    → ((height : ℕ) → env.is_full_node ≡ true → IsScannable env height)
    → All (IsAnswered env) (open_requests margin rs ps)
    → ((execute_open_requests margin env).0 ≡ ok tt)
      × (count_handled i (execute_open_requests margin env).1
          ≡ count_open i (open_requests margin rs ps))
unfolding execute_open_requests find_and_pay
handled_exactly_once margin env rs ps i e f s a =
    let m = open_requests margin rs ps in
    let h =
      scan_and_pay-HandlesAll env i m (btc_start_height m) (open_requests-IsKeyed margin rs ps)
        (open_requests-IsUnique margin rs ps) a s (btc_start_height-none m) in
    (ground (arith, e, f, h), ground (arith, e, f, h))
