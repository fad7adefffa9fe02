-- ===== src/Vault/OpenRequests/Scan.antt =====
-- What the scan of the chain in `execute_open_requests` (vault/src/execution.rs) does with a
-- transaction that it comes across.
use interbtc_clients.Prelude.{
  ◌≡◌, ◌≢◌, ◌⊎◌, refl, true, false, Option, none, some, List, [], ◌∷◌, ◌==◌, Result, ok, err, sym,
  ap, ◌∙◌, arith, Bool-cases, if_cases, inl, inr,
}
use mathlib.Core.Path.{subst}
use interbtc_clients.Runtime.Requests.{H256}
use interbtc_clients.Bitcoin.Errors as BitcoinErrors
use interbtc_clients.Bitcoin.Errors.{is_transport_error}
use interbtc_clients.Bitcoin.Transactions.{Transaction, get_op_return}
use interbtc_clients.Vault.Errors.{Error}
use interbtc_clients.Vault.Requests.{Request}
use interbtc_clients.Vault.OpenRequests.{
  Requests, Answers, Action, payment_worker, pay, lookup, remove, paid_in_full, request_of_hash,
  get_request_for_btc_tx, scan, before,
}
use interbtc_clients.Vault.OpenRequests.Counts.{
  count_open, IsKeyed, IsUnique, lookup-hash, count_open-remove, lookup-remove, remove-IsKeyed,
  remove-IsUnique,
}
use interbtc_clients.Vault.OpenRequests.Handled.{Accounts, scan-Accounts}

-- The transaction is in the stream.
abbrev pub Seen : Transaction → List (Result Transaction BitcoinErrors.Error) → Type 0
Seen tx [] = ⊥
Seen tx (ok tx' ∷ rest) = (tx' ≡ tx) ⊎ Seen tx rest
Seen tx (err e ∷ rest) = Seen tx rest

-- The task does not pay the request with this id.
abbrev pub DoesNotPay : H256 → Action → Type 0
DoesNotPay h (pay q) = q.hash ≢ h
DoesNotPay h (payment_worker q txid) = Unit {0}

-- The transaction carries the request's id, and pays its address its amount.
abbrev pub Pays : Answers → Transaction → Request → Type 0
Pays env tx q = (get_op_return tx ≡ some q.hash) × (paid_in_full env tx q ≡ some q)

request_of_hash_paid :
    (env : Answers) (tx : Transaction) (m : Requests) (hash : H256) (q : Request)
    → request_of_hash env tx m hash ≡ some q
    → (lookup hash m ≡ some q) × (paid_in_full env tx q ≡ some q)
unfolding request_of_hash paid_in_full
request_of_hash_paid env tx m hash q e = (ground arith, ground arith)

pub get_request_for_btc_tx-Pays :
    (env : Answers) (tx : Transaction) (m : Requests) (q : Request)
    → IsKeyed m
    → get_request_for_btc_tx env tx m ≡ some q
    → Pays env tx q
unfolding get_request_for_btc_tx
get_request_for_btc_tx-Pays env tx m q k = go (get_op_return tx) refl
  where
    go :
        (r : Option H256)
        → get_op_return tx ≡ r
        → elim r [ none ↦ none | some hash ↦ request_of_hash env tx m hash ] ≡ some q
        → Pays env tx q
    go none o e = cc
    go (some hash) o e =
        let found = request_of_hash_paid env tx m hash q e in
        (o ∙ ap some (sym (lookup-hash hash m q k found.0)), found.1)

get_request_for_btc_tx_of_lookup :
    (env : Answers) (tx : Transaction) (m : Requests) (q : Request)
    → Pays env tx q
    → lookup q.hash m ≡ some q
    → get_request_for_btc_tx env tx m ≡ some q
unfolding get_request_for_btc_tx request_of_hash
get_request_for_btc_tx_of_lookup env tx m q (h, p) l = ground (arith, h, p, l)

-- If the scan ends, the id is no longer in the map.
abbrev pub Gone : H256 → Result Requests Error × List Action → Type 0
Gone h (ok m, found) = count_open h m ≡ 0
Gone h (err e, found) = Unit {0}

before-Gone :
    (h : H256) (a : Action) (x : Result Requests Error × List Action)
    → Gone h x
    → Gone h (before a x)
before-Gone h a (ok m, found) g = g
before-Gone h a (err e, found) g = g

scan_keeps_Gone :
    (env : Answers) (h : H256) (stream : List (Result Transaction BitcoinErrors.Error))
    (m : Requests)
    → IsKeyed m
    → IsUnique m
    → count_open h m ≡ 0
    → Gone h (scan env stream m)
scan_keeps_Gone env h stream m k u z = go (scan env stream m) (scan-Accounts env h stream m k u)
  where
    go : (x : Result Requests Error × List Action) → Accounts h m x → Gone h x
    go (ok m', found) (e, _, _) = omega arith
    go (err e, found) a = tt

scan_finds :
    (env : Answers) (tx : Transaction) (q : Request)
    (rest : List (Result Transaction BitcoinErrors.Error)) (m : Requests)
    → get_request_for_btc_tx env tx m ≡ some q
    → scan env (ok tx ∷ rest) m
      ≡ before (payment_worker q tx.txid) (scan env rest (remove q.hash m))
unfolding scan
scan_finds env tx q rest m e = ground (arith, e)

pub scan-Seen :
    (env : Answers) (tx : Transaction) (q : Request)
    (stream : List (Result Transaction BitcoinErrors.Error)) (m : Requests)
    → IsKeyed m
    → IsUnique m
    → Pays env tx q
    → Seen tx stream
    → lookup q.hash m ≡ some q
    → Gone q.hash (scan env stream m)
unfolding scan
scan-Seen env tx q [] m k u p s l = elim s [ ]
scan-Seen env tx q (err e ∷ rest) m k u p s l =
    if_cases (Gone q.hash) (is_transport_error e) _ _ (λ _. tt)
      (λ _. scan-Seen env tx q rest m k u p s l)
scan-Seen env tx q (ok tx' ∷ rest) m k u p (inl same) l =
    let gone =
      scan_keeps_Gone env q.hash rest (remove q.hash m) (remove-IsKeyed q.hash m k)
        (remove-IsUnique q.hash m u) (ground (arith, count_open-remove q.hash q.hash m)) in
    subst (λ t. Gone q.hash (scan env (ok t ∷ rest) m)) (sym same)
      (subst (Gone q.hash)
        (sym (scan_finds env tx q rest m (get_request_for_btc_tx_of_lookup env tx m q p l)))
        (before-Gone q.hash (payment_worker q tx.txid) (scan env rest (remove q.hash m)) gone))
scan-Seen env tx q (ok tx' ∷ rest) m k u p (inr s) l =
    go (get_request_for_btc_tx env tx' m) (scan-Seen env tx q rest m k u p s l)
      (λ j e.
        scan_keeps_Gone env q.hash rest (remove j m) (remove-IsKeyed j m k) (remove-IsUnique j m u)
          (ground (arith, e, count_open-remove q.hash j m)))
      (λ j e.
        scan-Seen env tx q rest (remove j m) (remove-IsKeyed j m k) (remove-IsUnique j m u) p s
          (ground (arith, e, l, lookup-remove q.hash j m)))
  where
    go :
        (r : Option Request)
        → Gone q.hash (scan env rest m)
        → ((j : H256) → (j == q.hash) ≡ true → Gone q.hash (scan env rest (remove j m)))
        → ((j : H256) → (j == q.hash) ≡ false → Gone q.hash (scan env rest (remove j m)))
        → Gone q.hash (elim r [
          | none ↦ scan env rest m
          | some q' ↦ before (payment_worker q' tx'.txid) (scan env rest (remove q'.hash m))
        ])
    go none same hit miss = same
    go (some q') same hit miss =
        before-Gone q.hash (payment_worker q' tx'.txid) _
          (elim (Bool-cases (q'.hash == q.hash)) [ inl e ↦ hit q'.hash e | inr e ↦ miss q'.hash e ])
