-- ===== src/Vault/OpenRequests/Counts.antt =====
-- How often an id stands in the map of open requests, and how the map's operations change that
-- (vault/src/execution.rs).
use interbtc_clients.Prelude.{
  ℕ, ◌+◌, ◌≤◌, ◌≡◌, ◌≢◌, refl, not, none, some, List, [], ◌∷◌, ◌++◌, ◌==◌, if◌then◌else◌, All,
  All-filter_by, arith, Bool-cases, inl, inr,
}
use interbtc_clients.Runtime.Requests.{H256}
use interbtc_clients.Vault.Requests.{Request}
use interbtc_clients.Vault.OpenRequests.{
  Requests, Action, payment_worker, pay, lookup, insert, collect_into, remove,
}

-- How many elements have this key.
abbrev pub count_by : {A : Type 0} → (A → H256) → H256 → List A → ℕ
count_by key i [] = 0
count_by key i (x ∷ xs) = (if key x == i then 1 else 0) + count_by key i xs

abbrev pub count_open : H256 → Requests → ℕ
count_open = count_by (λ e. e.0)

abbrev pub request_of : Action → Request
request_of (payment_worker q txid) = q
request_of (pay q) = q

abbrev pub count_handled : H256 → List Action → ℕ
count_handled = count_by (λ a. (request_of a).hash)

pub count_handled-append :
    (i : H256) (xs ys : List Action)
    → count_handled i (xs ++ ys) ≡ count_handled i xs + count_handled i ys
count_handled-append i [] ys = omega arith
count_handled-append i (x ∷ xs) ys = omega (arith, count_handled-append i xs ys)

-- Each request stands under its own id.
abbrev pub IsKeyed : Requests → Type 0
IsKeyed = All (λ e. e.0 ≡ e.1.hash)

-- No id stands in the map twice.
abbrev pub IsUnique : Requests → Type 0
IsUnique m = (i : H256) → count_open i m ≤ 1

pub lookup-hash :
    (k : H256) (m : Requests) (q : Request) → IsKeyed m → lookup k m ≡ some q → q.hash ≡ k
unfolding lookup
lookup-hash k [] q h e = cc
lookup-hash k ((j, p) ∷ m) q h e = ground (arith, lookup-hash k m q h.1)

pub count_open-lookup :
    (k : H256) (m : Requests) (q : Request) → lookup k m ≡ some q → 1 ≤ count_open k m
unfolding lookup
count_open-lookup k [] q e = cc
count_open-lookup k ((j, p) ∷ m) q e = ground (arith, count_open-lookup k m q)

pub lookup-none_of_count : (k : H256) (m : Requests) → count_open k m ≡ 0 → lookup k m ≡ none
unfolding lookup
lookup-none_of_count k [] e = refl
lookup-none_of_count k ((j, p) ∷ m) e = ground (arith, lookup-none_of_count k m)

pub count_open-remove :
    (i k : H256) (m : Requests) → count_open i (remove k m) ≡ (if k == i then 0 else count_open i m)
unfolding remove
count_open-remove i k [] = ground arith
count_open-remove i k ((j, p) ∷ m) = ground (arith, count_open-remove i k m)

pub lookup-remove :
    (i k : H256) (m : Requests) → lookup i (remove k m) ≡ (if k == i then none else lookup i m)
unfolding lookup remove
lookup-remove i k [] = ground arith
lookup-remove i k ((j, p) ∷ m) = ground (arith, lookup-remove i k m)

pub remove-All :
    (P : H256 × Request → Type 0) (k : H256) (m : Requests) → All P m → All P (remove k m)
unfolding remove
remove-All P k m h = All-filter_by P (λ e. not (e.0 == k)) m h

pub remove-IsKeyed : (k : H256) (m : Requests) → IsKeyed m → IsKeyed (remove k m)
unfolding remove
remove-IsKeyed k [] h = tt
remove-IsKeyed k (e ∷ m) h = ground (arith, remove-IsKeyed k m h.1)

pub remove-IsUnique : (k : H256) (m : Requests) → IsUnique m → IsUnique (remove k m)
remove-IsUnique k m h i = ground (arith, count_open-remove i k m, h i)

count_open-insert_ne :
    (i k : H256) (q : Request) (m : Requests) → k ≢ i → count_open i (insert k q m) ≡ count_open i m
unfolding insert
count_open-insert_ne i k q [] h = ground arith
count_open-insert_ne i k q ((j, p) ∷ m) h = ground (arith, count_open-insert_ne i k q m h)

count_open-insert_self :
    (k : H256) (q : Request) (m : Requests) → count_open k m ≤ 1 → count_open k (insert k q m) ≡ 1
unfolding insert
count_open-insert_self k q [] h = ground arith
count_open-insert_self k q ((j, p) ∷ m) h = ground (arith, count_open-insert_self k q m)

insert-IsUnique : (k : H256) (q : Request) (m : Requests) → IsUnique m → IsUnique (insert k q m)
insert-IsUnique k q m h i = elim (Bool-cases (k == i)) [
  | inl e ↦ ground (arith, e, count_open-insert_self k q m (h k))
  | inr e ↦ ground (arith, e, h i, count_open-insert_ne i k q m)
]

insert-IsKeyed : (q : Request) (m : Requests) → IsKeyed m → IsKeyed (insert q.hash q m)
unfolding insert
insert-IsKeyed q [] h = (refl, tt)
insert-IsKeyed q ((j, p) ∷ m) h = ground (arith, insert-IsKeyed q m h.1)

-- What is collected into a map has each id once, and each request under its own id.
pub collect_into-IsUnique :
    (m : Requests) (qs : List Request) → IsUnique m → IsUnique (collect_into m qs)
unfolding collect_into
collect_into-IsUnique m [] h = h
collect_into-IsUnique m (q ∷ qs) h =
    collect_into-IsUnique (insert q.hash q m) qs (insert-IsUnique q.hash q m h)

pub collect_into-IsKeyed :
    (m : Requests) (qs : List Request) → IsKeyed m → IsKeyed (collect_into m qs)
unfolding collect_into
collect_into-IsKeyed m [] h = h
collect_into-IsKeyed m (q ∷ qs) h =
    collect_into-IsKeyed (insert q.hash q m) qs (insert-IsKeyed q m h)
