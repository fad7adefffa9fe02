-- ===== src/Vault/Payment/Bumps.antt =====
-- What a fee bump is, and which bumps the answer to one event makes (vault/src/execution.rs).
use interbtc_clients.Prelude.{
  ℕ, ◌<◌, ◌≡◌, refl, Bool, true, false, Option, none, some, List, [], ◌∷◌, Result, ok, err, arith,
  IsAmong, ltb, if◌then◌else◌, Result-cases, inl, inr,
}
use interbtc_clients.Runtime.Errors.{RuntimeError, is_invalid_chain_id}
use interbtc_clients.Bitcoin.Errors as BitcoinErrors
use interbtc_clients.Vault.Errors.{Error, broadcast_stream_recv_error}
use interbtc_clients.Vault.Requests.{Request, to_sat_per_vbyte}
use interbtc_clients.Vault.Payment.{
  Txid, Address, Conversion, TransactionMetadata, Effect, sent, bumped, executions, Progress,
  finished, Run, FeeUpdate, InclusionEvent, metadata_ready, fee_update, new_estimate, higher_fee,
  still_in_mempool, propagate, Reaction, stop, go_on, try_bump, check_relay,
}

-- The update makes the node replace the first transaction by the second: its estimate is the new
-- rate, which is above the first one's, that is still in the mempool; and the node answers the
-- second when it is asked to pay that rate to the address of the request.
abbrev pub IsBump : Request → Conversion → Txid → Txid → Address → ℕ → ℕ → FeeUpdate → Type 0
IsBump request to_address old new a old_fee new_fee u =
    ((inner : ℕ) × (u.estimate ≡ some inner) × (to_sat_per_vbyte inner ≡ ok new_fee))
    × (u.fee_rate old ≡ ok old_fee)
    × (old_fee < new_fee)
    × (u.is_in_mempool old ≡ ok true)
    × (to_address request.btc_address ≡ ok a)
    × (u.bump_fee old a new_fee ≡ ok new)

-- The effects are bumps, each of the transaction that the one before it made, and each made by one
-- of the events.
abbrev pub IsChained : Request → Conversion → List InclusionEvent → Txid → List Effect → Type 0
IsChained request to_address events t [] = Unit {0}
IsChained request to_address events t (bumped old new a old_fee new_fee ∷ rest) =
    (old ≡ t)
    × ((u : FeeUpdate) × IsAmong (fee_update u) events
        × IsBump request to_address old new a old_fee new_fee u)
    × IsChained request to_address events new rest
IsChained request to_address events t (sent a sat fee_rate i ∷ rest) = ⊥
IsChained request to_address events t (executions y i proof calls ∷ rest) = ⊥

-- The transaction that the last bump made.
abbrev pub last_txid : Txid → List Effect → Txid
last_txid t [] = t
last_txid t (bumped old new a old_fee new_fee ∷ rest) = last_txid new rest
last_txid t (_ ∷ rest) = last_txid t rest

-- A bitcoin node answers with the metadata of the transaction that it is asked for.
abbrev pub IsFaithful : InclusionEvent → Type 0
IsFaithful (metadata_ready metadata relay) =
    (t : Txid) (m : TransactionMetadata) → metadata t ≡ ok m → m.txid ≡ t
IsFaithful _ = Unit {0}

-- A result is the metadata of this transaction.
abbrev pub IsOf : Txid → Progress TransactionMetadata → Type 0
IsOf t (finished (ok m)) = m.txid ≡ t
IsOf t _ = Unit {0}

module _ (request : Request) (to_address : Conversion) where
  abbrev pub Follows : List InclusionEvent → Txid → Run TransactionMetadata → Type 0
  Follows events t w =
      IsChained request to_address events t w.effects × IsOf (last_txid t w.effects) w.progress

  -- What a reaction to an event may be, for the transaction that is waited for.
  abbrev pub IsProper : InclusionEvent → Txid → Reaction → Type 0
  IsProper event t (stop r) = IsOf t (finished r)
  IsProper event t (go_on next []) = next ≡ t
  IsProper event t (go_on next (e ∷ es)) =
      (a : Address) × ((old_fee : ℕ) × ((new_fee : ℕ) × (e ∷ es
            ≡ bumped t next a old_fee new_fee ∷ [])
          × ((u : FeeUpdate) × (event ≡ fee_update u)
              × IsBump request to_address t next a old_fee new_fee u)))

-- What `higher_fee` passes on are the transaction's rate and the estimate, if it is higher.
abbrev IsHigher : FeeUpdate → Txid → Result ℕ Error → Option (Result (ℕ × ℕ) Error) → Type 0
IsHigher u t r (some (ok (old_fee, new_fee))) =
    (u.fee_rate t ≡ ok old_fee) × (old_fee < new_fee) × (r ≡ ok new_fee)
IsHigher u t r _ = Unit {0}

higher_fee-IsHigher :
    (u : FeeUpdate) (t : Txid) (r : Result ℕ Error) → IsHigher u t r (higher_fee u t r)
unfolding higher_fee
higher_fee-IsHigher u t (err e) = tt
higher_fee-IsHigher u t (ok x) = go (u.fee_rate t) refl
  where
    pick :
        (c : ℕ) (b : Bool)
        → u.fee_rate t ≡ ok c
        → ltb c x ≡ b
        → IsHigher u t (ok x) (if b then some (ok (c, x)) else none)
    pick c true e h = (e, ground arith, refl)
    pick c false e h = tt

    go :
        (r : Result ℕ BitcoinErrors.Error)
        → u.fee_rate t ≡ r
        → IsHigher u t
            (ok x)
            (elim r [ ok c ↦ if ltb c x then some (ok (c, x)) else none | err _ ↦ none ])
    go (ok c) e = pick c (ltb c x) e refl
    go (err y) e = tt

-- What the pipeline passes on are two such rates of a transaction that is still in the mempool.
abbrev IsRise : FeeUpdate → Txid → Option (Result (ℕ × ℕ) Error) → Type 0
IsRise u t (some (ok x)) =
    IsHigher u t (new_estimate u) (some (ok x)) × (u.is_in_mempool t ≡ ok true)
IsRise u t _ = Unit {0}

still_in_mempool-IsRise :
    (u : FeeUpdate) (t : Txid) (x : Option (Result (ℕ × ℕ) Error))
    → IsHigher u t (new_estimate u) x
    → IsRise u t (still_in_mempool u t x)
unfolding still_in_mempool
still_in_mempool-IsRise u t none h = tt
still_in_mempool-IsRise u t (some (err x)) h = elim (Result-cases (u.is_in_mempool t)) [
  | inl (true, e) ↦ rw (e, IsRise) tt
  | inl (false, e) ↦ rw (e, IsRise) tt
  | inr (x', e) ↦ rw (e, IsRise) tt
]
still_in_mempool-IsRise u t (some (ok x)) h = go (u.is_in_mempool t) refl
  where
    go :
        (r : Result Bool BitcoinErrors.Error)
        → u.is_in_mempool t ≡ r
        → IsRise u t (elim r [
          | ok b ↦ if b then some (ok x) else none
          | err e ↦ some (err (Error.bitcoin_error e))
        ])
    go (ok true) e = (h, e)
    go (ok false) e = tt
    go (err y) e = tt

pub propagate-IsRise :
    (auto_rbf : Bool) (u : FeeUpdate) (t : Txid) → IsRise u t (propagate auto_rbf u t)
unfolding propagate
propagate-IsRise false u t = tt
propagate-IsRise true u t = still_in_mempool-IsRise u t _ (higher_fee-IsHigher u t (new_estimate u))

-- Where an estimate is passed on, it is that of the update.
new_estimate-eq-ok :
    (u : FeeUpdate) (fee : ℕ)
    → new_estimate u ≡ ok fee
    → (inner : ℕ) × (u.estimate ≡ some inner) × (to_sat_per_vbyte inner ≡ ok fee)
unfolding new_estimate
new_estimate-eq-ok u fee = go u.estimate refl
  where
    go :
        (o : Option ℕ)
        → u.estimate ≡ o
        → elim o as (λ _. Result ℕ Error) [
          | none ↦ err broadcast_stream_recv_error
          | some inner ↦ to_sat_per_vbyte inner
        ]
          ≡ ok fee
        → (inner : ℕ) × (u.estimate ≡ some inner) × (to_sat_per_vbyte inner ≡ ok fee)
    go none e h = absurd cc
    go (some inner) e h = (inner, e, h)

pub try_bump-IsProper :
    (request : Request) (to_address : Conversion) (u : FeeUpdate) (t : Txid)
    (x : Option (Result (ℕ × ℕ) Error))
    → IsRise u t x
    → IsProper request to_address (fee_update u) t (try_bump request to_address u t x)
unfolding try_bump
try_bump-IsProper request to_address u t none h = refl
try_bump-IsProper request to_address u t (some (err e)) h = refl
try_bump-IsProper request to_address u t (some (ok (old_fee, new_fee))) ((f, l, n), m) =
    go (to_address request.btc_address) refl
  where
    bump :
        (a : Address)
        → to_address request.btc_address ≡ ok a
        → (r : Result Txid BitcoinErrors.Error) → u.bump_fee t a new_fee ≡ r
        → IsProper request to_address (fee_update u) t (elim r [
          | ok new_txid ↦ go_on new_txid (bumped t new_txid a old_fee new_fee ∷ [])
          | err _ ↦ go_on t []
        ])
    bump a e (ok new) b =
        (a, (old_fee, (new_fee, refl, (u, refl, (new_estimate-eq-ok u new_fee n, f, l, m, e, b)))))
    bump a e (err y) b = refl

    go :
        (r : Result Address BitcoinErrors.Error)
        → to_address request.btc_address ≡ r
        → IsProper request to_address (fee_update u) t (elim r [
          | err e ↦ stop (err (Error.bitcoin_error e))
          | ok a ↦ elim (u.bump_fee t a new_fee) [
            | ok new_txid ↦ go_on new_txid (bumped t new_txid a old_fee new_fee ∷ [])
            | err _ ↦ go_on t []
          ]
        ])
    go (err y) e = tt
    go (ok a) e = bump a e (u.bump_fee t a new_fee) refl

pub check_relay-IsProper :
    (request : Request) (to_address : Conversion) (event : InclusionEvent) (t : Txid)
    (m : TransactionMetadata) (r : Result (Unit {0}) RuntimeError)
    → m.txid ≡ t
    → IsProper request to_address event t (check_relay t m r)
unfolding check_relay
check_relay-IsProper request to_address event t m (ok x) h = h
check_relay-IsProper request to_address event t m (err e) h = go (is_invalid_chain_id e)
  where
    go :
        (b : Bool)
        → IsProper request to_address event t
            (if b then go_on t [] else stop (err (Error.runtime_error e)))
    go true = refl
    go false = tt
