-- ===== src/Faucet/Refused.antt =====
-- What a request to the faucet leaves (faucet/src/http.rs).
use mathlib.Core.Path.{subst}
use interbtc_clients.Prelude.{
  sym, Bool-cases, Result-cases, ℕ, ◌≡◌, refl, ◌⊎◌, inl, inr, List, [], ◌∷◌, some, Result, ok, err,
  ◌>>=◌, arith,
}
use interbtc_clients.Runtime.Requests.{AccountId}
use interbtc_clients.Faucet.{
  Error, AccountType, CurrencyId, AllowanceConfig, Chrono, Answers, Store, Outcome, set,
  get_account_type, allowances, currencies, ensure_funding_allowed, transfer, record_and_transfer,
  atomic_faucet_funding, resets, forget, fund_account,
}

-- The checks of a request, with the type of the account.
abbrev pub admission :
    Chrono → Answers → AllowanceConfig → Store → AccountId → Result AccountType Error
admission d s c kv a = get_account_type s >>= λ t. ensure_funding_allowed d s c kv a t >>= λ _. ok t

-- Nothing is transferred, or the checks allow it and exactly the type's allowances are.
abbrev pub IsPaidOnce : Chrono → Answers → AllowanceConfig → Store → AccountId → Outcome → Type 0
IsPaidOnce d s c kv a o =
    (o.transfers ≡ [])
    ⊎ ((t : AccountType) × (amounts : List (ℕ × CurrencyId)) × (admission d s c kv a ≡ ok t)
        × (currencies s (allowances c t) ≡ ok amounts)
        × (o.transfers ≡ amounts ∷ []))

module _ (s : Answers) where
  forget-transfers : (a : AccountId) (o : Outcome) → (forget s a o).transfers ≡ o.transfers
  unfolding forget
  forget-transfers a o = ground arith

  -- A request that ends well is as the funding left it.
  pub forget-ok :
      (a : AccountId) (o : Outcome)
      → (forget s a o).result ≡ ok tt
      → (o.result ≡ ok tt) × ((forget s a o).store ≡ o.store)
  unfolding forget
  forget-ok a o h = ground arith

  forget-err :
      (a : AccountId) (o : Outcome) (e : Error)
      → o.result ≡ err e
      → (x : Error) × ((forget s a o).result ≡ err x)
  unfolding forget
  forget-err a o e h = rw h (elim (Bool-cases (resets e)) [
    | inl q ↦ elim (Result-cases s.kv_remove) [
      | inl (y, k) ↦ (e, ground (arith, h, q, k))
      | inr (x, k) ↦ (x, ground (arith, h, q, k))
    ]
    | inr q ↦ (e, ground (arith, h, q))
  ])

module _ (d : Chrono) (s : Answers) (c : AllowanceConfig) (kv : Store) (a : AccountId) where
  abbrev refused : Error → Outcome
  refused e = record { result = err e; store = kv; transfers = [] }

  atomic-refused :
      (e : Error) → admission d s c kv a ≡ err e → atomic_faucet_funding d s c kv a ≡ refused e
  unfolding atomic_faucet_funding
  atomic-refused e h =
      subst
        (λ r.
          elim r [
            | err x ↦ record { result = err x; store = kv; transfers = [] }
            | ok t ↦ record_and_transfer d s c kv a t
          ]
          ≡ refused e)
        (sym h) refl

  -- Where the checks refuse a request, nothing is transferred, and the request fails.
  pub fund_account_refused :
      (permit : Result (Unit {0}) Error) (e : Error)
      → admission d s c kv a ≡ err e
      → ((fund_account d permit s c kv a).transfers ≡ [])
        × ((x : Error) × ((fund_account d permit s c kv a).result ≡ err x))
  unfolding fund_account
  fund_account_refused permit e h = go s.kv_open
    where
      go :
          (r : Result (Unit {0}) Error)
          → let o : Outcome = elim r [
            | err y ↦ record { result = err y; store = kv; transfers = [] }
            | ok _ ↦ forget s a (atomic_faucet_funding d s c kv a)
          ] in
            (o.transfers ≡ []) × ((x : Error) × (o.result ≡ err x))
      go (err y) = (refl, (y, refl))
      go (ok _) =
          subst
            (λ o. ((forget s a o).transfers ≡ []) × ((x : Error) × ((forget s a o).result ≡ err x)))
            (sym (atomic-refused e h))
            (forget-transfers s a (refused e), forget-err s a (refused e) e refl)

  record_and_transfer-transfers :
      (t : AccountType)
      → ((record_and_transfer d s c kv a t).transfers ≡ [])
        ⊎ ((amounts : List (ℕ × CurrencyId)) × (currencies s (allowances c t) ≡ ok amounts)
            × ((record_and_transfer d s c kv a t).transfers ≡ amounts ∷ []))
  unfolding record_and_transfer transfer
  record_and_transfer-transfers t = go s.kv_set (currencies s (allowances c t)) refl
    where
      go :
          (r : Result (Unit {0}) Error) (x : Result (List (ℕ × CurrencyId)) Error)
          → currencies s (allowances c t) ≡ x
          → let o : Outcome = elim r [
            | err e ↦ record { result = err e; store = kv; transfers = [] }
            | ok _ ↦
                transfer s
                  (set kv a
                    (some (record { datetime = d.to_rfc2822 s.now_at_update; account_type = t })))
                  x
          ] in
            (o.transfers ≡ [])
            ⊎ ((amounts : List (ℕ × CurrencyId)) × (currencies s (allowances c t) ≡ ok amounts)
                × (o.transfers ≡ amounts ∷ []))
      go (err e) x q = inl refl
      go (ok _) (err e) q = inl refl
      go (ok _) (ok amounts) q = inr (amounts, q, refl)

  atomic-IsPaidOnce : IsPaidOnce d s c kv a (atomic_faucet_funding d s c kv a)
  unfolding atomic_faucet_funding
  atomic-IsPaidOnce = go (admission d s c kv a) refl
    where
      go :
          (r : Result AccountType Error)
          → admission d s c kv a ≡ r
          → IsPaidOnce d s c kv a (elim r [
            | err e ↦ record { result = err e; store = kv; transfers = [] }
            | ok t ↦ record_and_transfer d s c kv a t
          ])
      go (err e) q = inl refl
      go (ok t) q = elim (record_and_transfer-transfers t) [
        | inl h ↦ inl h
        | inr (amounts, h, k) ↦ inr (t, amounts, q, h, k)
      ]

  -- A request transfers nothing, or its checks allow it and there is one transfer: the allowances
  -- of the account's type.
  pub fund_account_pays_once :
      (permit : Result (Unit {0}) Error) → IsPaidOnce d s c kv a (fund_account d permit s c kv a)
  unfolding fund_account
  fund_account_pays_once permit = go s.kv_open
    where
      go :
          (r : Result (Unit {0}) Error)
          → IsPaidOnce d s c kv a (elim r [
            | err y ↦ record { result = err y; store = kv; transfers = [] }
            | ok _ ↦ forget s a (atomic_faucet_funding d s c kv a)
          ])
      go (err y) = inl refl
      go (ok _) = rw (forget-transfers s a (atomic_faucet_funding d s c kv a)) atomic-IsPaidOnce
