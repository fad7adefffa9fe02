-- ===== src/Faucet/Cooldown.antt =====
-- How often the faucet funds an account (faucet/src/http.rs).
use mathlib.Core.Path.{subst}
use interbtc_clients.Prelude.{
  ℕ, ◌≤◌, ◌≡◌, refl, sym, ap, ◌∙◌, true, false, Option, some, none, List, [], if◌then◌else◌, Result,
  ok, err, ◌>>=◌, ok_or, arith,
}
use interbtc_clients.Runtime.Requests.{AccountId}
use interbtc_clients.Faucet.{
  Error, AccountType, FaucetRequest, CurrencyId, AllowanceConfig, Chrono, Answers, Store, Outcome,
  set, get_account_type, allowances, currencies, is_type_and_was_user, has_request_expired,
  ensure_signature_exists, check_balances, check_last_request, same_type, vault, user,
  account_already_funded, ensure_funding_allowed, transfer, record_and_transfer,
  atomic_faucet_funding, forget, fund_account, math_error,
}
use interbtc_clients.Faucet.Refused.{admission, forget-ok, fund_account_refused}

abbrev IsErr {ℓ} : {A : Type ℓ} → Result A Error → Type ℓ
IsErr {A = A} r = (e : Error) × (r ≡ err e)

bind-IsErr {ℓ} :
    {A B : Type ℓ} (r : Result A Error) (f : A → Result B Error)
    → ((x : A) → IsErr (f x))
    → IsErr (r >>= f)
bind-IsErr (ok x) f h = h x
bind-IsErr (err e) f h = (e, refl)

IsErr-bind {ℓ} :
    {A B : Type ℓ} (r : Result A Error) (f : A → Result B Error) → IsErr r → IsErr (r >>= f)
IsErr-bind r f (e, h) = subst (λ x. IsErr (x >>= f)) (sym h) (e, refl)

set_same : (kv : Store) (a : AccountId) (r : Option FaucetRequest) → set kv a r a ≡ r
set_same kv a r = ground arith

same_type_refl : (t : AccountType) → same_type t t ≡ true
unfolding same_type
same_type_refl user = refl
same_type_refl vault = refl

not_expired :
    (at threshold : ℕ) (t t' : AccountType)
    → same_type t' t ≡ true
    → threshold ≤ at
    → has_request_expired at threshold t t' ≡ false
unfolding same_type has_request_expired is_type_and_was_user
not_expired at threshold user user h k = ground arith
not_expired at threshold vault vault h k = ground arith
not_expired at threshold user vault h k = ground arith
not_expired at threshold vault user h k = ground arith

module _ (d : Chrono) (s : Answers) (c : AllowanceConfig) (kv : Store) (a : AccountId) where
  -- The request that a successful one leaves in the store.
  abbrev pub recorded : AccountType → FaucetRequest
  recorded t = record { datetime = d.to_rfc2822 s.now_at_update; account_type = t }

  record_and_transfer-records :
      (t : AccountType)
      → (record_and_transfer d s c kv a t).result ≡ ok tt
      → (record_and_transfer d s c kv a t).store a ≡ some (recorded t)
  unfolding record_and_transfer transfer
  record_and_transfer-records t h = go s.kv_set (currencies s (allowances c t)) h
    where
      go :
          (r : Result (Unit {0}) Error) (x : Result (List (ℕ × CurrencyId)) Error)
          → let o : Outcome = elim r [
            | err e ↦ record { result = err e; store = kv; transfers = [] }
            | ok _ ↦ transfer s (set kv a (some (recorded t))) x
          ] in
            o.result ≡ ok tt → o.store a ≡ some (recorded t)
      go (err e) x q = ground arith
      go (ok _) (err e) q = ground arith
      go (ok _) (ok amounts) q = set_same kv a (some (recorded t))

  atomic-records :
      (t : AccountType)
      → get_account_type s ≡ ok t
      → (atomic_faucet_funding d s c kv a).result ≡ ok tt
      → (atomic_faucet_funding d s c kv a).store a ≡ some (recorded t)
  unfolding atomic_faucet_funding
  atomic-records t h =
      subst
        (λ x.
          let o = outcome (x >>= λ t'. ensure_funding_allowed d s c kv a t' >>= λ _. ok t') in
          o.result ≡ ok tt → o.store a ≡ some (recorded t))
        (sym h) (go (ensure_funding_allowed d s c kv a t))
    where
      outcome : Result AccountType Error → Outcome
      outcome r = elim r [
        | err e ↦ record { result = err e; store = kv; transfers = [] }
        | ok t' ↦ record_and_transfer d s c kv a t'
      ]

      go :
          (r : Result (Unit {0}) Error)
          → let o = outcome (r >>= λ _. ok t) in o.result ≡ ok tt → o.store a ≡ some (recorded t)
      go (err e) k = ground arith
      go (ok _) k = record_and_transfer-records t k

  -- A request that succeeds is recorded, with the type of the account.
  pub fund_account_records :
      (permit : Result (Unit {0}) Error) (t : AccountType)
      → get_account_type s ≡ ok t
      → (fund_account d permit s c kv a).result ≡ ok tt
      → (fund_account d permit s c kv a).store a ≡ some (recorded t)
  unfolding fund_account
  fund_account_records permit t h k = go s.kv_open k
    where
      go :
          (r : Result (Unit {0}) Error)
          → let o : Outcome = elim r [
            | err e ↦ record { result = err e; store = kv; transfers = [] }
            | ok _ ↦ forget s a (atomic_faucet_funding d s c kv a)
          ] in
            o.result ≡ ok tt → o.store a ≡ some (recorded t)
      go (err e) q = ground arith
      go (ok _) q = finished (forget-ok s a (atomic_faucet_funding d s c kv a) q)
        where
          finished :
              ((atomic_faucet_funding d s c kv a).result ≡ ok tt)
                × ((forget s a (atomic_faucet_funding d s c kv a)).store
                    ≡ (atomic_faucet_funding d s c kv a).store)
              → (forget s a (atomic_faucet_funding d s c kv a)).store a ≡ some (recorded t)
          finished (x, y) = ap (λ kv'. kv' a) y ∙ atomic-records t h x

  check_last_request-IsErr :
      (t : AccountType) (last : FaucetRequest) (at threshold : ℕ)
      → kv a ≡ some last
      → same_type last.account_type t ≡ true
      → d.parse_from_rfc2822 last.datetime ≡ ok at
      → threshold ≤ at
      → check_last_request d threshold t (kv a) ≡ err account_already_funded
  unfolding check_last_request
  check_last_request-IsErr t last at threshold k same p h =
      rw (k, p, not_expired at threshold t last.account_type same h) refl

  -- The checks refuse a request before the cooldown is over.
  ensure_funding_allowed-IsErr :
      (t : AccountType) (last : FaucetRequest) (at : ℕ)
      → kv a ≡ some last
      → same_type last.account_type t ≡ true
      → d.parse_from_rfc2822 last.datetime ≡ ok at
      → ((threshold : ℕ)
          → d.checked_sub_hours s.now_at_check c.faucet_cooldown_hours ≡ some threshold
          → threshold ≤ at)
      → IsErr (ensure_funding_allowed d s c kv a t)
  unfolding ensure_funding_allowed
  ensure_funding_allowed-IsErr t last at k same p over =
      bind-IsErr (if c.has_auth_url then ensure_signature_exists s else ok tt) _ (λ _.
        bind-IsErr (currencies s (allowances c t)) _ (λ ids.
          bind-IsErr (check_balances s c ids) _
            (λ _. at_threshold (d.checked_sub_hours s.now_at_check c.faucet_cooldown_hours) over)))
    where
      at_threshold :
          (o : Option ℕ)
          → ((threshold : ℕ) → o ≡ some threshold → threshold ≤ at)
          → IsErr (
              ok_or o math_error >>= λ threshold.
              s.kv_get >>= λ _. check_last_request d threshold t (kv a))
      at_threshold none h = (math_error, refl)
      at_threshold (some threshold) h = bind-IsErr s.kv_get _ (λ _. (
        account_already_funded,
        check_last_request-IsErr t last at threshold k same p (h threshold refl),
      ))

  admission-IsErr :
      (t : AccountType)
      → get_account_type s ≡ ok t
      → IsErr (ensure_funding_allowed d s c kv a t)
      → IsErr (admission d s c kv a)
  admission-IsErr t g h =
      subst (λ r. IsErr (r >>= λ t'. ensure_funding_allowed d s c kv a t' >>= λ _. ok t')) (sym g)
        (IsErr-bind (ensure_funding_allowed d s c kv a t) (λ _. ok t) h)

-- After a request of an account has succeeded, a further one that finds the account of the same
-- type fails and transfers nothing, where the time of the first, as it is written to the store and
-- read again, is no earlier than the further request's time less the cooldown.
pub fund_account_cools_down :
    (d : Chrono) (permit permit' : Result (Unit {0}) Error) (s s' : Answers) (c : AllowanceConfig)
    (kv : Store) (a : AccountId) (t : AccountType) (at : ℕ)
    → get_account_type s ≡ ok t
    → get_account_type s' ≡ ok t
    → d.parse_from_rfc2822 (d.to_rfc2822 s.now_at_update) ≡ ok at
    → ((threshold : ℕ)
        → d.checked_sub_hours s'.now_at_check c.faucet_cooldown_hours ≡ some threshold
        → threshold ≤ at)
    → (fund_account d permit s c kv a).result ≡ ok tt
    → let further = fund_account d permit' s' c (fund_account d permit s c kv a).store a in
      (further.transfers ≡ []) × ((e : Error) × (further.result ≡ err e))
fund_account_cools_down d permit permit' s s' c kv a t at g g' p over h = go (
    admission-IsErr d s' c kv' a t g' (
      ensure_funding_allowed-IsErr d s' c kv' a t (recorded d s c kv a t) at
        (fund_account_records d s c kv a permit t g h) (same_type_refl t) p over))
  where
    kv' : Store
    kv' = (fund_account d permit s c kv a).store

    go :
        IsErr (admission d s' c kv' a)
        → let further = fund_account d permit' s' c kv' a in
          (further.transfers ≡ []) × ((e : Error) × (further.result ≡ err e))
    go (e, q) = fund_account_refused d s' c kv' a permit' e q
