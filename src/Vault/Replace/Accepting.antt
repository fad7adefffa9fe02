-- ===== src/Vault/Replace/Accepting.antt =====
-- Which replace requests are accepted, and by whom (vault/src/replace.rs).
use interbtc_clients.Prelude.{
  ℕ, ◌+◌, ◌≡◌, ◌≤◌, refl, ◌∙◌, Bool, true, false, List, [], ◌∷◌, ◌++◌, inl, inr, ◌⊎◌, ltb,
  if◌then◌else◌, if_cases, Result, ok, err, map_err, arith, All, All-append, u128_max,
  saturating_add,
}
use interbtc_clients.Runtime.Errors.{RuntimeError}
use interbtc_clients.Runtime.Requests.{VaultId, BtcAddress}
use interbtc_clients.Vault.Errors.{Error, runtime_error, insufficient_funds}
use interbtc_clients.Vault.Cancellation.{Event, opened}
use interbtc_clients.Vault.Replace.{
  RequestReplaceEvent, Collateral, VaultAnswers, Attempt, refused, accept, new_btc_address,
  handle_replace_request, try_vaults, on_replace_request,
}

-- The attempt offers what was asked for to this vault, without more collateral, and the collateral
-- that the vault has covers what is required of it together with the replaced amount.
pub record IsOffer (event : RequestReplaceEvent) (v : VaultAnswers) (a : Attempt) : Type 0 where
  pub by : a.call.new_vault_id ≡ v.vault_id
  pub of : a.call.old_vault_id ≡ event.old_vault_id
  pub whole : a.call.amount_btc ≡ event.amount
  pub no_collateral : a.call.collateral ≡ 0
  pub known : Collateral
  pub is_known : v.try_join3 ≡ ok known
  pub enough :
      saturating_add u128_max known.required_replace_collateral known.used_collateral
      ≤ known.current_collateral

abbrev pub IsOfferOfOne : RequestReplaceEvent → List VaultAnswers → Attempt → Type 0
IsOfferOfOne event [] a = ⊥
IsOfferOfOne event (v ∷ vs) a = IsOffer event v a ⊎ IsOfferOfOne event vs a

not_ltb : (a b : ℕ) → ltb a b ≡ false → b ≤ a
not_ltb a b e = ground arith

-- How many attempts the parachain has accepted.
abbrev pub is_ok : Result (Unit {0}) RuntimeError → ℕ
is_ok (ok _) = 1
is_ok (err e) = 0

abbrev pub accepted : List Attempt → ℕ
accepted [] = 0
accepted (a ∷ rest) = is_ok a.result + accepted rest

accepted-append : (xs ys : List Attempt) → accepted (xs ++ ys) ≡ accepted xs + accepted ys
accepted-append [] ys = omega arith
accepted-append (x ∷ xs) ys = omega (arith, accepted-append xs ys)

-- No attempt was accepted and no event is sent; or one was, and there is one event.
abbrev pub IsCounted : List Event → List Attempt → Type 0
IsCounted events attempts =
    (accepted attempts ≡ 0) × (events ≡ []) ⊎ (accepted attempts ≡ 1) × (events ≡ opened ∷ [])

-- No attempt without a result, and at most one, which was accepted if all went well.
abbrev IsTried :
    RequestReplaceEvent → VaultAnswers → Result (Unit {0}) Error × List Attempt → Type 0
IsTried event v (ok _, attempts) = (accepted attempts ≡ 1) × All (IsOffer event v) attempts
IsTried event v (err e, attempts) = (accepted attempts ≡ 0) × All (IsOffer event v) attempts

accept-IsTried :
    (event : RequestReplaceEvent) (v : VaultAnswers) (address : BtcAddress) (c : Collateral)
    → v.try_join3 ≡ ok c
    → saturating_add u128_max c.required_replace_collateral c.used_collateral ≤ c.current_collateral
    → IsTried event v (accept event v address)
unfolding accept
accept-IsTried event v address c e h = go (
    v.accept_replace (record {
      new_vault_id = v.vault_id;
      old_vault_id = event.old_vault_id;
      amount_btc = event.amount;
      collateral = 0;
      btc_address = address;
    }))
  where
    go :
        (r : Result (Unit {0}) RuntimeError)
        → IsTried event v (
          map_err runtime_error r,
          (record {
            call = record {
              new_vault_id = v.vault_id;
              old_vault_id = event.old_vault_id;
              amount_btc = event.amount;
              collateral = 0;
              btc_address = address;
            };
            result = r;
          })
              ∷ [],
        )
    go (ok _) = (
      omega arith,
      (
        record {
          by = refl;
          of = refl;
          whole = refl;
          no_collateral = refl;
          known = c;
          is_known = e;
          enough = h;
        },
        tt,
      ),
    )
    go (err x) = (
      omega arith,
      (
        record {
          by = refl;
          of = refl;
          whole = refl;
          no_collateral = refl;
          known = c;
          is_known = e;
          enough = h;
        },
        tt,
      ),
    )

handle_replace_request-IsTried :
    (event : RequestReplaceEvent) (v : VaultAnswers)
    → IsTried event v (handle_replace_request event v)
unfolding handle_replace_request
handle_replace_request-IsTried event v = go v.try_join3 refl
  where
    address :
        (c : Collateral)
        → v.try_join3 ≡ ok c
        → saturating_add u128_max c.required_replace_collateral c.used_collateral
          ≤ c.current_collateral
        → (r : Result BtcAddress Error)
        → IsTried event v (elim r as (λ _. Result (Unit {0}) Error × List Attempt) [
          | err e ↦ refused e
          | ok a ↦ accept event v a
        ])
    address c e h (err x) = (refl, tt)
    address c e h (ok a) = accept-IsTried event v a c e h

    go :
        (r : Result Collateral RuntimeError)
        → v.try_join3 ≡ r
        → IsTried event v (elim r as (λ _. Result (Unit {0}) Error × List Attempt) [
          | err e ↦ refused (runtime_error e)
          | ok c ↦
              if ltb c.current_collateral
                (saturating_add u128_max c.required_replace_collateral c.used_collateral)
              then refused insufficient_funds
              else elim (new_btc_address v) as (λ _. Result (Unit {0}) Error × List Attempt) [
                | err e ↦ refused e
                | ok a ↦ accept event v a
              ]
        ])
    go (err x) e = (refl, tt)
    go (ok c) e =
        if_cases (IsTried event v)
          (ltb c.current_collateral
            (saturating_add u128_max c.required_replace_collateral c.used_collateral))
          _ _ (λ _. (refl, tt)) (λ o. address c e (not_ltb _ _ o) (new_btc_address v))

All-widen :
    (event : RequestReplaceEvent) (v : VaultAnswers) (vs : List VaultAnswers) (as' : List Attempt)
    → All (IsOfferOfOne event vs) as'
    → All (IsOfferOfOne event (v ∷ vs)) as'
All-widen event v vs [] h = tt
All-widen event v vs (a ∷ rest) h = (inr h.0, All-widen event v vs rest h.1)

All-first :
    (event : RequestReplaceEvent) (v : VaultAnswers) (vs : List VaultAnswers) (as' : List Attempt)
    → All (IsOffer event v) as'
    → All (IsOfferOfOne event (v ∷ vs)) as'
All-first event v vs [] h = tt
All-first event v vs (a ∷ rest) h = (inl h.0, All-first event v vs rest h.1)

-- The offers are of these vaults, and counted.
abbrev pub IsAnswered : RequestReplaceEvent → List VaultAnswers → List Event × List Attempt → Type 0
IsAnswered event vs (events, attempts) =
    All (IsOfferOfOne event vs) attempts × IsCounted events attempts

try_vaults-IsAnswered :
    (event : RequestReplaceEvent) (vs : List VaultAnswers)
    → IsAnswered event vs (try_vaults event vs)
unfolding try_vaults
try_vaults-IsAnswered event [] = (tt, inl (refl, refl))
try_vaults-IsAnswered event (v ∷ vs) =
    go (handle_replace_request event v).0 (handle_replace_request event v).1
      (handle_replace_request-IsTried event v) (try_vaults-IsAnswered event vs)
  where
    go :
        (r : Result (Unit {0}) Error) (attempts : List Attempt)
        → IsTried event v (r, attempts)
        → IsAnswered event vs (try_vaults event vs)
        → IsAnswered event (v ∷ vs) (elim r as (λ _. List Event × List Attempt) [
          | ok _ ↦ (opened ∷ [], attempts)
          | err _ ↦ ((try_vaults event vs).0, attempts ++ (try_vaults event vs).1)
        ])
    go (ok _) attempts (n, h) rest = (All-first event v vs attempts h, inr (n, refl))
    go (err e) attempts (n, h) (l, c) = (
      All-append (IsOfferOfOne event (v ∷ vs)) attempts (try_vaults event vs).1
          (All-first event v vs attempts h) (All-widen event v vs (try_vaults event vs).1 l),
      counted c,
    )
      where
        sum : accepted (attempts ++ (try_vaults event vs).1) ≡ accepted (try_vaults event vs).1
        sum = omega (arith, n, accepted-append attempts (try_vaults event vs).1)

        counted :
            IsCounted (try_vaults event vs).0 (try_vaults event vs).1
            → IsCounted (try_vaults event vs).0 (attempts ++ (try_vaults event vs).1)
        counted (inl (x, y)) = inl (sum ∙ x, y)
        counted (inr (x, y)) = inr (sum ∙ x, y)

-- Whatever the answers are, a replace request is accepted by at most one of this client's vaults:
-- every call offers the whole amount asked for, to the vault that asked, with no collateral added,
-- for one of the vaults whose own collateral covers what is required of it together with what the
-- amount requires, in 128 bits; one call at most is accepted; and there is one event for the
-- scheduler if it is, and none otherwise. A request of this client's own is not answered at all,
-- nor is any if accepting is switched off.
pub on_replace_request-IsAnswered :
    (is_this_vault : VaultId → Bool) (accept_replace_requests : Bool) (vs : List VaultAnswers)
    (event : RequestReplaceEvent)
    → IsAnswered event vs (on_replace_request is_this_vault accept_replace_requests vs event)
      × (is_this_vault event.old_vault_id ≡ true
          → on_replace_request is_this_vault accept_replace_requests vs event ≡ ([], []))
      × (accept_replace_requests ≡ false
          → on_replace_request is_this_vault accept_replace_requests vs event ≡ ([], []))
unfolding on_replace_request
on_replace_request-IsAnswered is_this_vault accept_replace_requests vs event = (
  if_cases (IsAnswered event vs) (is_this_vault event.old_vault_id) _ _
      (λ _. (tt, inl (refl, refl)))
      (λ _.
        if_cases (IsAnswered event vs) accept_replace_requests _ _
          (λ _. try_vaults-IsAnswered event vs) (λ _. (tt, inl (refl, refl)))),
  (λ e. rw e refl),
  (λ e. ground (arith, e)),
)
