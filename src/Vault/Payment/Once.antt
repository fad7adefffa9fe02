-- ===== src/Vault/Payment/Once.antt =====
-- How often `pay_and_execute` pays (vault/src/execution.rs).
use interbtc_clients.Prelude.{
  ℕ, ◌%◌, ◌^◌, ◌≤◌, ◌≡◌, ◌≢◌, refl, ap, ◌∙◌, Bool, Option, none, some, List, [], ◌∷◌, ◌++◌, Result,
  ok, err, map_err, arith, ◌⊎◌, inl, inr,
}
use interbtc_clients.Bitcoin.Errors as BitcoinErrors
use interbtc_clients.Vault.Errors.{Error, deadline_expired, bitcoin_error, runtime_error}
use interbtc_clients.Vault.Requests.{Deadline, Request, get_fee_rate, ensure_not_expired}
use interbtc_clients.Vault.Payment.{
  Txid, Address, Conversion, TransactionMetadata, Effect, sent, bumped, executions, Progress,
  finished, pending, Run, FeeUpdate, InclusionEvent, metadata_ready, subscription_closed,
  fee_update, propagate, Reaction, stop, go_on, try_bump, check_relay, react, wait_for_inclusion,
  emit, lift, ◌>>=◌, Environment, send, transfer_btc, execute, pay_and_execute,
}

-- The new transactions among the effects; bumps and executions are left out.
abbrev pub transfers : List Effect → List Effect
transfers [] = []
transfers (sent a sat fee_rate i ∷ rest) = sent a sat fee_rate i ∷ transfers rest
transfers (_ ∷ rest) = transfers rest

transfers-append : (xs ys : List Effect) → transfers (xs ++ ys) ≡ transfers xs ++ transfers ys
transfers-append [] ys = refl
transfers-append (sent a sat fee_rate i ∷ xs) ys =
    ap (λ l. sent a sat fee_rate i ∷ l) (transfers-append xs ys)
transfers-append (bumped o n a f g ∷ xs) ys = transfers-append xs ys
transfers-append (executions y i p c ∷ xs) ys = transfers-append xs ys

abbrev IsQuiet : Reaction → Type 0
IsQuiet (stop r) = Unit {0}
IsQuiet (go_on next es) = transfers es ≡ []

try_bump-IsQuiet :
    (q : Request) (to_address : Conversion) (u : FeeUpdate) (t : Txid)
    (x : Option (Result (ℕ × ℕ) Error))
    → IsQuiet (try_bump q to_address u t x)
unfolding try_bump
try_bump-IsQuiet q to_address u t none = refl
try_bump-IsQuiet q to_address u t (some (err e)) = refl
try_bump-IsQuiet q to_address u t (some (ok x)) = ground arith

react-IsQuiet :
    (auto_rbf : Bool) (q : Request) (to_address : Conversion) (t : Txid) (event : InclusionEvent)
    → IsQuiet (react auto_rbf q to_address t event)
unfolding react check_relay try_bump
react-IsQuiet auto_rbf q to_address t (metadata_ready metadata relay) = ground arith
react-IsQuiet auto_rbf q to_address t subscription_closed = tt
react-IsQuiet auto_rbf q to_address t (fee_update u) =
    try_bump-IsQuiet q to_address u t (propagate auto_rbf u t)

transfers-wait_for_inclusion :
    (auto_rbf : Bool) (q : Request) (to_address : Conversion) (t : Txid)
    (events : List InclusionEvent)
    → transfers (wait_for_inclusion auto_rbf q to_address t events).effects ≡ []
unfolding wait_for_inclusion
transfers-wait_for_inclusion auto_rbf q to_address t [] = refl
transfers-wait_for_inclusion auto_rbf q to_address t (event ∷ rest) =
    go (react auto_rbf q to_address t event) (react-IsQuiet auto_rbf q to_address t event)
      (λ next. transfers-wait_for_inclusion auto_rbf q to_address next rest)
  where
    go :
        (r : Reaction)
        → IsQuiet r
        → ((next : Txid)
            → transfers (wait_for_inclusion auto_rbf q to_address next rest).effects ≡ [])
        → transfers
            (elim r as (λ x. Run TransactionMetadata) [
              | stop x ↦ record { progress = finished x; effects = [] }
              | go_on next es ↦ emit es (wait_for_inclusion auto_rbf q to_address next rest)
            ]).effects
          ≡ []
    go (stop x) p f = refl
    go (go_on next es) p f = transfers-append es _ ∙ rw p (f next)

-- An expired request is refused before anything is done.
pub pay_and_execute_expired :
    (r : Request) (env : Environment) (auto_rbf : Bool) (d : Deadline) (height count : ℕ)
    → r.deadline ≡ some d
    → env.active_block_number ≡ ok height
    → env.block_count ≡ ok count
    → d.parachain ≤ height
    → d.bitcoin ≤ count
    → pay_and_execute r env auto_rbf
      ≡ record { progress = finished (err deadline_expired); effects = [] }
unfolding pay_and_execute ensure_not_expired
pay_and_execute_expired r env auto_rbf d height count e f g h k = ground arith

-- One new transaction: to what the request's address converts to, of its amount in 64 bits, at the
-- oracle's fee rate and with the request's id.
abbrev pub PaidOnce : Request → Environment → List Effect → Type 0
PaidOnce r env effects =
    (a : Address) × ((rate : ℕ) × (env.to_address r.btc_address ≡ ok a)
      × (get_fee_rate env.bitcoin_fees ≡ ok rate)
      × (transfers effects ≡ sent a (r.amount % 2 ^ 64) rate r.hash ∷ []))

-- One such transaction; or none, and no result.
abbrev pub IsSingle : {A : Type 0} → Request → Environment → Run A → Type 0
IsSingle {A} r env w =
    (transfers w.effects ≡ []) × ((a : A) → w.progress ≢ finished (ok a)) ⊎ PaidOnce r env w.effects

module _ (r : Request) (env : Environment) where
  lift_err-IsSingle : {A : Type 0} (e : Error) → IsSingle r env (lift {A = A} (err e))
  lift_err-IsSingle e = inl (refl, λ a p. cc)

  -- A step that sends nothing may follow.
  bind-IsSingle :
      {A B : Type 0} (p : Progress A) (es : List Effect) (f : A → Run B)
      → IsSingle r env (record { progress = p; effects = es })
      → ((a : A) → transfers (f a).effects ≡ [])
      → IsSingle r env (record { progress = p; effects = es } >>= f)
  bind-IsSingle (finished (ok a)) es f (inl (q, no_result)) h = absurd (no_result a refl)
  bind-IsSingle (finished (ok a)) es f (inr (x, (rate, e, g, q))) h =
      inr (x, (rate, e, g, transfers-append es (f a).effects ∙ rw (q, h a) refl))
  bind-IsSingle (finished (err e)) es f (inl (q, no_result)) h = inl (q, λ b p. cc)
  bind-IsSingle (finished (err e)) es f (inr paid) h = inr paid
  bind-IsSingle pending es f (inl (q, no_result)) h = inl (q, λ b p. cc)
  bind-IsSingle pending es f (inr paid) h = inr paid

  send-IsSingle :
      (rate : ℕ) → get_fee_rate env.bitcoin_fees ≡ ok rate → IsSingle r env (send r env rate)
  unfolding send
  send-IsSingle rate g = go (env.to_address r.btc_address) refl
    where
      sends :
          (a : Address)
          → env.to_address r.btc_address ≡ ok a
          → (x : Result Txid BitcoinErrors.Error)
          → IsSingle r env (elim x [
            | ok txid ↦ record {
              progress = finished (ok txid);
              effects = sent a (r.amount % 2 ^ 64) rate r.hash ∷ [];
            }
            | err y ↦ record { progress = finished (err (bitcoin_error y)); effects = [] }
          ])
      sends a e (ok txid) = inr (a, (rate, e, g, refl))
      sends a e (err y) = inl (refl, λ b p. cc)

      go :
          (a : Result Address BitcoinErrors.Error)
          → env.to_address r.btc_address ≡ a
          → IsSingle r env (elim a [
            | err e ↦ record { progress = finished (err (bitcoin_error e)); effects = [] }
            | ok a' ↦ elim (env.create_and_send a' (r.amount % 2 ^ 64) rate r.hash) [
              | ok txid ↦ record {
                progress = finished (ok txid);
                effects = sent a' (r.amount % 2 ^ 64) rate r.hash ∷ [];
              }
              | err e ↦ record { progress = finished (err (bitcoin_error e)); effects = [] }
            ]
          ])
      go (err y) e = inl (refl, λ b p. cc)
      go (ok a) e = sends a e (env.create_and_send a (r.amount % 2 ^ 64) rate r.hash)

  transfer_btc-IsSingle : (auto_rbf : Bool) → IsSingle r env (transfer_btc r env auto_rbf)
  unfolding transfer_btc
  transfer_btc-IsSingle auto_rbf = go (get_fee_rate env.bitcoin_fees) refl
    where
      waits : Txid → Run TransactionMetadata
      waits t = wait_for_inclusion auto_rbf r env.to_address t env.inclusion

      go :
          (rate : Result ℕ Error)
          → get_fee_rate env.bitcoin_fees ≡ rate
          → IsSingle r env (lift rate >>= λ rate'. send r env rate' >>= waits)
      go (err e) g = lift_err-IsSingle e
      go (ok rate) g =
          let w = send r env rate in
          bind-IsSingle w.progress w.effects waits (send-IsSingle rate g)
            (λ t. transfers-wait_for_inclusion auto_rbf r env.to_address t env.inclusion)

-- Whatever the answers are, paying a request sends at most one new Bitcoin transaction, which is to
-- the Bitcoin address that the request's address converts to, of its amount taken to 64 bits, at
-- the oracle's fee rate and with the request's id; and if the request has been executed, exactly
-- one.
pub pay_and_execute_pays_once :
    (r : Request) (env : Environment) (auto_rbf : Bool)
    → IsSingle r env (pay_and_execute r env auto_rbf)
unfolding pay_and_execute execute
pay_and_execute_pays_once r env auto_rbf = go (
    ensure_not_expired r.deadline (map_err runtime_error env.active_block_number)
      (map_err bitcoin_error env.block_count))
  where
    go :
        (x : Result (Unit {0}) Error)
        → IsSingle r env (lift x >>= λ _. transfer_btc r env auto_rbf >>= λ m. execute r env m)
    go (err e) = lift_err-IsSingle r env e
    go (ok _) =
        let w = transfer_btc r env auto_rbf in
        bind-IsSingle r env w.progress w.effects (execute r env)
          (transfer_btc-IsSingle r env auto_rbf) (λ m. refl)
