-- ===== src/Vault/Redeem/Single.antt =====
-- What a redeem event makes the vault pay (vault/src/redeem.rs).
use interbtc_clients.Prelude.{
  ℕ, ◌%◌, ◌^◌, ◌≡◌, ◌≢◌, refl, sym, ap, ◌∙◌, Bool, false, Option, none, some, List, [], ◌∷◌, inl,
  inr, ◌⊎◌, if_cases, Result, ok, err, map_err, arith, Result-cases,
}
use interbtc_clients.Runtime.Errors.{RuntimeError}
use interbtc_clients.Runtime.Requests.{H256, VaultId, RedeemRequest}
use interbtc_clients.Vault.Errors.{Error, runtime_error}
use interbtc_clients.Vault.Requests.{Request, from_redeem_request, calculate_deadline, get_fee_rate}
use interbtc_clients.Vault.Payment.{
  Address, Effect, sent, Run, finished, lift, ◌>>=◌, Environment, pay_and_execute,
}
use interbtc_clients.Vault.Payment.Once.{transfers, IsSingle, pay_and_execute_pays_once}
use interbtc_clients.Vault.Redeem.{on_redeem_request}

from_redeem_request_fields :
    (i : H256) (q : RedeemRequest) (payment_margin : ℕ) (r : Request)
    → from_redeem_request i q payment_margin ≡ ok r
    → (r.amount ≡ q.amount_btc) × (r.hash ≡ i) × (r.btc_address ≡ q.btc_address)
unfolding from_redeem_request
from_redeem_request_fields i q payment_margin r e =
    ground
      (arith, e, Result-cases (calculate_deadline q.opentime q.btc_height q.period payment_margin))

-- One payment of the request: to its address, of its amount in 64 bits, at the oracle's fee rate
-- and with its id.
abbrev pub Pays : Environment → H256 → RedeemRequest → List Effect → Type 0
Pays env redeem_id q effects =
    (a : Address) × ((rate : ℕ) × (env.to_address q.btc_address ≡ ok a)
      × (get_fee_rate env.bitcoin_fees ≡ ok rate)
      × (transfers effects ≡ sent a (q.amount_btc % 2 ^ 64) rate redeem_id ∷ []))

-- Nothing is paid and nothing executed; or a request that the parachain has is paid once.
abbrev pub IsPaidOnce :
    Environment → (H256 → Result RedeemRequest RuntimeError) → H256 → Run (Unit {0}) → Type 0
IsPaidOnce env get_redeem_request redeem_id w =
    (transfers w.effects ≡ []) × ((a : Unit {0}) → w.progress ≢ finished (ok a))
    ⊎ (q : RedeemRequest) × (get_redeem_request redeem_id ≡ ok q) × Pays env redeem_id q w.effects

module _ (get_redeem_request : H256 → Result RedeemRequest RuntimeError) (env : Environment)
    (payment_margin : ℕ) (auto_rbf : Bool) (redeem_id : H256) where
  fails : (e : Error) → IsPaidOnce env get_redeem_request redeem_id (lift (err e))
  fails e = inl (refl, λ a p. cc)

  pays :
      (q : RedeemRequest)
      → get_redeem_request redeem_id ≡ ok q
      → (r : Result Request Error) → from_redeem_request redeem_id q payment_margin ≡ r
      → IsPaidOnce env get_redeem_request redeem_id (lift r >>= λ x. pay_and_execute x env auto_rbf)
  pays q g (err e) f = fails e
  pays q g (ok r) f = single (pay_and_execute_pays_once r env auto_rbf)
    where
      single :
          IsSingle r env (pay_and_execute r env auto_rbf)
          → IsPaidOnce env get_redeem_request redeem_id (pay_and_execute r env auto_rbf)
      single (inl h) = inl h
      single (inr (a, (rate, x, y, z))) =
          let (amount, hash, address) = from_redeem_request_fields redeem_id q payment_margin r f in
          inr (
            q,
            g,
            (a, (rate, ap env.to_address (sym address) ∙ x, y, z ∙ ground (arith, amount, hash))),
          )

  task :
      (q : Result RedeemRequest RuntimeError)
      → get_redeem_request redeem_id ≡ q
      → IsPaidOnce env get_redeem_request redeem_id (
          lift (map_err runtime_error q) >>= λ x.
          lift (from_redeem_request redeem_id x payment_margin) >>= λ r.
          pay_and_execute r env auto_rbf)
  task (err e) g = fails (runtime_error e)
  task (ok q) g = pays q g (from_redeem_request redeem_id q payment_margin) refl

  abbrev pub IsRedeemed : Option (Run (Unit {0})) → Type 0
  IsRedeemed none = Unit {0}
  IsRedeemed (some w) = IsPaidOnce env get_redeem_request redeem_id w

  -- Whatever the answers are, a redeem event that is directed at none of this client's vaults is
  -- left alone, and one that is sends at most one new Bitcoin transaction, of the request that the
  -- parachain has under the event's id: to the Bitcoin address that its address converts to, of
  -- its amount taken to 64 bits, at the oracle's fee rate and with the id; and if the request has
  -- been executed, exactly one.
  pub on_redeem_request_pays_once :
      (has_vault : VaultId → Bool) (vault_id : VaultId)
      → (has_vault vault_id ≡ false
          → on_redeem_request has_vault get_redeem_request env payment_margin auto_rbf vault_id
              redeem_id
            ≡ none)
        × IsRedeemed (
            on_redeem_request has_vault get_redeem_request env payment_margin auto_rbf vault_id
              redeem_id)
  unfolding on_redeem_request
  on_redeem_request_pays_once has_vault vault_id = (
    (λ e. rw e refl),
    if_cases IsRedeemed (has_vault vault_id) _ _ (λ _. task (get_redeem_request redeem_id) refl)
        (λ _. tt),
  )
