-- ===== src/Vault/Payment/Inclusion.antt =====
-- The wait for inclusion: which transaction it follows, and which fee bumps it makes
-- (vault/src/execution.rs).
use interbtc_clients.Prelude.{
  ◌≡◌, refl, Bool, false, List, [], ◌∷◌, Result, ok, err, arith, All, inl, inr, sym,
}
use mathlib.Core.Path.{subst}
use interbtc_clients.Bitcoin.Errors as BitcoinErrors
use interbtc_clients.Vault.Errors.{Error}
use interbtc_clients.Vault.Requests.{Request}
use interbtc_clients.Vault.Payment.{
  Txid, Conversion, TransactionMetadata, Effect, sent, bumped, executions, finished, Run,
  InclusionEvent, metadata_ready, subscription_closed, fee_update, propagate, Reaction, stop, go_on,
  try_bump, check_relay, react, wait_for_inclusion, emit,
}
use interbtc_clients.Vault.Payment.Bumps.{
  IsChained, last_txid, IsFaithful, IsOf, Follows, IsProper, try_bump-IsProper,
  check_relay-IsProper, propagate-IsRise,
}

module _ (auto_rbf : Bool) (request : Request) (to_address : Conversion) where
  react-IsProper :
      (t : Txid) (event : InclusionEvent)
      → IsFaithful event
      → IsProper request to_address event t (react auto_rbf request to_address t event)
  unfolding react
  react-IsProper t (metadata_ready metadata relay) h = go (metadata t) refl
    where
      go :
          (r : Result TransactionMetadata BitcoinErrors.Error)
          → metadata t ≡ r
          → IsProper request to_address (metadata_ready metadata relay) t (elim r [
            | err e ↦ stop (err (Error.bitcoin_error e))
            | ok m ↦ check_relay t m (relay m.block_hash)
          ])
      go (ok m) e = check_relay-IsProper request to_address _ t m (relay m.block_hash) (h t m e)
      go (err x) e = tt
  react-IsProper t subscription_closed h = tt
  react-IsProper t (fee_update u) h =
      try_bump-IsProper request to_address u t _ (propagate-IsRise auto_rbf u t)

  -- What holds of the later events holds of all.
  IsChained-later :
      (event : InclusionEvent) (events : List InclusionEvent) (t : Txid) (es : List Effect)
      → IsChained request to_address events t es
      → IsChained request to_address (event ∷ events) t es
  IsChained-later event events t [] h = tt
  IsChained-later event events t (bumped old new a old_fee new_fee ∷ es) (p, (u, i, b), h) =
      (p, (u, inr i, b), IsChained-later event events new es h)
  IsChained-later event events t (sent a sat fee_rate i ∷ es) h = absurd h
  IsChained-later event events t (executions y i proof calls ∷ es) h = absurd h

  -- A proper reaction before a run that follows makes a run that follows.
  emit-Follows :
      (event : InclusionEvent) (events : List InclusionEvent) (t next : Txid) (es : List Effect)
      (w : Run TransactionMetadata)
      → IsProper request to_address event t (go_on next es)
      → Follows request to_address events next w
      → Follows request to_address (event ∷ events) t (emit es w)
  emit-Follows event events t next [] w h f =
      subst (λ x. Follows request to_address (event ∷ events) x w) h
        (IsChained-later event events next w.effects f.0, f.1)
  emit-Follows event events t next (e ∷ es) w (a, (old_fee, (new_fee, p, (u, q, b)))) f =
      subst (λ x. Follows request to_address (event ∷ events) t (emit x w)) (sym p)
        ((refl, (u, inl q, b), IsChained-later event events next w.effects f.0), f.1)

  wait_for_inclusion-Follows :
      (t : Txid) (events : List InclusionEvent)
      → All IsFaithful events
      → Follows request to_address events t
          (wait_for_inclusion auto_rbf request to_address t events)
  unfolding wait_for_inclusion
  wait_for_inclusion-Follows t [] h = (tt, tt)
  wait_for_inclusion-Follows t (event ∷ rest) h =
      go (react auto_rbf request to_address t event) (react-IsProper t event h.0)
        (λ next. wait_for_inclusion-Follows next rest h.1)
    where
      waits : Txid → Run TransactionMetadata
      waits next = wait_for_inclusion auto_rbf request to_address next rest

      go :
          (r : Reaction)
          → IsProper request to_address event t r
          → ((next : Txid) → Follows request to_address rest next (waits next))
          → Follows request to_address (event ∷ rest) t (elim r [
            | stop x ↦ record { progress = finished x; effects = [] }
            | go_on next es ↦ emit es (waits next)
          ])
      go (stop x) p f = (tt, p)
      go (go_on next es) p f = emit-Follows event rest t next es _ p (f next)

-- Whatever happens while a payment is waited for, the vault only replaces the transaction that it
-- waits for, each time by one that the node answers when it is asked to replace that transaction
-- by a payment to the request's address at the rate of a new estimate, which is strictly higher
-- than the rate of the transaction, while this is still in the mempool; and if the wait ends with
-- metadata, then these are the metadata of the last replacement, provided that the Bitcoin node
-- answers with the metadata of the transaction that it is asked for.
pub wait_for_inclusion_follows_last :
    (auto_rbf : Bool) (request : Request) (to_address : Conversion) (t : Txid)
    (events : List InclusionEvent)
    → All IsFaithful events
    → let w = wait_for_inclusion auto_rbf request to_address t events in
      IsChained request to_address events t w.effects × IsOf (last_txid t w.effects) w.progress
wait_for_inclusion_follows_last = wait_for_inclusion-Follows

-- With `auto_rbf` off an event never leads to a bump, so nothing is replaced.
pub wait_for_inclusion_without_rbf :
    (request : Request) (to_address : Conversion) (t : Txid) (events : List InclusionEvent)
    → (wait_for_inclusion false request to_address t events).effects ≡ []
unfolding wait_for_inclusion react propagate try_bump check_relay
wait_for_inclusion_without_rbf request to_address t [] = refl
wait_for_inclusion_without_rbf request to_address t (metadata_ready metadata relay ∷ rest) =
    ground (arith, wait_for_inclusion_without_rbf request to_address t rest)
wait_for_inclusion_without_rbf request to_address t (subscription_closed ∷ rest) = refl
wait_for_inclusion_without_rbf request to_address t (fee_update u ∷ rest) =
    wait_for_inclusion_without_rbf request to_address t rest
