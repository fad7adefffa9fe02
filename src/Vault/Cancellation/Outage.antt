-- ===== src/Vault/Cancellation/Outage.antt =====
-- What the scheduler does after a query for open requests has failed (vault/src/cancellation.rs).
use interbtc_clients.Prelude.{ℕ, ◌≡◌, refl, List, [], ◌∷◌, All, err, arith}
use interbtc_clients.Vault.Errors.{Error}
use interbtc_clients.Runtime.Requests.{AccountId}
use interbtc_clients.Vault.Cancellation.{
  ActiveRequest, CancellationScheduler, Canceller, Parachain, ListState, valid, invalid, Event,
  opened, executed, parachain_block, bitcoin_block, cancel_requests, get_open_requests,
  drain_expired, submit_cancellations, refresh, handle_event, process_event, handle_cancellation,
}

abbrev pub IsNotOpened : Event → Type 0
IsNotOpened opened = ⊥
IsNotOpened _ = Unit {0}

empty_list_stays :
    (t : Canceller) (p : Parachain) (s : CancellationScheduler) (event : Event)
    → IsNotOpened event
    → let o = handle_event t p s event [] in
      (o.active_requests ≡ []) × (o.list_state ≡ valid) × (o.calls ≡ [])
unfolding handle_event cancel_requests drain_expired submit_cancellations
empty_list_stays t p s opened h = elim h [ ]
empty_list_stays t p s (executed i) h = (refl, refl, refl)
empty_list_stays t p s (parachain_block n) h = (refl, refl, refl)
empty_list_stays t p s (bitcoin_block n) h = (refl, refl, refl)

empty_list_is_quiet :
    (t : Canceller) (s : CancellationScheduler) (active : List ActiveRequest) (state : ListState)
    (events : List (Event × Parachain))
    → active ≡ []
    → state ≡ valid
    → All (λ e. IsNotOpened e.0) events
    → All (λ o. o.calls ≡ []) (handle_cancellation t s active state events)
unfolding handle_cancellation process_event refresh
empty_list_is_quiet t s active state [] a v h = tt
empty_list_is_quiet t s active state ((event, p) ∷ rest) a v h =
    rw (a, v)
      (let o = handle_event t p s event [] in
        let e = empty_list_stays t p s event h.0 in
        (e.2, empty_list_is_quiet t o.scheduler o.active_requests o.list_state rest e.0 e.1 h.1))

refresh_fails :
    (t : Canceller) (p : Parachain) (vault_id : AccountId) (active : List ActiveRequest) (e : Error)
    → get_open_requests t p vault_id ≡ err e
    → refresh t p vault_id active invalid ≡ []
unfolding refresh
refresh_fails t p vault_id active e h = ground (arith, h)

-- When the query for open requests fails at a block event, the scheduler takes the empty list for
-- valid: neither at that event nor at any later one, up to the next `Opened` event, is a
-- cancellation submitted, whatever the parachain would report.
pub failed_query_is_forgotten :
    (t : Canceller) (s : CancellationScheduler) (active : List ActiveRequest) (p : Parachain)
    (height : ℕ) (e : Error) (events : List (Event × Parachain))
    → get_open_requests t p s.vault_id ≡ err e
    → All (λ x. IsNotOpened x.0) events
    → All
        (λ o. o.calls ≡ [])
        (handle_cancellation t s active invalid ((parachain_block height, p) ∷ events))
unfolding handle_cancellation process_event
failed_query_is_forgotten t s active p height e events h k =
    rw (refresh_fails t p s.vault_id active e h, handle_cancellation, process_event)
      (let o = handle_event t p s (parachain_block height) [] in
        let q = empty_list_stays t p s (parachain_block height) tt in
        (q.2, empty_list_is_quiet t o.scheduler o.active_requests o.list_state events q.0 q.1 k))
