-- ===== src/Vault/Cancellation/Traces.antt =====
-- What holds along every run of `handle_cancellation` (vault/src/cancellation.rs).
use interbtc_clients.Prelude.{
  ℕ, ◌+◌, ◌<◌, ◌≡◌, refl, sym, true, List, [], ◌∷◌, filter_by, All, All-filter_by, Result, ok, err,
  ◌>>=◌, arith, inl, inr, Bool-cases,
}
use mathlib.Core.Path.{subst}
use interbtc_clients.Vault.Errors.{Error}
use interbtc_clients.Vault.Blocks.{bitcoin_blocks}
use interbtc_clients.Runtime.Requests.{H256, AccountId}
use interbtc_clients.Vault.Cancellation.{
  ActiveRequest, UnconvertedOpenTime, CancellationScheduler, Canceller, Parachain, ListState, valid,
  invalid, has_expired, Event, opened, executed, parachain_block, bitcoin_block, Outcome,
  cancel_request, cancel_requests, convert, convert_all, get_open_requests, fetch_open_requests,
  refresh, handle_event, process_event, handle_cancellation, get_period,
}
use interbtc_clients.Vault.Cancellation.Drain.{drain_expired-filter_by}
use interbtc_clients.Vault.Cancellation.Steps.{submit_cancellations-All, convert_deadlines}

module _ (P : UnconvertedOpenTime → Type 0) where
  -- The request was made from a reported one by adding a period.
  abbrev Stems : ActiveRequest → Type 0
  Stems r = (u : UnconvertedOpenTime) × P u × ((g : ℕ) × (convert g u ≡ ok r))

  -- A reported request with this id, whose deadlines have passed at the scheduler's heights.
  abbrev pub Overdue : CancellationScheduler → H256 → Type 0
  Overdue s i =
      (u : UnconvertedOpenTime) × P u
      × (u.id ≡ i)
      × (u.parachain_open_height + u.period < s.parachain_height)
      × (u.bitcoin_open_height + bitcoin_blocks u.period < s.bitcoin_height)

  -- Every open request that this parachain reports satisfies `P`.
  abbrev pub Reports : Canceller → AccountId → Parachain → Type 0
  Reports t vault_id p =
      (us : List UnconvertedOpenTime) → fetch_open_requests t p vault_id ≡ ok us → All P us

  -- If there is a result, all its requests stem from reported ones.
  abbrev OkStems : Result (List ActiveRequest) Error → Type 0
  OkStems (ok rs) = All Stems rs
  OkStems (err _) = Unit {0}

  convert_all-OkStems :
      (g : ℕ) (us : List UnconvertedOpenTime) → All P us → OkStems (convert_all g us)
  unfolding convert_all
  convert_all-OkStems g [] h = tt
  convert_all-OkStems g (u ∷ us) h =
      go (convert g u) refl (convert_all g us) (convert_all-OkStems g us h.1)
    where
      go :
          (r : Result ActiveRequest Error)
          → convert g u ≡ r
          → (rs : Result (List ActiveRequest) Error) → OkStems rs
          → OkStems (r >>= λ a. rs >>= λ as'. ok (a ∷ as'))
      go (ok a) e (ok as') k = ((u, h.0, (g, e)), k)
      go (ok a) e (err x) k = tt
      go (err x) e rs k = tt

  get_open_requests-OkStems :
      (t : Canceller) (s : CancellationScheduler) (p : Parachain)
      → Reports t s.vault_id p
      → OkStems (get_open_requests t p s.vault_id)
  unfolding get_open_requests
  get_open_requests-OkStems t s p h = go (fetch_open_requests t p s.vault_id) refl (get_period t p)
    where
      go :
          (us : Result (List UnconvertedOpenTime) Error)
          → fetch_open_requests t p s.vault_id ≡ us
          → (period : Result ℕ Error)
          → OkStems (
              us >>= λ us'. elim us' [
                | [] ↦ ok []
                | u ∷ rest ↦ period >>= λ g. convert_all g (u ∷ rest)
              ])
      go (ok []) e period = tt
      go (ok (u ∷ us)) e (ok g) = convert_all-OkStems g (u ∷ us) (h (u ∷ us) e)
      go (ok (u ∷ us)) e (err x) = tt
      go (err x) e period = tt

  refresh-Stems :
      (t : Canceller) (s : CancellationScheduler) (p : Parachain) (active : List ActiveRequest)
      (state : ListState)
      → Reports t s.vault_id p
      → All Stems active
      → All Stems (refresh t p s.vault_id active state)
  unfolding refresh
  refresh-Stems t s p active valid h k = k
  refresh-Stems t s p active invalid h k =
      go (get_open_requests t p s.vault_id) (get_open_requests-OkStems t s p h)
    where
      go :
          (r : Result (List ActiveRequest) Error)
          → OkStems r
          → All Stems (elim r [ ok rs ↦ rs | err _ ↦ [] ])
      go (ok rs) o = o
      go (err x) o = tt

  Overdue-of_expired :
      (s : CancellationScheduler) (r : ActiveRequest)
      → Stems r
      → has_expired s.parachain_height s.bitcoin_height r ≡ true
      → Overdue s r.id
  Overdue-of_expired s r (u, h, (g, e)) x = (
    u,
    h,
    omega (arith, convert_deadlines g u r e),
    ground (arith, convert_deadlines g u r e),
    ground (arith, convert_deadlines g u r e),
  )

  expired-Overdue :
      (s : CancellationScheduler) (active : List ActiveRequest)
      → All Stems active
      → All
          (λ r. Overdue s r.id)
          (filter_by (has_expired s.parachain_height s.bitcoin_height) active)
  expired-Overdue s [] h = tt
  expired-Overdue s (r ∷ active) h =
      elim (Bool-cases (has_expired s.parachain_height s.bitcoin_height r)) [
        | inl e ↦ rw e (Overdue-of_expired s r h.0 e, expired-Overdue s active h.1)
        | inr e ↦ rw e (expired-Overdue s active h.1)
      ]

  -- What every outcome satisfies: each call is for an overdue request, and what stays in the list
  -- stems from reported requests.
  abbrev IsSound : Outcome → Type 0
  IsSound o = All (Overdue o.scheduler) o.calls × All Stems o.active_requests

  cancel_requests-IsSound :
      (t : Canceller) (p : Parachain) (s : CancellationScheduler) (active : List ActiveRequest)
      → All Stems active
      → IsSound (cancel_requests t p s active)
  unfolding cancel_requests
  cancel_requests-IsSound t p s active h =
      rw (drain_expired-filter_by active s.parachain_height s.bitcoin_height) (
        submit_cancellations-All (Overdue s) (cancel_request t p) _ (expired-Overdue s active h),
        All-filter_by Stems _ active h,
      )

  handle_event-IsSound :
      (t : Canceller) (p : Parachain) (s : CancellationScheduler) (event : Event)
      (active : List ActiveRequest)
      → All Stems active
      → IsSound (handle_event t p s event active)
  unfolding handle_event
  handle_event-IsSound t p s (parachain_block height) active h =
      cancel_requests-IsSound t p (record s { parachain_height = height }) active h
  handle_event-IsSound t p s (bitcoin_block height) active h =
      cancel_requests-IsSound t p (record s { bitcoin_height = height }) active h
  handle_event-IsSound t p s (executed i) active h = (tt, All-filter_by Stems _ active h)
  handle_event-IsSound t p s opened active h = (tt, h)

  vault_id-process_event :
      (t : Canceller) (p : Parachain) (s : CancellationScheduler) (event : Event)
      (active : List ActiveRequest) (state : ListState)
      → (process_event t p s event active state).scheduler.vault_id ≡ s.vault_id
  unfolding process_event handle_event cancel_requests
  vault_id-process_event t p s (parachain_block h) active state = refl
  vault_id-process_event t p s (bitcoin_block h) active state = refl
  vault_id-process_event t p s (executed i) active state = refl
  vault_id-process_event t p s opened active state = refl

  handle_cancellation-IsSound :
      (t : Canceller) (s : CancellationScheduler) (active : List ActiveRequest) (state : ListState)
      (events : List (Event × Parachain))
      → All Stems active
      → All (λ e. Reports t s.vault_id e.1) events
      → All (λ o. All (Overdue o.scheduler) o.calls) (handle_cancellation t s active state events)
  unfolding handle_cancellation process_event
  handle_cancellation-IsSound t s active state [] h k = tt
  handle_cancellation-IsSound t s active state ((event, p) ∷ rest) h k =
      let sound = handle_event-IsSound t p s event _ (refresh-Stems t s p active state k.0 h) in
      let o = process_event t p s event active state in
      let same : o.scheduler.vault_id ≡ s.vault_id =
        vault_id-process_event t p s event active state in
      (
        sound.0,
        handle_cancellation-IsSound t o.scheduler o.active_requests o.list_state rest sound.1
            (subst (λ v. All (λ e. Reports t v e.1) rest) (sym same) k.1),
      )

-- Let `P` hold of every pending request that the parachain reports, at any event, to this vault.
-- Along any run from the empty list, each id that the scheduler tries to cancel is that of such a
-- request, and at that moment both heights have passed its opening height plus its own period
-- (counted in Bitcoin blocks, rounded up, for the Bitcoin height).
pub handle_cancellation-Overdue :
    (P : UnconvertedOpenTime → Type 0) (t : Canceller) (s : CancellationScheduler)
    (events : List (Event × Parachain))
    → All (λ e. Reports P t s.vault_id e.1) events
    → All (λ o. All (Overdue P o.scheduler) o.calls) (handle_cancellation t s [] invalid events)
handle_cancellation-Overdue P t s events h =
    handle_cancellation-IsSound P t s [] invalid events tt h
