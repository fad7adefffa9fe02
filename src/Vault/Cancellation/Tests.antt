-- ===== src/Vault/Cancellation/Tests.antt =====
-- The theorems on the scheduler, for two issue requests of which one has expired
-- (vault/src/cancellation.rs).
use interbtc_clients.Vault.Cancellation.{get_period}
use interbtc_clients.Prelude.{
  ◌≡◌, not, refl, [], ◌∷◌, ◌==◌, if◌then◌else◌, filter_by, ok, err, All, arith,
}
use interbtc_clients.Runtime.Errors.{channel_closed}
use interbtc_clients.Runtime.Requests.{IssueRequest, RequestStatus}
use interbtc_clients.Vault.Errors.{runtime_error}
use interbtc_clients.Vault.Cancellation.{
  parachain_block, bitcoin_block, ActiveRequest, UnconvertedOpenTime, CancellationScheduler,
  Parachain, issue, invalid, has_expired, drain_expired, fetch_open_requests, get_open_requests,
  handle_cancellation,
}
use interbtc_clients.Vault.Cancellation.Drain.{drain_expired-filter_by}
use interbtc_clients.Vault.Cancellation.Traces.{Overdue, handle_cancellation-Overdue}
use interbtc_clients.Vault.Cancellation.Outage.{failed_query_is_forgotten}

abbrev early : ActiveRequest
early = record { id = 1; parachain_deadline_height = 150; bitcoin_deadline_height = 11 }

abbrev late : ActiveRequest
late = record { id = 2; parachain_deadline_height = 250; bitcoin_deadline_height = 11 }

abbrev scheduler : CancellationScheduler
scheduler = record { vault_id = 7; parachain_height = 200; bitcoin_height = 20 }

abbrev request : IssueRequest
request = record {
  vault = 1;
  requester = 2;
  opentime = 100;
  btc_height = 10;
  period = 50;
  amount = 1000;
  fee = 5;
  btc_address = 6;
  btc_public_key = 7;
  status = RequestStatus.pending;
}

-- The cancellation of request 3 fails.
abbrev parachain : Parachain
parachain = record {
  get_vault_issue_requests = λ _. ok ((1, request) ∷ []);
  get_new_vault_replace_requests = λ _. ok [];
  get_issue_period = ok 40;
  get_replace_period = ok 40;
  cancel_issue = λ i. if i == 3 then err channel_closed else ok tt;
  cancel_replace = λ _. ok tt;
}

abbrev outage : Parachain
outage = record parachain { get_vault_issue_requests = λ _. err channel_closed }

drain_expired-filter_by_example : drain_expired (early ∷ late ∷ []) 200 20 ≡ (
  filter_by (λ r. not (has_expired 200 20 r)) (early ∷ late ∷ []),
  filter_by (has_expired 200 20) (early ∷ late ∷ []),
)
drain_expired-filter_by_example = drain_expired-filter_by (early ∷ late ∷ []) 200 20

abbrev IsReported : UnconvertedOpenTime → Type 0
IsReported u = u.parachain_open_height ≡ 100

handle_cancellation-Overdue_example :
    All
      (λ o. All (Overdue IsReported o.scheduler) o.calls)
      (handle_cancellation issue scheduler [] invalid ((parachain_block 201, parachain) ∷ []))
unfolding fetch_open_requests
handle_cancellation-Overdue_example =
    handle_cancellation-Overdue IsReported issue scheduler ((parachain_block 201, parachain) ∷ [])
      (λ us e. ground (arith, e), tt)

failed_query_is_forgotten_example :
    All
      (λ o. o.calls ≡ [])
      (handle_cancellation issue scheduler [] invalid
        ((parachain_block 201, outage) ∷ (bitcoin_block 21, parachain) ∷ []))
unfolding get_open_requests fetch_open_requests
failed_query_is_forgotten_example =
    failed_query_is_forgotten issue scheduler [] outage 201 (runtime_error channel_closed)
      ((bitcoin_block 21, parachain) ∷ []) refl (tt, tt)

period_of_issues : get_period issue parachain ≡ ok 40
unfolding get_period
period_of_issues = refl
