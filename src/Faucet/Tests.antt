-- ===== src/Faucet/Tests.antt =====
-- The theorems on the faucet, for an account that asks twice (faucet/src/http.rs).
use interbtc_clients.Faucet.{resets, busy}
use interbtc_clients.Prelude.{
  ℕ, ◌≡◌, ◌*◌, ◌-◌, refl, true, false, some, none, [], ◌∷◌, ok, err, leb, if◌then◌else◌, arith,
}
use interbtc_clients.Faucet.{
  Error, user, AllowanceConfig, Chrono, Answers, Store, get_account_type, fund_account,
  ensure_funding_allowed, currencies, check_balances, check_last_request, allowances,
  record_and_transfer, atomic_faucet_funding, transfer, forget,
}
use interbtc_clients.Faucet.Refused.{IsPaidOnce, fund_account_pays_once}
use interbtc_clients.Faucet.Cooldown.{fund_account_cools_down}

abbrev hour : ℕ
hour = 3600000

abbrev chrono : Chrono
chrono = record {
  to_rfc2822 = λ t. t;
  parse_from_rfc2822 = λ t. ok t;
  checked_sub_hours = λ t h. if leb (h * hour) t then some (t - h * hour) else none;
}

abbrev config : AllowanceConfig
config = record {
  max_fundable_client_balance = 100;
  faucet_cooldown_hours = 6;
  user_allowances = (record { symbol = "KINT"; amount = 10 }) ∷ [];
  vault_allowances = [];
  has_auth_url = false;
}

-- The answers to a request at a time.
abbrev answers : ℕ → Answers
answers now = record {
  vaults = ok [];
  signature_exists = ok true;
  try_from_symbol = λ _. ok 2;
  one = λ _. ok 1;
  free_balance = λ _. ok 3;
  reserved_balance = λ _. ok 4;
  now_at_check = now;
  now_at_update = now;
  kv_open = ok tt;
  kv_get = ok tt;
  kv_set = ok tt;
  kv_remove = ok tt;
  transfer_to = λ _. ok tt;
}

abbrev kv : Store
kv = λ _. none

abbrev first : Answers
first = answers (10 * hour)

fund_account_cools_down_example :
    let further =
      fund_account chrono
        (ok tt)
        (answers (15 * hour))
        config
        (fund_account chrono (ok tt) first config kv 8).store
        8 in
    (further.transfers ≡ []) × ((e : Error) × (further.result ≡ err e))
unfolding fund_account atomic_faucet_funding record_and_transfer transfer forget get_account_type
    ensure_funding_allowed currencies check_balances check_last_request allowances
fund_account_cools_down_example =
    fund_account_cools_down chrono (ok tt) (ok tt) first (answers (15 * hour)) config kv 8 user
      (10 * hour) refl refl refl (λ threshold e. ground (arith, e)) refl

fund_account_pays_once_example :
    IsPaidOnce chrono first config kv 8 (fund_account chrono (ok tt) first config kv 8)
fund_account_pays_once_example = fund_account_pays_once chrono first config kv 8 (ok tt)

busy_does_not_reset : resets busy ≡ false
unfolding resets
busy_does_not_reset = refl
