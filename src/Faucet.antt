-- ===== src/Faucet.antt =====
-- The faucet (faucet/src/http.rs): who is funded and how often. The parachain, the clock, the
-- signature service and the key-value store are other systems: `Answers` and `Chrono` hold what
-- they answer to one request. The store maps an account to its last request; the lock around
-- checking and recording a request makes these one step.
pub mod Cooldown
pub mod Refused
mod Tests
use interbtc_clients.Prelude.{
  ℕ, ◌+◌, ◌*◌, ◌%◌, Bool, true, false, not, ◌&&◌, ◌||◌, Option, none, some, List, [], ◌∷◌, ltb,
  ◌==◌, if◌then◌else◌, Result, ok, err, ◌>>=◌, ok_or, map_err, u128_max,
}
use Prim.Native.String.{String}
use interbtc_clients.Runtime.Errors.{
  RuntimeError, asset_not_found, is_any_module_err, is_invalid_transaction,
}
use interbtc_clients.Runtime.Requests.{AccountId, VaultId}

pub data Error : Type 0 where
  runtime_error : RuntimeError → Error
  kv_error reqwest_error datetime_parsing_error account_balance_exceeds_maximum
        account_already_funded math_error signature_missing busy :
      Error

pub data AccountType : Type 0 where
  user vault : AccountType

pub same_type : AccountType → AccountType → Bool
same_type user user = true
same_type vault vault = true
same_type _ _ = false

-- A date in the format of RFC 2822.
abbrev pub Datetime : Type 0
Datetime = ℕ

pub record FaucetRequest : Type 0 where
  pub datetime : Datetime
  pub account_type : AccountType

abbrev pub CurrencyId : Type 0
CurrencyId = ℕ

pub record AllowanceAmount : Type 0 where
  pub symbol : String
  pub amount : ℕ

pub record AllowanceConfig : Type 0 where
  pub max_fundable_client_balance : ℕ
  pub faucet_cooldown_hours : ℕ
  pub user_allowances : List AllowanceAmount
  pub vault_allowances : List AllowanceAmount
  pub has_auth_url : Bool

-- The `chrono` crate; an instant is in milliseconds.
pub record Chrono : Type 0 where
  pub to_rfc2822 : ℕ → Datetime
  pub parse_from_rfc2822 : Datetime → Result ℕ Error
  pub checked_sub_hours : ℕ → ℕ → Option ℕ

-- What the other systems answer while one request is handled.
pub record Answers : Type 0 where
  pub vaults : Result (List VaultId) RuntimeError
  pub signature_exists : Result Bool Error
  pub try_from_symbol : String → Result CurrencyId RuntimeError
  pub one : CurrencyId → Result ℕ RuntimeError
  pub free_balance : CurrencyId → Result ℕ RuntimeError
  pub reserved_balance : CurrencyId → Result ℕ RuntimeError
  pub now_at_check : ℕ
  pub now_at_update : ℕ
  pub kv_open : Result (Unit {0}) Error
  pub kv_get : Result (Unit {0}) Error
  pub kv_set : Result (Unit {0}) Error
  pub kv_remove : Result (Unit {0}) Error
  pub transfer_to : List (ℕ × CurrencyId) → Result (Unit {0}) RuntimeError

abbrev pub Store : Type 0
Store = AccountId → Option FaucetRequest

abbrev pub set : Store → AccountId → Option FaucetRequest → Store
set kv account r a = if a == account then r else kv a

-- What handling a request leaves: the result, the store and the transfers that were tried.
pub record Outcome : Type 0 where
  pub result : Result (Unit {0}) Error
  pub store : Store
  pub transfers : List (List (ℕ × CurrencyId))

pub get_account_type : Answers → Result AccountType Error
get_account_type s = elim s.vaults [ ok (v ∷ vs) ↦ ok vault | _ ↦ ok user ]

pub is_type_and_was_user : AccountType → AccountType → AccountType → Bool
is_type_and_was_user account_type current previous =
    same_type current account_type && same_type previous user

pub has_request_expired : ℕ → ℕ → AccountType → AccountType → Bool
unfolding is_type_and_was_user
has_request_expired request_datetime cooldown_threshold current previous =
    ltb request_datetime cooldown_threshold || is_type_and_was_user vault current previous

pub ensure_signature_exists : Answers → Result (Unit {0}) Error
ensure_signature_exists s = s.signature_exists >>= λ b. if b then ok tt else err signature_missing

pub allowances : AllowanceConfig → AccountType → List AllowanceAmount
allowances c user = c.user_allowances
allowances c vault = c.vault_allowances

-- The amounts of the allowances with their currencies.
pub currencies : Answers → List AllowanceAmount → Result (List (ℕ × CurrencyId)) Error
currencies s [] = ok []
currencies s (x ∷ xs) =
    let rest = currencies s xs in
    map_err runtime_error (s.try_from_symbol x.symbol) >>= λ currency_id.
    rest >>= λ ids. ok ((x.amount, currency_id) ∷ ids)

-- Does the account have enough of none of the currencies?
pub check_balances : Answers → AllowanceConfig → List (ℕ × CurrencyId) → Result (Unit {0}) Error
check_balances s c [] = ok tt
check_balances s c ((_, id) ∷ ids) =
    let rest = check_balances s c ids in
    map_err runtime_error (s.free_balance id) >>= λ free.
    map_err runtime_error (s.reserved_balance id) >>= λ reserved.
    map_err runtime_error (s.one id) >>= λ one.
    if ltb ((c.max_fundable_client_balance * one) % (u128_max + 1))
      ((free + reserved) % (u128_max + 1))
    then err account_balance_exceeds_maximum
    else rest

pub check_last_request : Chrono → ℕ → AccountType → Option FaucetRequest → Result (Unit {0}) Error
check_last_request d threshold account_type none = ok tt
check_last_request d threshold account_type (some last) =
    d.parse_from_rfc2822 last.datetime >>= λ at.
    if has_request_expired at threshold account_type last.account_type
    then ok tt
    else err account_already_funded

pub ensure_funding_allowed :
    Chrono → Answers → AllowanceConfig → Store → AccountId → AccountType → Result (Unit {0}) Error
ensure_funding_allowed d s c kv account account_type =
    (if c.has_auth_url then ensure_signature_exists s else ok tt) >>= λ _.
    currencies s (allowances c account_type) >>= λ ids. check_balances s c ids >>= λ _.
    ok_or (d.checked_sub_hours s.now_at_check c.faucet_cooldown_hours) math_error >>= λ threshold.
    s.kv_get >>= λ _. check_last_request d threshold account_type (kv account)

-- The transfer at the end of a request that was recorded.
pub transfer : Answers → Store → Result (List (ℕ × CurrencyId)) Error → Outcome
transfer s kv (err e) = record { result = err e; store = kv; transfers = [] }
transfer s kv (ok amounts) = record {
  result = map_err runtime_error (s.transfer_to amounts);
  store = kv;
  transfers = amounts ∷ [];
}

-- A request that may be funded is recorded, then paid.
pub record_and_transfer :
    Chrono → Answers → AllowanceConfig → Store → AccountId → AccountType → Outcome
record_and_transfer d s c kv account account_type = elim s.kv_set [
  | err e ↦ record { result = err e; store = kv; transfers = [] }
  | ok _ ↦
      transfer s
        (set kv account
          (some (record { datetime = d.to_rfc2822 s.now_at_update; account_type = account_type })))
        (currencies s (allowances c account_type))
]

pub atomic_faucet_funding : Chrono → Answers → AllowanceConfig → Store → AccountId → Outcome
atomic_faucet_funding d s c kv account =
    elim (get_account_type s >>= λ t. ensure_funding_allowed d s c kv account t >>= λ _. ok t) [
      | err e ↦ record { result = err e; store = kv; transfers = [] }
      | ok t ↦ record_and_transfer d s c kv account t
    ]

-- The errors after which the request is forgotten.
pub resets : Error → Bool
resets (runtime_error asset_not_found) = true
resets (runtime_error e) =
    is_any_module_err e || elim (is_invalid_transaction e) [ none ↦ false | some _ ↦ true ]
resets _ = false

pub forget : Answers → AccountId → Outcome → Outcome
forget s account o = elim o.result [
  | ok _ ↦ o
  | err e ↦
      if resets e
      then elim s.kv_remove [
        | ok _ ↦ record {
          result = err e;
          store = set o.store account none;
          transfers = o.transfers;
        }
        | err x ↦ record { result = err x; store = o.store; transfers = o.transfers }
      ]
      else o
]

-- `fund_account`. The permit of the limit on concurrent requests is asked for, but a request that
-- gets none is handled like the others.
pub fund_account :
    Chrono → Result (Unit {0}) Error → Answers → AllowanceConfig → Store → AccountId → Outcome
fund_account d permit s c kv account = elim s.kv_open [
  | err e ↦ record { result = err e; store = kv; transfers = [] }
  | ok _ ↦ forget s account (atomic_faucet_funding d s c kv account)
]
