-- ===== src/Vault/Redeem.antt =====
-- The answer to redeem requests (vault/src/redeem.rs).
pub mod Single
mod Tests
use interbtc_clients.Prelude.{ℕ, Bool, Option, none, some, if◌then◌else◌, Result, map_err}
use interbtc_clients.Runtime.Errors.{RuntimeError}
use interbtc_clients.Runtime.Requests.{H256, VaultId, RedeemRequest}
use interbtc_clients.Vault.Errors.{runtime_error}
use interbtc_clients.Vault.Requests.{from_redeem_request}
use interbtc_clients.Vault.Payment.{Run, lift, ◌>>=◌, Environment, pay_and_execute}

-- The handler of `listen_for_redeem_requests`, with the task that it spawns; `none` if the event is
-- not directed at this vault.
unfoldable pub on_redeem_request :
    (VaultId → Bool)
    → (H256 → Result RedeemRequest RuntimeError)
    → Environment
    → ℕ
    → Bool
    → VaultId
    → H256
    → Option (Run (Unit {0}))
on_redeem_request has_vault get_redeem_request env payment_margin auto_rbf vault_id redeem_id =
    if has_vault vault_id
    then some (
        lift (map_err runtime_error (get_redeem_request redeem_id)) >>= λ q.
        lift (from_redeem_request redeem_id q payment_margin) >>= λ r.
        pay_and_execute r env auto_rbf)
    else none
