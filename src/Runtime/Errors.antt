-- ===== src/Runtime/Errors.antt =====
-- The error type of the parachain client (runtime/src/error.rs) and its classification. `subxt` and
-- `jsonrpsee` are other crates: of their errors the model keeps what the code looks at (an error
-- code below 0 is equal to none of the codes, so codes are natural numbers). A module error carries
-- what `details()` returned, a client error what `downcast_ref` did.
use interbtc_clients.Prelude.{ℕ, Bool, true, false, Option, none, some, ◌==◌, ◌&&◌, if◌then◌else◌}
use Prim.Native.String.{String}
use text.Mathlib.Text.{◌==◌ as str_eq}

pub data JsonRpseeError : Type 0 where
  custom : ℕ → Option String → JsonRpseeError
  restart_needed : JsonRpseeError
  transport_url : JsonRpseeError
  other : JsonRpseeError

-- The names of the pallet and of the error variant.
pub record ModuleDetails : Type 0 where
  pub pallet : String
  pub variant : String

pub data SubxtError : Type 0 where
  module_error : Option ModuleDetails → SubxtError
  client_error : Option JsonRpseeError → SubxtError
  subscription_dropped : SubxtError
  rpc_other : SubxtError
  block_not_found : SubxtError
  other : SubxtError

pub data RuntimeError : Type 0 where
  subxt_runtime_error : SubxtError → RuntimeError
  channel_closed : RuntimeError
  timeout : RuntimeError
  asset_not_found : RuntimeError
  vault_liquidated : RuntimeError
  vault_not_found : RuntimeError
  other : ℕ → RuntimeError

unfoldable pub is_any_module_err : RuntimeError → Bool
is_any_module_err (RuntimeError.subxt_runtime_error (SubxtError.module_error d)) = true
is_any_module_err _ = false

unfoldable pub is_module_err : RuntimeError → String → String → Bool
is_module_err (RuntimeError.subxt_runtime_error (SubxtError.module_error (some d))) p v =
    str_eq d.pallet p && str_eq d.variant v
is_module_err _ p v = false

unfoldable pub is_duplicate_block : RuntimeError → Bool
unfolding is_module_err
is_duplicate_block e = is_module_err e "BTCRelay" "DuplicateBlock"

unfoldable pub is_invalid_chain_id : RuntimeError → Bool
unfolding is_module_err
is_invalid_chain_id e = is_module_err e "BTCRelay" "InvalidChainID"

unfoldable pub is_issue_completed : RuntimeError → Bool
unfolding is_module_err
is_issue_completed e = is_module_err e "Issue" "IssueCompleted"

unfoldable pub is_threshold_not_set : RuntimeError → Bool
unfolding is_module_err
is_threshold_not_set e = is_module_err e "VaultRegistry" "ThresholdNotSet"

unfoldable pub map_custom_error {ℓ} :
    {A : Type ℓ} → RuntimeError → (ℕ → Option String → Option A) → Option A
map_custom_error
      (RuntimeError.subxt_runtime_error
        (SubxtError.client_error (some (JsonRpseeError.custom c d))))
      f =
    f c d
map_custom_error _ f = none

abbrev unwrap_or_default : Option String → String
unwrap_or_default none = ""
unwrap_or_default (some s) = s

abbrev pool_invalid_tx : ℕ
pool_invalid_tx = 1010

abbrev pool_too_low_priority : ℕ
pool_too_low_priority = 1014

unfoldable pub is_invalid_transaction : RuntimeError → Option String
unfolding map_custom_error
is_invalid_transaction e =
    map_custom_error e (λ c d. if c == pool_invalid_tx then some (unwrap_or_default d) else none)

unfoldable pub is_pool_too_low_priority : RuntimeError → Option (Unit {0})
unfolding map_custom_error
is_pool_too_low_priority e =
    map_custom_error e (λ c d. if c == pool_too_low_priority then some tt else none)

unfoldable pub is_rpc_disconnect_error : RuntimeError → Bool
is_rpc_disconnect_error
      (RuntimeError.subxt_runtime_error
        (SubxtError.client_error (some JsonRpseeError.restart_needed))) =
    true
is_rpc_disconnect_error (RuntimeError.subxt_runtime_error SubxtError.subscription_dropped) = true
is_rpc_disconnect_error _ = false

unfoldable pub is_rpc_error : RuntimeError → Bool
is_rpc_error (RuntimeError.subxt_runtime_error (SubxtError.client_error e)) = true
is_rpc_error (RuntimeError.subxt_runtime_error SubxtError.subscription_dropped) = true
is_rpc_error (RuntimeError.subxt_runtime_error SubxtError.rpc_other) = true
is_rpc_error _ = false
