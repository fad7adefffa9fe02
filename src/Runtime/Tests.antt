-- ===== src/Runtime/Tests.antt =====
-- Runs of the classification of errors (runtime/src/error.rs).
use interbtc_clients.Prelude.{◌≡◌, refl, true, false, some, none}
use interbtc_clients.Runtime.Errors.{
  RuntimeError, SubxtError, JsonRpseeError, is_any_module_err, is_module_err, is_duplicate_block,
  is_invalid_chain_id, map_custom_error, is_invalid_transaction, is_pool_too_low_priority,
  is_rpc_disconnect_error, is_rpc_error,
}

abbrev duplicate_block : RuntimeError
duplicate_block =
    RuntimeError.subxt_runtime_error
      (SubxtError.module_error (some (record { pallet = "BTCRelay"; variant = "DuplicateBlock" })))

abbrev low_priority : RuntimeError
low_priority =
    RuntimeError.subxt_runtime_error
      (SubxtError.client_error (some (JsonRpseeError.custom 1014 none)))

module_errors_differ :
    (is_any_module_err duplicate_block ≡ true)
    × (is_duplicate_block duplicate_block ≡ true)
    × (is_invalid_chain_id duplicate_block ≡ false)
    × (is_rpc_error duplicate_block ≡ false)
unfolding is_any_module_err is_module_err is_duplicate_block is_invalid_chain_id is_rpc_error
module_errors_differ = (refl, refl, refl, refl)

pool_errors_differ :
    (is_pool_too_low_priority low_priority ≡ some tt)
    × (is_invalid_transaction low_priority ≡ none)
    × (is_rpc_error low_priority ≡ true)
    × (is_rpc_disconnect_error low_priority ≡ false)
unfolding map_custom_error is_pool_too_low_priority is_invalid_transaction is_rpc_error
    is_rpc_disconnect_error
pool_errors_differ = (refl, refl, refl, refl)
