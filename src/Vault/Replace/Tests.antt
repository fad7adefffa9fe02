-- ===== src/Vault/Replace/Tests.antt =====
-- A replace request that the second of two vaults can accept (vault/src/replace.rs).
use interbtc_clients.Prelude.{ℕ, ◌≡◌, ◌+◌, refl, true, false, none, [], ◌∷◌, List, ok, err, ◌==◌}
use interbtc_clients.Vault.Errors.{insufficient_funds}
use interbtc_clients.Runtime.Errors.{timeout}
use interbtc_clients.Vault.Cancellation.{executed}
use interbtc_clients.Vault.Payment.{Environment}
use interbtc_clients.Vault.Replace.{
  RequestReplaceEvent, VaultAnswers, accept, new_btc_address, handle_replace_request, try_vaults,
  on_replace_request, on_accept_replace, on_execute_replace,
}
use interbtc_clients.Vault.Replace.Accepting.{IsAnswered, accepted, on_replace_request-IsAnswered}

abbrev vault : ℕ → ℕ → VaultAnswers
vault vault_id collateral = record {
  vault_id = vault_id;
  try_join3 = ok (record {
    required_replace_collateral = 30;
    current_collateral = collateral;
    used_collateral = 80;
  });
  get_new_address = ok 7;
  from_address = λ a. ok (a);
  accept_replace = λ _. ok tt;
}

abbrev vaults : List VaultAnswers
vaults = vault 1 109 ∷ vault 2 110 ∷ vault 3 500 ∷ []

abbrev event : RequestReplaceEvent
event = record { old_vault_id = 9; amount = 1000 }

too_little : handle_replace_request event (vault 1 109) ≡ (err insufficient_funds, [])
unfolding handle_replace_request
too_little = refl

second_accepts : accepted (on_replace_request (λ v. v == 1) true vaults event).1 ≡ 1
unfolding on_replace_request try_vaults handle_replace_request accept new_btc_address
second_accepts = refl

own_execution : on_execute_replace 8 8 5 ≡ executed 5 ∷ []
unfolding on_execute_replace
own_execution = refl

abbrev environment : Environment
environment = record {
  active_block_number = ok 120;
  block_count = ok 11;
  bitcoin_fees = ok 2000000000000000000;
  to_address = λ a. ok (a + 100);
  create_and_send = λ _ _ _ _. ok 40;
  inclusion = [];
  execution = λ _ _ _. (record { result = ok tt; next_backoff = false }) ∷ [];
}

not_directed_here :
    on_accept_replace (λ v. v == 1) (λ _. err timeout) environment 60000 false 2 5 ≡ none
unfolding on_accept_replace
not_directed_here = refl

on_replace_request-IsAnswered_example :
    IsAnswered event vaults (on_replace_request (λ v. v == 1) true vaults event)
    × ((9 == 1) ≡ true → on_replace_request (λ v. v == 1) true vaults event ≡ ([], []))
    × (true ≡ false → on_replace_request (λ v. v == 1) true vaults event ≡ ([], []))
on_replace_request-IsAnswered_example =
    on_replace_request-IsAnswered (λ v. v == 1) true vaults event
