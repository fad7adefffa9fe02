-- ===== src/Vault/IssueSet/Tests.antt =====
-- Two watched issue requests, one executed and one cancelled (vault/src/types.rs).
use interbtc_clients.Prelude.{◌≡◌, refl, false, none, some, [], ◌∷◌, ◌+◌, List, arith}
use interbtc_clients.Vault.IssueSet.{
  new, insert, remove_key, remove_value, get_key_for_value, SetStep, inserted, key_removed,
  value_removed, set_steps,
}
use interbtc_clients.Vault.IssueSet.Watched.{Represents, watched_steps, set_steps-Represents}

abbrev steps : List SetStep
steps = inserted 1 101 ∷ inserted 2 102 ∷ value_removed 101 ∷ value_removed 999 ∷ key_removed 7 ∷ []

found_by_address : get_key_for_value 102 (set_steps steps new) ≡ some 2
unfolding get_key_for_value set_steps new
found_by_address = refl

not_found_any_more : get_key_for_value 101 (set_steps steps new) ≡ none
unfolding get_key_for_value set_steps new
not_found_any_more = refl

old_values : (insert 2 103 (set_steps steps new)).0 ≡ (none, some 102)
unfolding insert set_steps new
old_values = refl

removed_key : (remove_key 2 (set_steps steps new)).0 ≡ some 102
unfolding remove_key set_steps new
removed_key = refl

removed_value : (remove_value 102 (set_steps steps new)).0 ≡ some 2
unfolding remove_value set_steps new
removed_value = refl

set_steps-Represents_example :
    Represents
      (λ k. k + 100)
      (set_steps steps new)
      (watched_steps (λ k. k + 100) steps (λ _. false))
unfolding new
set_steps-Represents_example =
    set_steps-Represents (λ k. k + 100) steps new (λ _. false) (λ j k e. omega arith) (omega arith)
      (record { at_key = λ k. refl; at_address = λ k. refl; by_address = λ v k e. ground arith })
