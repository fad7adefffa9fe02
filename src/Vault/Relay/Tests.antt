-- ===== src/Vault/Relay/Tests.antt =====
-- The theorems on the relayer, for a relay that is seven blocks behind Bitcoin
-- (vault/src/relay/mod.rs).
use interbtc_clients.Vault.Relay.{after_submit}
use interbtc_clients.Prelude.{
  ℕ, ◌≡◌, ◌≤◌, ◌+◌, ◌-◌, min, true, some, none, [], ◌∷◌, leb, if◌then◌else◌, length, ok, err, arith,
  refl,
}
use interbtc_clients.Vault.Relay.{
  block_header_not_found, Backing, Issuing, Runner, is_stored_at, forward_pass, backward_pass,
  compute_start_height, wait_for_header, submit_next,
}
use interbtc_clients.Vault.Relay.Start.{NextMissing, compute_start_height_lem}
use interbtc_clients.Vault.Relay.Headers.{IsRun, submitted}
use interbtc_clients.Vault.Relay.Batch.{IsConfirmed, submit_next-IsConfirmed, submit_next_submits}

abbrev backing : Backing
backing = record {
  get_block_count = ok 12;
  get_block_header = λ h. ok (some h);
  get_block_hash = λ h. if leb h 12 then ok h else err block_header_not_found;
  header_polls = λ h. ok (some h) ∷ [];
}

abbrev issuing : Issuing
issuing = record {
  is_initialized = ok true;
  initialize = λ _ _. ok tt;
  submit_block_header = λ _. ok tt;
  submit_block_header_batch = λ _. ok tt;
  get_best_height = ok 5;
  get_block_hash = λ h. ok h;
  is_block_stored = λ x. ok (leb x 5);
}

abbrev runner : Runner
runner = record { start_height = some 0; max_batch_size = 4; btc_confirmations = 2 }

compute_start_height_lem_example :
    (t : ℕ) × (compute_start_height 20 backing issuing ≡ some (ok t))
    × NextMissing backing issuing 5 t
    × (t ≤ 12 + 1)
compute_start_height_lem_example =
    compute_start_height_lem backing issuing 20 5 5 12 refl (omega arith) (5, refl, refl)
      (λ j h k. absurd (omega arith))
      (λ j h. (block_header_not_found, ground arith), λ x. (leb x 5, refl)) (omega arith)
      (omega arith) (omega arith)

submit_next-IsConfirmed_example :
    let headers = submitted (submit_next 20 runner backing issuing issuing) in
    IsRun backing 6 headers × (length headers ≤ 4) × IsConfirmed runner 12 6 headers
unfolding compute_start_height backward_pass forward_pass is_stored_at wait_for_header
submit_next-IsConfirmed_example =
    submit_next-IsConfirmed 20 runner backing issuing issuing 12 6 refl (omega arith) (omega arith)
      refl (omega arith) (λ x e. ground (arith, e))

submit_next_submits_example :
    length (submitted (submit_next 20 runner backing issuing issuing)) ≡ min 4 (12 - 2 + 1 - 6)
unfolding compute_start_height backward_pass forward_pass is_stored_at wait_for_header
submit_next_submits_example =
    submit_next_submits 20 runner backing issuing issuing 12 6 6 refl refl (omega arith) refl
      (omega arith) refl ((6, refl), ((7, refl), ((8, refl), ((9, refl), tt))))

missing_header_is_retried : after_submit (err block_header_not_found) ≡ none
unfolding after_submit
missing_header_is_retried = refl
