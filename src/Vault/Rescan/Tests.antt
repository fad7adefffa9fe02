-- ===== src/Vault/Rescan/Tests.antt =====
-- A vault that was off while two issue requests were opened (vault/src/issue.rs).
use interbtc_clients.Prelude.{
  ℕ, ◌≡◌, ◌+◌, ◌<◌, ap, refl, true, false, none, some, List, [], ◌∷◌, ok, arith,
}
use interbtc_clients.Runtime.Requests.{IssueRequest, RequestStatus}
use interbtc_clients.Vault.Rescan.{
  RescanStatus, update, prune, process_blocks, deposit_key_added, electrs_scanned, rescanned,
  stored, Answers, rescan_chunks, scan_from, scan_past, add_keys_from_past_issue_request,
  next_chunk_size, pruned_addresses, add_deposit_keys,
}
use interbtc_clients.Vault.Rescan.Range.{prune_reverses}
use interbtc_clients.Vault.Rescan.Chunks.{
  Chunks, Unfinished, Ends, NothingFails, rescan_chunks-Chunks, rescan_chunks-Ends,
}
use interbtc_clients.Vault.Rescan.Past.{IsLookedFor, past_payments-IsLookedFor}

abbrev issue : ℕ → ℕ → IssueRequest
issue opentime btc_height = record {
  vault = 1;
  requester = 2;
  opentime = opentime;
  btc_height = btc_height;
  period = 50;
  amount = 1000;
  fee = 5;
  btc_address = 60;
  btc_public_key = 7;
  status = RequestStatus.pending;
}

abbrev issues : List IssueRequest
issues = issue 10 105 ∷ issue 12 101 ∷ issue 3 90 ∷ []

abbrev seen : RescanStatus
seen = record { newest_issue_height = 5; queued_rescan_range = none }

abbrev answers : Answers
answers = record {
  get = ok (some seen);
  get_vault_issue_requests = ok ((11, issue 10 105) ∷ (12, issue 12 101) ∷ (13, issue 3 90) ∷ []);
  add_new_deposit_key = λ _ _. ok tt;
  get_block_count = ok 110;
  get_pruned_height = ok 103;
  to_address = λ a. some (a + 1);
  rescan_electrs_for_addresses = λ _. ok tt;
  rescan_blockchain = λ _ _. ok tt;
  quick = λ _ _. true;
  put = λ _. ok tt;
}

abbrev queued : ℕ → ℕ → RescanStatus
queued start end = record { newest_issue_height = 12; queued_rescan_range = some (start, end) }

abbrev done : RescanStatus
done = record { newest_issue_height = 12; queued_rescan_range = none }

updated : update seen issues 110 ≡ queued 101 110
unfolding update
updated = refl

pruned : prune (queued 101 110) 103 ≡ (some (101, 102), queued 103 110)
unfolding prune
pruned = refl

processed : process_blocks (queued 103 110) 4 ≡ (some (103, 106), queued 107 110)
unfolding process_blocks
processed = refl

slow : next_chunk_size false 1 ≡ ok 1
unfolding next_chunk_size
slow = refl

chunks : rescan_chunks 9 answers (queued 103 110) 1 ≡ record {
  result = some (ok tt);
  effects =
      rescanned 103 103
      ∷ stored (queued 104 110)
      ∷ rescanned 104 105
      ∷ stored (queued 106 110)
      ∷ rescanned 106 109
      ∷ stored (queued 110 110)
      ∷ rescanned 110 110
      ∷ stored done
      ∷ [];
}
unfolding rescan_chunks process_blocks next_chunk_size
chunks = refl

whole : add_keys_from_past_issue_request 9 answers 1 ≡ record {
  result = some (ok tt);
  effects =
      deposit_key_added 11 7
      ∷ deposit_key_added 12 7
      ∷ deposit_key_added 13 7
      ∷ electrs_scanned (61 ∷ 61 ∷ [])
      ∷ stored (queued 103 110)
      ∷ (rescan_chunks 9 answers (queued 103 110) 1).effects;
}
unfolding add_keys_from_past_issue_request scan_past scan_from rescan_chunks process_blocks
    next_chunk_size prune update pruned_addresses add_deposit_keys
whole = refl

prune_reverses_example : (process_blocks (prune (queued 101 110) 115).1 4).0 ≡ some (115, 110)
prune_reverses_example =
    prune_reverses (queued 101 110) 101 110 115 4 refl (omega arith) (omega arith) (omega arith)
      (omega arith)

rescan_chunks-Chunks_example :
    Chunks
      (Unfinished (rescan_chunks 9 answers (queued 103 110) 1))
      103
      110
      (rescan_chunks 9 answers (queued 103 110) 1).effects
rescan_chunks-Chunks_example =
    rescan_chunks-Chunks 9 answers (queued 103 110) 1 103 110 refl (omega arith) (omega arith)
      (omega arith)

rescan_chunks-Ends_example :
    Ends (NothingFails answers) (rescan_chunks 9 answers (queued 103 110) 1)
rescan_chunks-Ends_example =
    rescan_chunks-Ends 9 answers (queued 103 110) 1 103 110 refl (omega arith) (omega arith)
      (omega arith) (omega arith)

past_payments-IsLookedFor_example :
    (5 < 10
      → IsLookedFor 103 110 (add_keys_from_past_issue_request 9 answers 1).effects (issue 10 105))
    × ((5 < 12
          → IsLookedFor 103 110
              (add_keys_from_past_issue_request 9 answers 1).effects
              (issue 12 101))
        × ((5 < 3
              → IsLookedFor 103 110
                  (add_keys_from_past_issue_request 9 answers 1).effects
                  (issue 3 90))
            × Unit {0}))
past_payments-IsLookedFor_example =
    past_payments-IsLookedFor 9 answers 1 (some seen)
      ((11, issue 10 105) ∷ (12, issue 12 101) ∷ (13, issue 3 90) ∷ []) 110 103 refl refl refl refl
      (omega arith) tt (omega arith) (ap (λ r. r.result) whole)
