-- ===== src/Bitcoin/Streams/Blocks.antt =====
-- Which blocks the stream of Bitcoin's blocks yields (bitcoin/src/iter.rs).
use mathlib.Core.Path.{subst}
use interbtc_clients.Prelude.{
  ℕ, zero, suc, ◌+◌, ◌-◌, ◌≤◌, ◌≡◌, refl, sym, ap, Bool, true, false, none, some, List, [], ◌∷◌,
  Result, ok, err, arith,
}
use interbtc_clients.Bitcoin.Streams.{
  Block, BlockHash, Error, Rpc, StreamState, next_block, fetched, pull, run, reverse_stream_blocks,
  other,
}

run-some :
    (rpc : Rpc) (stop n : ℕ) (s s' : StreamState) (x : Result Block Error)
    (xs : List (Result Block Error)) (b : Bool)
    → pull rpc stop s ≡ some (x, s')
    → run rpc stop n s' ≡ (xs, b)
    → run rpc stop (suc n) s ≡ (x ∷ xs, b)
unfolding run
run-some rpc stop n s s' x xs b p r =
    subst
      (λ o.
        elim o as (λ _. List (Result Block Error) × Bool) [
          | none ↦ ([], true)
          | some (item, s'') ↦ let rest = run rpc stop n s'' in (item ∷ rest.0, rest.1)
        ]
        ≡ (x ∷ xs, b))
      (sym p) (ap (λ q. (x ∷ q.0, q.1)) r)

run-none :
    (rpc : Rpc) (stop n : ℕ) (s : StreamState)
    → pull rpc stop s ≡ none
    → run rpc stop (suc n) s ≡ ([], true)
unfolding run
run-none rpc stop n s p =
    subst
      (λ o.
        elim o as (λ _. List (Result Block Error) × Bool) [
          | none ↦ ([], true)
          | some (item, s'') ↦ let rest = run rpc stop n s'' in (item ∷ rest.0, rest.1)
        ]
        ≡ ([], true))
      (sym p) refl

-- The blocks of a number of heights from `tip` down.
abbrev pub down : (ℕ → Block) → ℕ → ℕ → List (Result Block Error)
down block tip zero = []
down block tip (suc n) = ok (block tip) ∷ down block (tip - 1) n

module _ (rpc : Rpc) (stop tip : ℕ) (hash : ℕ → BlockHash) (block : ℕ → Block) where
  -- Bitcoin Core has the blocks of the heights up to the tip, each pointing to the one before.
  abbrev pub IsChain : Type 0
  IsChain =
      (rpc.get_best_block_info ≡ ok (tip, hash tip))
      × ((h : ℕ) → h ≤ tip → rpc.get_block (hash h) ≡ ok (block h))
      × ((h : ℕ) → suc h ≤ tip → (block (suc h)).prev_blockhash ≡ hash h)

  -- The state after the block of a height.
  abbrev at_height : ℕ → StreamState
  at_height h = record { height = some h; prev_block = some (block h) }

  pull_below :
      (h k : ℕ)
      → IsChain
      → h ≡ suc k
      → h ≤ tip
      → stop ≤ k
      → pull rpc stop (at_height h) ≡ some (ok (block k), at_height k)
  unfolding pull next_block fetched
  pull_below h k (_, b, p) e l m = rw (e, pred, p k (omega arith), b k (omega arith)) (ground arith)
    where
      pred : suc k - 1 ≡ k
      pred = omega arith

  pull_first :
      IsChain
      → stop ≤ tip
      → pull rpc stop (record { height = none; prev_block = none })
        ≡ some (ok (block tip), at_height tip)
  unfolding pull next_block fetched
  pull_first (a, b, p) l = rw (a, b tip (omega arith)) (ground arith)

  pull_ends : 1 ≤ stop → pull rpc stop (at_height stop) ≡ none
  unfolding pull next_block
  pull_ends m = ground arith

  run-down :
      IsChain
      → 1 ≤ stop
      → (n h : ℕ) → h ≤ tip
      → stop + n ≡ h
      → run rpc stop (suc n) (at_height h) ≡ (down block (h - 1) n, true)
  run-down c m zero h l e =
      run-none rpc stop 0 (at_height h)
        (subst (λ x. pull rpc stop (at_height x) ≡ none) (omega arith) (pull_ends m))
  run-down c m (suc n) h l e =
      run-some rpc stop (suc n) (at_height h) (at_height (h - 1)) _ _ true
        (pull_below h (h - 1) c (omega arith) l (omega arith))
        (run-down c m n (h - 1) (omega arith) (omega arith))

  -- Where Bitcoin Core has the blocks of a chain and the height to stop at is between 1 and the
  -- tip's, the stream yields exactly the blocks from the tip down to that height, and ends.
  pub reverse_stream_blocks_yields :
      IsChain
      → 1 ≤ stop
      → (n : ℕ) → stop + n ≡ tip
      → reverse_stream_blocks rpc stop (suc (suc n)) ≡ (down block tip (suc n), true)
  unfolding reverse_stream_blocks
  reverse_stream_blocks_yields c m n e =
      run-some rpc stop (suc n) (record { height = none; prev_block = none }) (at_height tip) _ _
        true (pull_first c (omega arith)) (run-down c m n tip (omega arith) e)

  genesis_again :
      rpc.get_block (block 0).prev_blockhash ≡ err other
      → stop ≡ 0
      → pull rpc stop (at_height 0) ≡ some (err other, at_height 0)
  unfolding pull next_block fetched
  genesis_again q z = rw (z, q) refl

  run_goes_on :
      (n : ℕ) (s s' : StreamState) (x : Result Block Error)
      → pull rpc stop s ≡ some (x, s')
      → (run rpc stop n s').1 ≡ false
      → (run rpc stop (suc n) s).1 ≡ false
  run_goes_on n s s' x p h =
      ap (λ r. r.1)
        (run-some rpc stop n s s' x (run rpc stop n s').0 false p (
          ap {A = Bool} {B = List (Result Block Error) × Bool} (λ b. ((run rpc stop n s').0, b)) h))

  run_forever :
      IsChain
      → rpc.get_block (block 0).prev_blockhash ≡ err other
      → stop ≡ 0
      → (n h : ℕ) → h ≤ tip
      → (run rpc stop n (at_height h)).1 ≡ false
  unfolding run
  run_forever c q z zero h l = refl
  run_forever c q z (suc n) zero l =
      run_goes_on n (at_height 0) (at_height 0) (err other) (genesis_again q z)
        (run_forever c q z n 0 l)
  run_forever c q z (suc n) (suc h) l =
      run_goes_on n (at_height (suc h)) (at_height h) (ok (block h))
        (pull_below (suc h) h c refl l (omega arith)) (run_forever c q z n h (omega arith))

  -- Where the height to stop at is 0 and Bitcoin Core has no block before the first, the stream
  -- does not end: it has not ended after any number of items.
  pub reverse_stream_blocks_never_ends :
      IsChain
      → rpc.get_block (block 0).prev_blockhash ≡ err other
      → stop ≡ 0
      → (n : ℕ) → (reverse_stream_blocks rpc stop n).1 ≡ false
  unfolding reverse_stream_blocks run
  reverse_stream_blocks_never_ends c q z zero = refl
  reverse_stream_blocks_never_ends c q z (suc n) =
      run_goes_on n (record { height = none; prev_block = none }) (at_height tip) (ok (block tip))
        (pull_first c (omega arith)) (run_forever c q z n tip (omega arith))
