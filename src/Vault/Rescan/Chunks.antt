-- ===== src/Vault/Rescan/Chunks.antt =====
-- The loop over the chunks of a rescan (`add_keys_from_past_issue_request`, vault/src/issue.rs).
use mathlib.Core.Path.{subst}
use native.Mathlib.Decide.{dec_lt}
use interbtc_clients.Prelude.{
  ℕ, zero, suc, ◌+◌, ◌-◌, ◌*◌, ◌/◌, ◌≡◌, ◌≢◌, ◌≤◌, ◌<◌, refl, sym, ap, Bool, true, false, Option,
  none, some, List, [], ◌∷◌, arith, inl, inr, ◌⊎◌, if◌then◌else◌, min, max, u64_max, saturating_add,
  Result, ok, err, map_err, ◌==◌,
}
use interbtc_clients.Vault.Errors.{Error, bitcoin_error}
use interbtc_clients.Vault.Rescan.{
  RescanStatus, process_blocks, next_chunk_size, Answers, Outcome, Effect, rescanned, stored,
  rescan_chunks, attempt,
}

-- The last block of the chunk from `start` on.
abbrev chunk_end : ℕ → ℕ → ℕ → ℕ
chunk_end start end chunk_size = min end (saturating_add u64_max start chunk_size - 1)

chunk_end_bounds :
    (start end chunk_size : ℕ)
    → start ≤ end
    → end < u64_max
    → 0 < chunk_size
    → (start ≤ chunk_end start end chunk_size) × (chunk_end start end chunk_size ≤ end)
chunk_end_bounds start end chunk_size h k c = ground arith

-- What is left to scan behind a chunk.
abbrev pub left_from : ℕ → ℕ → Option (ℕ × ℕ)
left_from last end = if last == end then none else some (last + 1, end)

abbrev status_after : RescanStatus → ℕ → ℕ → RescanStatus
status_after s last end = record s { queued_rescan_range = left_from last end }

next_chunk_size_pos :
    (quick : Bool) (chunk_size : ℕ)
    → 0 < chunk_size
    → (n : ℕ) × (next_chunk_size quick chunk_size ≡ ok n) × (0 < n)
unfolding next_chunk_size
next_chunk_size_pos true n h = (min u64_max (n * 2), refl, omega arith)
next_chunk_size_pos false n h = (max (n / 2) 1, refl, omega arith)

rescan_chunks_step :
    (fuel : ℕ) (env : Answers) (s : RescanStatus) (n start end n' : ℕ)
    → s.queued_rescan_range ≡ some (start, end)
    → next_chunk_size (env.quick start (chunk_end start end n)) n ≡ ok n'
    → rescan_chunks (suc fuel) env s n ≡ (
        let last = chunk_end start end n in
        attempt (map_err bitcoin_error (env.rescan_blockchain start last)) (rescanned start last) (
          attempt
            (env.put (status_after s last end))
            (stored (status_after s last end))
            (rescan_chunks fuel env (status_after s last end) n')))
unfolding rescan_chunks process_blocks
rescan_chunks_step fuel env s n start end n' e f = rw (e, process_blocks) (rw f)

-- The effects are chunks that follow one another from `start` on, none of them empty or beyond
-- `end`, each followed by a stored status that asks for just what is left. They go on to `end`, or
-- `Stop` holds.
abbrev pub Chunks : Type 0 → ℕ → ℕ → List Effect → Type 0
Chunks Stop start end [] = Stop
Chunks Stop start end (rescanned a b ∷ []) = Stop × (a ≡ start) × (start ≤ b) × (b ≤ end)
Chunks Stop start end (rescanned a b ∷ stored s ∷ rest) =
    (a ≡ start)
    × (start ≤ b)
    × (s.queued_rescan_range ≡ left_from b end)
    × ((b ≡ end) × (rest ≡ []) ⊎ (b < end) × Chunks Stop (b + 1) end rest)
Chunks Stop start end _ = ⊥

-- Nothing is queued: the loop ends.
rescan_chunks-none :
    (fuel : ℕ) (env : Answers) (s : RescanStatus) (n : ℕ)
    → s.queued_rescan_range ≡ none
    → rescan_chunks (suc fuel) env s n ≡ record { result = some (ok tt); effects = [] }
unfolding rescan_chunks process_blocks
rescan_chunks-none fuel env s n e = rw (e, process_blocks) refl

left_from_end : (last end : ℕ) → last ≡ end → left_from last end ≡ none
left_from_end last end e = ground arith

rescan_chunks_idle :
    (fuel : ℕ) (env : Answers) (s : RescanStatus) (n : ℕ)
    → s.queued_rescan_range ≡ none
    → (rescan_chunks fuel env s n).effects ≡ []
rescan_chunks_idle zero env s n e = unfold rescan_chunks in refl
rescan_chunks_idle (suc fuel) env s n e = ap (λ r. r.effects) (rescan_chunks-none fuel env s n e)

abbrev pub Unfinished : Outcome → Type 0
Unfinished r = r.result ≢ some (ok tt)

unfoldable pub IsChunked : ℕ → ℕ → Outcome → Type 0
IsChunked start end r = Chunks (Unfinished r) start end r.effects

-- One round, whatever the answers are, over what follows it.
round-Chunks :
    (start end last : ℕ) (s : RescanStatus) (scan put : Result (Unit {0}) Error) (k : Outcome)
    → start ≤ last
    → last ≤ end
    → s.queued_rescan_range ≡ left_from last end
    → ((last ≡ end) × (k.effects ≡ []) ⊎ (last < end) × IsChunked (last + 1) end k)
    → IsChunked start end (attempt scan (rescanned start last) (attempt put (stored s) k))
unfolding IsChunked
round-Chunks start end last s (err e) put k l m q c = λ p. cc
round-Chunks start end last s (ok _) (err e) k l m q c = ((λ p. cc), refl, l, m)
round-Chunks start end last s (ok _) (ok _) k l m q c = (refl, l, q, c)

rescan_chunks-IsChunked :
    (fuel : ℕ) (env : Answers) (s : RescanStatus) (n start end : ℕ)
    → s.queued_rescan_range ≡ some (start, end)
    → start ≤ end
    → end < u64_max
    → 0 < n
    → IsChunked start end (rescan_chunks fuel env s n)
rescan_chunks-IsChunked zero env s n start end e h k m = unfold IsChunked rescan_chunks in λ p. cc
rescan_chunks-IsChunked (suc fuel) env s n start end e h k m =
    go (next_chunk_size_pos (env.quick start (chunk_end start end n)) n m) (λ n' p l.
      rescan_chunks-IsChunked fuel env (status_after s last end) n' (last + 1) end
        (ground (arith, l)) (omega arith) k p)
  where
    last : ℕ
    last = chunk_end start end n

    rest : (n' : ℕ) → Outcome
    rest n' = rescan_chunks fuel env (status_after s last end) n'

    following :
        (n' : ℕ)
        → (last < end → IsChunked (last + 1) end (rest n'))
        → (last ≡ end) × ((rest n').effects ≡ [])
          ⊎ (last < end) × IsChunked (last + 1) end (rest n')
    following n' rec = elim (dec_lt last end) [
      | yes p ↦ inr (p, rec p)
      | no p ↦
          let at_end : last ≡ end = ground (arith, chunk_end_bounds start end n h k m) in
          inl (
            at_end,
            rescan_chunks_idle fuel env (status_after s last end) n'
                (left_from_end last end at_end),
          )
    ]

    go :
        (n' : ℕ) × (next_chunk_size (env.quick start last) n ≡ ok n') × (0 < n')
        → ((n' : ℕ) → 0 < n' → last < end → IsChunked (last + 1) end (rest n'))
        → IsChunked start end (rescan_chunks (suc fuel) env s n)
    go (n', f, p) rec =
        let (l, b) = chunk_end_bounds start end n h k m in
        subst (IsChunked start end) (sym (rescan_chunks_step fuel env s n start end n' e f)) (
          round-Chunks start end last (status_after s last end) _ _ (rest n') l b refl
            (following n' (rec n' p)))

-- Whatever the answers are and wherever the loop stops, with a queued range from `start` to `end`
-- that is not empty, `end` below the largest 64-bit number and a chunk size of at least 1, no block
-- is skipped: the rescanned chunks follow one another from `start` on, each is not empty and ends
-- by `end`, and after each the status that is stored asks for just the blocks behind it. If the
-- result is a success, they go on to `end`.
pub rescan_chunks-Chunks :
    (fuel : ℕ) (env : Answers) (s : RescanStatus) (n start end : ℕ)
    → s.queued_rescan_range ≡ some (start, end)
    → start ≤ end
    → end < u64_max
    → 0 < n
    → let r = rescan_chunks fuel env s n in Chunks (Unfinished r) start end r.effects
rescan_chunks-Chunks fuel env s n start end e h k m =
    unfold IsChunked in rescan_chunks-IsChunked fuel env s n start end e h k m

-- There is a result, which is a success if all goes well.
abbrev pub Ends : Type 0 → Outcome → Type 0
Ends Fine r = (x : Result (Unit {0}) Error) × (r.result ≡ some x) × (Fine → x ≡ ok tt)

attempt-Ends :
    (Fine : Type 0) (r : Result (Unit {0}) Error) (effect : Effect) (k : Outcome)
    → (Fine → r ≡ ok tt)
    → Ends Fine k
    → Ends Fine (attempt r effect k)
attempt-Ends Fine (ok _) effect k f h = h
attempt-Ends Fine (err e) effect k f h = (err e, refl, f)

-- Bitcoin can rescan each range that is not empty, and the database can be written.
abbrev pub NothingFails : Answers → Type 0
NothingFails env =
    ((a b : ℕ) → a ≤ b → env.rescan_blockchain a b ≡ ok tt)
    × ((s : RescanStatus) → env.put s ≡ ok tt)

-- Fuel for one block a round and one round more is enough for the loop, whatever the answers are,
-- with a queued range from `start` to `end` that is not empty, `end` below the largest 64-bit
-- number and a chunk size of at least 1: there is a result. It is a success if Bitcoin rescans each
-- range that is not empty and the database can be written.
pub rescan_chunks-Ends :
    (fuel : ℕ) (env : Answers) (s : RescanStatus) (n start end : ℕ)
    → s.queued_rescan_range ≡ some (start, end)
    → start ≤ end
    → end < u64_max
    → 0 < n
    → end + 1 < fuel + start
    → Ends (NothingFails env) (rescan_chunks fuel env s n)
rescan_chunks-Ends zero env s n start end e h k m f = absurd (omega arith)
rescan_chunks-Ends (suc fuel) env s n start end e h k m f =
    go (next_chunk_size_pos (env.quick start (chunk_end start end n)) n m)
      (chunk_end_bounds start end n h k m)
      (λ n' p l b.
        rescan_chunks-Ends fuel env (status_after s (chunk_end start end n) end) n'
          (chunk_end start end n + 1) end (ground (arith, l)) (omega arith) k p (omega (arith, b)))
  where
    Fine : Type 0
    Fine = NothingFails env

    last : ℕ
    last = chunk_end start end n

    rest : (n' : ℕ) → Outcome
    rest n' = rescan_chunks fuel env (status_after s last end) n'

    idle : (fuel' n' : ℕ) → fuel ≡ suc fuel' → last ≡ end → Ends Fine (rest n')
    idle fuel' n' x y = (
      ok tt,
      subst (λ f. (rescan_chunks f env (status_after s last end) n').result ≡ some (ok tt)) (sym x)
          (ap (λ r. r.result)
            (rescan_chunks-none fuel' env (status_after s last end) n' (left_from_end last end y))),
      λ _. refl,
    )

    go :
        (n' : ℕ) × (next_chunk_size (env.quick start last) n ≡ ok n') × (0 < n')
        → (start ≤ last) × (last ≤ end)
        → ((n' : ℕ) → 0 < n' → last < end → start ≤ last → Ends Fine (rest n'))
        → Ends Fine (rescan_chunks (suc fuel) env s n)
    go (n', g, p) (b, c) rec =
        subst (Ends Fine) (sym (rescan_chunks_step fuel env s n start end n' e g)) (
          attempt-Ends Fine _ _ _ (λ f. ground (arith, f.0 start last b))
            (attempt-Ends Fine _ _ _ (λ f. f.1 (status_after s last end))
              (elim (dec_lt last end) [
                | yes l ↦ rec n' p l b
                | no l ↦ idle (fuel - 1) n' (omega arith) (omega arith)
              ])))
