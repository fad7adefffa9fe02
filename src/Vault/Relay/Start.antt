-- ===== src/Vault/Relay/Start.antt =====
-- The height from which the relayer goes on: the two passes of `compute_start_height`
-- (vault/src/relay/mod.rs).
use interbtc_clients.Prelude.{
  ℕ, zero, suc, ◌+◌, ◌≤◌, ◌<◌, ◌≡◌, ◌≢◌, refl, Bool, true, false, some, Result, ok, err, u32_max,
  arith, ◌∙◌,
}
use mathlib.Core.Path.{subst}
use native.Mathlib.Decide.{dec_lt}
use interbtc_clients.Vault.Relay.{
  Error, not_initialized, Hash, Backing, Issuing, backward_pass, is_stored_at, forward_pass,
  compute_start_height,
}

module _ (b : Backing) (i : Issuing) where
  -- Both chains have the same block at this height.
  abbrev pub Agrees : ℕ → Type 0
  Agrees h = (x : Hash) × (i.get_block_hash h ≡ ok x) × (b.get_block_hash h ≡ ok x)

  -- They have different blocks at this height.
  abbrev pub Differs : ℕ → Type 0
  Differs h =
      (x : Hash) × ((y : Hash) × (i.get_block_hash h ≡ ok x)
        × (b.get_block_hash h ≡ ok y)
        × (x ≢ y))

  backward_pass-Agrees : (h : ℕ) → Agrees h → backward_pass b i h ≡ ok h
  unfolding backward_pass
  backward_pass-Agrees zero (x, e, f) = ground (arith, e, f)
  backward_pass-Agrees (suc h) (x, e, f) = ground (arith, e, f)

  backward_pass-Differs :
      (h : ℕ) → Differs (suc h) → backward_pass b i (suc h) ≡ backward_pass b i h
  unfolding backward_pass
  backward_pass-Differs h (x, (y, e, f, d)) = ground (arith, e, f, d)

  -- The backwards pass stops at the highest height at which the chains agree.
  pub backward_pass_finds :
      (best k : ℕ)
      → k ≤ best
      → Agrees k
      → ((j : ℕ) → k < j → j ≤ best → Differs j)
      → backward_pass b i best ≡ ok k
  backward_pass_finds zero k h a d =
      subst (λ j. backward_pass b i j ≡ ok k) (omega arith) (backward_pass-Agrees k a)
  backward_pass_finds (suc best) k h a d = elim (dec_lt k (suc best)) [
    | yes p ↦
        backward_pass-Differs best (d (suc best) p (omega arith))
        ∙ backward_pass_finds best k (omega arith) a (λ j x y. d j x (omega arith))
    | no p ↦ subst (λ j. backward_pass b i j ≡ ok k) (omega arith) (backward_pass-Agrees k a)
  ]

  -- If there is none, the relay has not been initialized for this chain.
  pub backward_pass_fails :
      (best : ℕ) → ((j : ℕ) → j ≤ best → Differs j) → backward_pass b i best ≡ err not_initialized
  unfolding backward_pass
  backward_pass_fails zero d = let (x, (y, e, f, n)) = d 0 (omega arith) in ground (arith, e, f, n)
  backward_pass_fails (suc best) d =
      backward_pass-Differs best (d (suc best) (omega arith))
      ∙ backward_pass_fails best (λ j x. d j (omega arith))

  -- Bitcoin knows no block above its tip, and the relay answers each question.
  abbrev pub HasTip : ℕ → Type 0
  HasTip tip =
      ((j : ℕ) → tip < j → (e : Error) × (b.get_block_hash j ≡ err e))
      × ((x : Hash) → (stored : Bool) × (i.is_block_stored x ≡ ok stored))

  is_stored_at-HasTip :
      (tip j : ℕ) → HasTip tip → (stored : Bool) × (is_stored_at b i j ≡ ok stored)
  unfolding is_stored_at
  is_stored_at-HasTip tip j h = go (b.get_block_hash j)
    where
      go :
          (r : Result Hash Error)
          → (stored : Bool) × ((elim r [ ok hash ↦ i.is_block_stored hash | err _ ↦ ok false ])
              ≡ ok stored)
      go (ok x) = h.1 x
      go (err e) = (false, refl)

  below_tip : (tip h : ℕ) → HasTip tip → is_stored_at b i h ≡ ok true → h ≤ tip
  unfolding is_stored_at
  below_tip tip h k e = elim (dec_lt tip h) [
    | yes p ↦ absurd (ground (arith, k.0 h p))
    | no p ↦ omega arith
  ]

  -- From `h` on everything is stored up to `t`, where the next block is missing.
  abbrev pub NextMissing : ℕ → ℕ → Type 0
  NextMissing h t =
      (h ≤ t)
      × ((j : ℕ) → h ≤ j → j < t → is_stored_at b i j ≡ ok true)
      × (is_stored_at b i t ≡ ok false)

  forward_pass-NextMissing :
      (tip fuel h : ℕ)
      → HasTip tip
      → tip < u32_max
      → h ≤ tip + 1
      → tip + 2 ≤ fuel + h
      → (t : ℕ) × (forward_pass fuel b i h ≡ some (ok t)) × NextMissing h t × (t ≤ tip + 1)
  unfolding forward_pass
  forward_pass-NextMissing tip zero h k m n f = absurd (omega arith)
  forward_pass-NextMissing tip (suc fuel) h k m n f =
      go (is_stored_at-HasTip tip h k)
        (λ l. forward_pass-NextMissing tip fuel (h + 1) k m (omega arith) (omega arith))
    where
      ends : is_stored_at b i h ≡ ok false → forward_pass (suc fuel) b i h ≡ some (ok h)
      ends e = ground (arith, e)

      goes_on :
          is_stored_at b i h ≡ ok true
          → h ≤ tip
          → forward_pass (suc fuel) b i h ≡ forward_pass fuel b i (h + 1)
      goes_on e l = ground (arith, e)

      stored_below :
          (t : ℕ)
          → is_stored_at b i h ≡ ok true
          → NextMissing (h + 1) t
          → (j : ℕ) → h ≤ j
          → j < t
          → is_stored_at b i j ≡ ok true
      stored_below t e (p, q, r) j x y = elim (dec_lt h j) [
        | yes z ↦ q j (omega arith) y
        | no z ↦ subst (λ l. is_stored_at b i l ≡ ok true) (omega arith) e
      ]

      next :
          is_stored_at b i h ≡ ok true
          → h ≤ tip
          → (t : ℕ) × (forward_pass fuel b i (h + 1) ≡ some (ok t))
            × NextMissing (h + 1) t
            × (t ≤ tip + 1)
          → (t : ℕ) × (forward_pass (suc fuel) b i h ≡ some (ok t))
            × NextMissing h t
            × (t ≤ tip + 1)
      next e l (t, p, q, r) = (t, goes_on e l ∙ p, (omega (arith, q.0), stored_below t e q, q.2), r)

      go :
          (stored : Bool) × (is_stored_at b i h ≡ ok stored)
          → (h ≤ tip
              → (t : ℕ) × (forward_pass fuel b i (h + 1) ≡ some (ok t))
                × NextMissing (h + 1) t
                × (t ≤ tip + 1))
          → (t : ℕ) × (forward_pass (suc fuel) b i h ≡ some (ok t))
            × NextMissing h t
            × (t ≤ tip + 1)
      go (false, e) rec = (h, ends e, (omega arith, (λ j x y. absurd (omega arith)), e), n)
      go (true, e) rec = let l = below_tip tip h k e in next e l (rec l)

  -- The relayer goes on from the first block, above the highest one on which the two chains agree,
  -- that Bitcoin does not know or the relay has not stored: if `k` is that highest agreement up to
  -- the relay's best height, Bitcoin has a tip below the largest `u32`, no lower than one under
  -- `k`, and the relay answers whether it has stored a block, then the result is such a height `t`,
  -- and fuel for the heights up to the tip is enough.
  pub compute_start_height_lem :
      (fuel best k tip : ℕ)
      → i.get_best_height ≡ ok best
      → k ≤ best
      → Agrees k
      → ((j : ℕ) → k < j → j ≤ best → Differs j)
      → HasTip tip
      → tip < u32_max
      → k ≤ tip + 1
      → tip + 2 ≤ fuel + k
      → (t : ℕ) × (compute_start_height fuel b i ≡ some (ok t)) × NextMissing k t × (t ≤ tip + 1)
  unfolding compute_start_height
  compute_start_height_lem fuel best k tip e l a d h m n f =
      let (t, p, q, r) = forward_pass-NextMissing tip fuel k h m n f in
      (t, ground (arith, e, backward_pass_finds best k l a d, p), q, r)
