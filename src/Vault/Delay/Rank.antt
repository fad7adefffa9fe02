-- ===== src/Vault/Delay/Rank.antt =====
-- The delays of different vaults (vault/src/delay.rs).
use interbtc_clients.Prelude.{
  ℕ, zero, suc, ◌+◌, ◌/◌, ◌^◌, ◌≤◌, ◌<◌, List, [], ◌∷◌, length, filter_by, ltb, inl, inr, arith,
  Bool-cases, IsAmong,
}
use native.Mathlib.Nat.{pow-succ'}
use interbtc_clients.Runtime.Requests.{AccountId}
use interbtc_clients.Vault.Delay.{ilog2, ilog2_below, hash_vault, random_ordering, delay_of}

abbrev pub IsLog : ℕ → ℕ → Type 0
IsLog l n = (2 ^ l ≤ n) × (n < 2 ^ suc l)

ilog2_below-IsLog : (fuel n : ℕ) → n ≤ fuel → 0 < n → IsLog (ilog2_below fuel n) n
unfolding ilog2_below
ilog2_below-IsLog zero n h p = absurd (omega arith)
ilog2_below-IsLog (suc fuel) n h p = elim (Bool-cases (ltb n 2)) [
  | inl e ↦ rw e (ground (arith, e))
  | inr e ↦ rw e (
      step (ilog2_below fuel (n / 2))
        (ilog2_below-IsLog fuel (n / 2) (ground (arith, e)) (ground (arith, e))))
]
  where
    step : (l : ℕ) → IsLog l (n / 2) → IsLog (suc l) n
    step l (a, b) =
        (omega (arith, pow-succ' 2 l), omega (arith, pow-succ' 2 l, pow-succ' 2 (suc l)))

ilog2-IsLog : (n : ℕ) → 0 < n → IsLog (ilog2 n) n
unfolding ilog2
ilog2-IsLog n h = ilog2_below-IsLog n n (omega arith) h

module _ (hash : AccountId → ℕ) where
  count_below : List AccountId → ℕ → ℕ
  count_below vaults h = length (filter_by (λ a. ltb (hash a) h) vaults)

  count_below_mono :
      (vaults : List AccountId) (h k : ℕ) → h ≤ k → count_below vaults h ≤ count_below vaults k
  unfolding count_below
  count_below_mono [] h k l = omega arith
  count_below_mono (x ∷ xs) h k l = ground (arith, count_below_mono xs h k l)

  count_below_strict :
      (vaults : List AccountId) (a : AccountId) (k : ℕ)
      → IsAmong a vaults
      → hash a < k
      → count_below vaults (hash a) < count_below vaults k
  unfolding count_below
  count_below_strict [] a k m l = absurd m
  count_below_strict (x ∷ xs) a k (inl e) l =
      ground (arith, e, count_below_mono xs (hash a) k (omega arith))
  count_below_strict (x ∷ xs) a k (inr m) l = ground (arith, count_below_strict xs a k m l)

-- The vaults are ordered by their hashes, and wait longer and longer: the delay of a vault is the
-- largest number `d` of blocks with 2 to the `d` at most its place, counted from 1; and a vault of
-- the list that comes before another by its hash has an earlier place. So the first waits for no
-- block, the next two for one, the next four for two, and no two vaults with different hashes have
-- the same place.
pub delay_of_lem :
    (sha256 : ℕ → ℕ) (seed : ℕ) (vaults : List AccountId) (own other : AccountId)
    → IsAmong own vaults
    → hash_vault sha256 seed own < hash_vault sha256 seed other
    → let place : AccountId → ℕ =
        λ v. random_ordering sha256 seed vaults (hash_vault sha256 seed v) + 1 in
      IsLog (delay_of sha256 seed vaults own) (place own)
      × IsLog (delay_of sha256 seed vaults other) (place other)
      × (place own < place other)
unfolding delay_of random_ordering
delay_of_lem sha256 seed vaults own other m l = (
  ilog2-IsLog _ (omega arith),
  ilog2-IsLog _ (omega arith),
  unfold count_below in
      omega (
        arith,
        count_below_strict (hash_vault sha256 seed) vaults own (hash_vault sha256 seed other) m l,
      ),
)
