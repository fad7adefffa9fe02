-- ===== src/Bitcoin/Wallet/Sums.antt =====
-- Sums of amounts that do not exceed 64 bits (bitcoin/src/light/wallet.rs).
use interbtc_clients.Prelude.{
  ℕ, ◌+◌, ◌-◌, ◌%◌, ◌≤◌, ◌≡◌, ◌++◌, List, [], ◌∷◌, sum_of, u64_max, arith, Result, ok, err,
}
use interbtc_clients.Bitcoin.Wallet.Sizes.{wrapping_add, wrapping_sub}
use interbtc_clients.Bitcoin.Wallet.Coins.{Utxo, Error, CoinOutput, get_effective_value}

pub sum_of-append {ℓ} :
    {A : Type ℓ} (f : A → ℕ) (xs ys : List A) → sum_of f (xs ++ ys) ≡ sum_of f xs + sum_of f ys
sum_of-append f [] ys = omega arith
sum_of-append f (x ∷ xs) ys = omega (arith, sum_of-append f xs ys)

pub sum_of-snoc {ℓ} :
    {A : Type ℓ} (f : A → ℕ) (xs : List A) (x : A) → sum_of f (xs ++ x ∷ []) ≡ sum_of f xs + f x
sum_of-snoc f xs x = omega (arith, sum_of-append f xs (x ∷ []))

pub effective_le : (cs : List CoinOutput) → sum_of get_effective_value cs ≤ sum_of (λ c. c.value) cs
effective_le [] = omega arith
effective_le (c ∷ cs) = omega (arith, effective_le cs)

pub mod_lem : (a : ℕ) → a ≤ u64_max → a % (u64_max + 1) ≡ a
mod_lem a h = omega arith

pub wrapping_add_lem : (a b : ℕ) → a + b ≤ u64_max → wrapping_add a b ≡ a + b
wrapping_add_lem a b h = omega arith

pub wrapping_sub_lem : (a b : ℕ) → b ≤ a → a ≤ u64_max → wrapping_sub a b ≡ a - b
wrapping_sub_lem a b h k = omega arith

-- The value of all coins of a stream.
abbrev pub coin_value : Result Utxo Error → ℕ
coin_value (ok utxo) = utxo.value
coin_value (err _) = 0
