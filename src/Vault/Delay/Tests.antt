-- ===== src/Vault/Delay/Tests.antt =====
-- Four vaults, ordered by a hash that keeps their numbers (vault/src/delay.rs).
use interbtc_clients.Prelude.{ℕ, ◌≡◌, ◌<◌, ◌+◌, refl, inr, inl, [], ◌∷◌, List, ok, err, arith}
use interbtc_clients.Runtime.Errors.{timeout}
use interbtc_clients.Vault.Delay.{
  Chain, ilog2, ilog2_below, delay_for_blocks, new, hash_vault, random_ordering, delay_of,
  ordered_delay, zero_delay,
}
use interbtc_clients.Vault.Delay.Rank.{IsLog, delay_of_lem}

abbrev vaults : List ℕ
vaults = 7 ∷ 5 ∷ 9 ∷ 6 ∷ []

abbrev chain : Chain
chain = record { get_current_chain_height = ok 100; wait_for_block = λ _. ok tt }

logs : ilog2 7 ∷ ilog2 8 ∷ [] ≡ 2 ∷ 3 ∷ []
unfolding ilog2 ilog2_below
logs = refl

first :
    ordered_delay (λ h. h) (record chain { wait_for_block = λ _. err timeout }) vaults 5 0 ≡ ok tt
unfolding ordered_delay delay_of ilog2 random_ordering hash_vault delay_for_blocks
first = refl

last : delay_of (λ h. h) 0 vaults 9 ≡ 2
unfolding delay_of
last = refl

accounts : new (λ (v : ℕ). v) (ok vaults) ≡ ok vaults
unfolding new
accounts = refl

never : zero_delay 4 ≡ ok tt
unfolding zero_delay
never = refl

delay_of_lem_example :
    IsLog
      (delay_of (λ h. h) 0 vaults 6)
      (random_ordering (λ h. h) 0 vaults (hash_vault (λ h. h) 0 6) + 1)
    × IsLog
        (delay_of (λ h. h) 0 vaults 7)
        (random_ordering (λ h. h) 0 vaults (hash_vault (λ h. h) 0 7) + 1)
    × (random_ordering (λ h. h) 0 vaults (hash_vault (λ h. h) 0 6) + 1
        < random_ordering (λ h. h) 0 vaults (hash_vault (λ h. h) 0 7) + 1)
delay_of_lem_example =
    delay_of_lem (λ h. h) 0 vaults 6 7 (inr (inr (inr (inl refl))))
      (unfold hash_vault in omega arith)
