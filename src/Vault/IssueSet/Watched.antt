-- ===== src/Vault/IssueSet/Watched.antt =====
-- The map as a set of watched ids (vault/src/types.rs): each id has one address, and no two ids
-- have the same one.
use mathlib.Core.Path.{subst, fun_ext}
use interbtc_clients.Prelude.{
  ℕ, ◌≡◌, sym, refl, Bool, not, ◌&&◌, ◌||◌, Option, none, some, List, [], ◌∷◌, arith, ◌==◌,
  if◌then◌else◌,
}
use interbtc_clients.Runtime.Requests.{H256, BtcAddress}
use interbtc_clients.Vault.IssueSet.{
  ReversibleHashMap, SetStep, inserted, key_removed, value_removed, insert, remove_key,
  remove_value, set_step, set_steps, update,
}

abbrev pub WatchedSet : Type 0
WatchedSet = H256 → Bool

module _ (address : H256 → BtcAddress) where
  -- No two ids have the same address.
  abbrev pub IsInjective : Type 0
  IsInjective = (j k : H256) → address j ≡ address k → j ≡ k

  -- What a step does to the set of watched ids.
  abbrev pub watched_step : SetStep → WatchedSet → WatchedSet
  watched_step (inserted k v) s j = j == k || s j
  watched_step (key_removed k) s j = not (j == k) && s j
  watched_step (value_removed v) s j = not (address j == v) && s j

  abbrev pub watched_steps : List SetStep → WatchedSet → WatchedSet
  watched_steps [] s = s
  watched_steps (x ∷ xs) s = watched_steps xs (watched_step x s)

  -- An id is only ever inserted with its address.
  abbrev pub IsAddressed : SetStep → Type 0
  IsAddressed (inserted k v) = v ≡ address k
  IsAddressed (key_removed k) = Unit {0}
  IsAddressed (value_removed v) = Unit {0}

  abbrev pub AllAddressed : List SetStep → Type 0
  AllAddressed [] = Unit {0}
  AllAddressed (x ∷ xs) = IsAddressed x × AllAddressed xs

  -- The map holds just the watched ids, found by id and by address.
  pub record Represents (m : ReversibleHashMap) (s : WatchedSet) : Type 0 where
    pub at_key : (k : H256) → m.by_key k ≡ (if s k then some (address k) else none)
    pub at_address : (k : H256) → m.by_value (address k) ≡ (if s k then some k else none)
    pub by_address : (v : BtcAddress) (k : H256) → m.by_value v ≡ some k → v ≡ address k

  pub inserted-Represents :
      (m : ReversibleHashMap) (s : WatchedSet) (k : H256)
      → IsInjective
      → Represents m s
      → Represents (insert k (address k) m).1 (watched_step (inserted k (address k)) s)
  unfolding insert
  inserted-Represents m s k inj r = record {
    at_key = λ j. ground (arith, r.at_key j);
    at_address = λ j. ground (arith, r.at_address j, inj j k);
    by_address = λ v j e. ground (arith, r.by_address v j);
  }

  -- Taking out one watched id.
  unwatched-Represents :
      (m : ReversibleHashMap) (s : WatchedSet) (k : H256)
      → IsInjective
      → Represents m s
      → Represents
          (record {
            by_key = update m.by_key k none;
            by_value = update m.by_value (address k) none;
          })
          (watched_step (key_removed k) s)
  unwatched-Represents m s k inj r = record {
    at_key = λ j. ground (arith, r.at_key j);
    at_address = λ j. ground (arith, r.at_address j, inj j k);
    by_address = λ v j e. ground (arith, r.by_address v j);
  }

  -- Two sets with the same ids.
  Represents-of_same :
      (m : ReversibleHashMap) (s t : WatchedSet)
      → ((j : H256) → s j ≡ t j)
      → Represents m s
      → Represents m t
  Represents-of_same m s t h r = subst (Represents m) (fun_ext h) r

  pub key_removed-Represents :
      (m : ReversibleHashMap) (s : WatchedSet) (k : H256)
      → IsInjective
      → Represents m s
      → Represents (remove_key k m).1 (watched_step (key_removed k) s)
  unfolding remove_key
  key_removed-Represents m s k inj r = go (m.by_key k) refl
    where
      go :
          (o : Option ℕ)
          → m.by_key k ≡ o
          → Represents
              (elim o as (λ _. Option BtcAddress × ReversibleHashMap) [
                | some v ↦ (
                  some v,
                  record { by_key = update m.by_key k none; by_value = update m.by_value v none },
                )
                | none ↦ (none, m)
              ]).1
              (watched_step (key_removed k) s)
      go (some v) e =
          subst
            (λ a.
              Represents
                (record { by_key = update m.by_key k none; by_value = update m.by_value a none })
                (watched_step (key_removed k) s))
            (ground (arith, r.at_key k, e)) (unwatched-Represents m s k inj r)
      go none e =
          Represents-of_same m s (watched_step (key_removed k) s)
            (λ j. ground (arith, r.at_key k, e)) r

  pub value_removed-Represents :
      (m : ReversibleHashMap) (s : WatchedSet) (v : BtcAddress)
      → IsInjective
      → Represents m s
      → Represents (remove_value v m).1 (watched_step (value_removed v) s)
  unfolding remove_value
  value_removed-Represents m s v inj r = go (m.by_value v) refl
    where
      go :
          (o : Option ℕ)
          → m.by_value v ≡ o
          → Represents
              (elim o as (λ _. Option H256 × ReversibleHashMap) [
                | some k ↦ (
                  some k,
                  record { by_key = update m.by_key k none; by_value = update m.by_value v none },
                )
                | none ↦ (none, m)
              ]).1
              (watched_step (value_removed v) s)
      go (some k) e =
          let found : v ≡ address k = r.by_address v k e in
          subst
            (λ a.
              Represents
                (record { by_key = update m.by_key k none; by_value = update m.by_value a none })
                (watched_step (value_removed v) s))
            (sym found)
            (Represents-of_same _ (watched_step (key_removed k) s)
              (watched_step (value_removed v) s) (λ j. ground (arith, found, inj j k))
              (unwatched-Represents m s k inj r))
      go none e =
          Represents-of_same m s (watched_step (value_removed v) s)
            (λ j. ground (arith, r.at_address j, e)) r

  set_step-Represents :
      (x : SetStep) (m : ReversibleHashMap) (s : WatchedSet)
      → IsInjective
      → IsAddressed x
      → Represents m s
      → Represents (set_step x m) (watched_step x s)
  unfolding set_step
  set_step-Represents (inserted k v) m s inj a r =
      subst (λ w. Represents (insert k w m).1 (watched_step (inserted k w) s)) (sym a)
        (inserted-Represents m s k inj r)
  set_step-Represents (key_removed k) m s inj a r = key_removed-Represents m s k inj r
  set_step-Represents (value_removed v) m s inj a r = value_removed-Represents m s v inj r

  -- Where no two ids have the same address and each id is only inserted with its own, the two maps
  -- stay a faithful picture of a set of watched ids: after any sequence of insertions, removals by
  -- id and removals by address, they hold just the ids of the set after the same steps, which an
  -- insertion adds one to and a removal takes one out of, each found by its id and by its address.
  pub set_steps-Represents :
      (xs : List SetStep) (m : ReversibleHashMap) (s : WatchedSet)
      → IsInjective
      → AllAddressed xs
      → Represents m s
      → Represents (set_steps xs m) (watched_steps xs s)
  unfolding set_steps
  set_steps-Represents [] m s inj a r = r
  set_steps-Represents (x ∷ xs) m s inj (a, b) r =
      set_steps-Represents xs (set_step x m) (watched_step x s) inj b
        (set_step-Represents x m s inj a r)
