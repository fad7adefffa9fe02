-- ===== src/Vault/IssueSet.antt =====
-- The issue requests whose payment is watched for, found by id and by address
-- (`ReversibleHashMap` and `IssueRequests`, vault/src/types.rs). A `HashMap` is a function. The
-- lock makes the operations follow one another.
pub mod Watched
mod Tests
use interbtc_clients.Prelude.{ℕ, Option, none, some, List, [], ◌∷◌, ◌==◌, if◌then◌else◌}
use interbtc_clients.Runtime.Requests.{H256, BtcAddress}

abbrev pub HashMap : Type 0
HashMap = ℕ → Option ℕ

-- `HashMap::insert`, `none` for `HashMap::remove`, without the old value.
abbrev pub update : HashMap → ℕ → Option ℕ → HashMap
update m k v j = if j == k then v else m j

pub record ReversibleHashMap : Type 0 where
  pub by_key : HashMap
  pub by_value : HashMap

unfoldable pub new : ReversibleHashMap
new = record { by_key = λ _. none; by_value = λ _. none }

-- The old key of the value and the old value of the key, and the map after it.
unfoldable pub insert :
    H256 → BtcAddress → ReversibleHashMap → (Option H256 × Option BtcAddress) × ReversibleHashMap
insert k v m = (
  (m.by_value v, m.by_key k),
  record { by_key = update m.by_key k (some v); by_value = update m.by_value v (some k) },
)

unfoldable pub remove_key : H256 → ReversibleHashMap → Option BtcAddress × ReversibleHashMap
remove_key k m = elim (m.by_key k) [
  | some v ↦
      (some v, record { by_key = update m.by_key k none; by_value = update m.by_value v none })
  | none ↦ (none, m)
]

unfoldable pub remove_value : BtcAddress → ReversibleHashMap → Option H256 × ReversibleHashMap
remove_value v m = elim (m.by_value v) [
  | some k ↦
      (some k, record { by_key = update m.by_key k none; by_value = update m.by_value v none })
  | none ↦ (none, m)
]

unfoldable pub get_key_for_value : BtcAddress → ReversibleHashMap → Option H256
get_key_for_value v m = m.by_value v

-- What the listeners and the executions do with the map while they hold the lock.
pub data SetStep : Type 0 where
  inserted : H256 → BtcAddress → SetStep
  key_removed : H256 → SetStep
  value_removed : BtcAddress → SetStep

unfoldable pub set_step : SetStep → ReversibleHashMap → ReversibleHashMap
unfolding insert remove_key remove_value
set_step (inserted k v) m = (insert k v m).1
set_step (key_removed k) m = (remove_key k m).1
set_step (value_removed v) m = (remove_value v m).1

unfoldable pub set_steps : List SetStep → ReversibleHashMap → ReversibleHashMap
unfolding set_step
set_steps [] m = m
set_steps (s ∷ ss) m = set_steps ss (set_step s m)
