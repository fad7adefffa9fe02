-- ===== src/Vault/Payment/Effects.antt =====
-- A computation of the vault that may still be waiting, with what it has done so far
-- (vault/src/execution.rs).
use interbtc_clients.Prelude.{ℕ, Option, List, [], ◌++◌, Result, ok, err}
use interbtc_clients.Runtime.Requests.{H256}
use interbtc_clients.Vault.Errors.{Error}
use interbtc_clients.Vault.Requests.{RequestType}

abbrev pub Txid : Type 0
Txid = ℕ

-- An address of Bitcoin, which a request's address is converted to for a network.
abbrev pub Address : Type 0
Address = ℕ

-- `bitcoin::TransactionMetadata`; the proof is opaque, the fee is in satoshi.
pub record TransactionMetadata : Type 0 where
  pub txid : Txid
  pub proof : ℕ
  pub block_hash : ℕ
  pub fee : Option ℕ

pub data Effect : Type 0 where
  -- a new transaction: address, satoshis, fee rate, id of the request
  sent : Address → ℕ → ℕ → H256 → Effect
  -- a replacement: old and new transaction, address, old and new fee rate
  bumped : Txid → Txid → Address → ℕ → ℕ → Effect
  -- calls of `execute_redeem` or `execute_replace`: id, proof, how many
  executions : RequestType → H256 → ℕ → ℕ → Effect

pub data Progress (A : Type 0) : Type 0 where
  finished : Result A Error → Progress A
  pending : Progress A

pub record Run (A : Type 0) : Type 0 where
  pub progress : Progress A
  pub effects : List Effect

abbrev pub emit : {A : Type 0} → List Effect → Run A → Run A
emit effects r = record { progress = r.progress; effects = effects ++ r.effects }

abbrev pub lift : {A : Type 0} → Result A Error → Run A
lift r = record { progress = finished r; effects = [] }

abbrev and_then : {A B : Type 0} → Progress A → List Effect → (A → Run B) → Run B
and_then (finished (ok a)) effects f = emit effects (f a)
and_then (finished (err e)) effects f = record { progress = finished (err e); effects = effects }
and_then pending effects f = record { progress = pending; effects = effects }

infixl 5 ◌>>=◌
abbrev pub ◌>>=◌ : {A B : Type 0} → Run A → (A → Run B) → Run B
m >>= f = and_then m.progress m.effects f
