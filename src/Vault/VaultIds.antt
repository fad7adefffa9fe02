-- ===== src/Vault/VaultIds.antt =====
-- The vault ids that the vault serves (`VaultIdManager`, vault/src/system.rs). `Env` has the
-- answers of the parachain and of the wallets; what a wallet answers depends on the keys that have
-- been imported so far. `add_keys_from_past_issue_request` is modelled in Vault/Rescan and its
-- result is an answer here; metrics are left out.
pub mod Keyed
pub mod Served
mod Tests
use interbtc_clients.Prelude.{
  ℕ, Bool, true, false, Option, none, some, List, [], ◌∷◌, if◌then◌else◌, Result, ok, err, ok_or,
  map_err, ◌>>=◌,
}
use interbtc_clients.Runtime.Errors.{RuntimeError, vault_liquidated, vault_not_found}
use interbtc_clients.Bitcoin.Errors as BitcoinErrors
use interbtc_clients.Vault.Errors.{
  Error, bitcoin_error, runtime_error, wallet_initialization_failure,
}

abbrev pub VaultId : Type 0
VaultId = ℕ

abbrev pub PublicKey : Type 0
PublicKey = ℕ

abbrev pub PrivateKey : Type 0
PrivateKey = ℕ

pub data Wallet : Type 0 where
  master : Wallet
  wallet_of : VaultId → Wallet

pub record Env : Type 0 where
  pub constructor : VaultId → Result (Unit {0}) BitcoinErrors.Error
  pub create_or_load_wallet : VaultId → Result (Unit {0}) BitcoinErrors.Error
  pub get_public_key : Result (Option PublicKey) RuntimeError
  pub from_slice : PublicKey → Result PublicKey BitcoinErrors.Error
  pub dump_derivation_key :
      List (Wallet × PrivateKey) → Wallet → PublicKey → Result PrivateKey BitcoinErrors.Error
  pub import_derivation_key : Wallet → PrivateKey → Result (Unit {0}) BitcoinErrors.Error
  pub add_keys_from_past_issue_request : VaultId → Result (Unit {0}) Error
  pub get_vaults_by_account_id : Result (List VaultId) RuntimeError
  pub get_vault : VaultId → Result (Unit {0}) RuntimeError

-- The keys that were imported and the vault ids with their data, the last one first; an id that is
-- inserted again stands there again, where the map has it once.
pub record VaultIdManager : Type 0 where
  pub imports : List (Wallet × PrivateKey)
  pub vault_data : List VaultId

-- A step goes on only if the one before it has succeeded.
unfoldable pub and_then :
    Result (Unit {0}) Error × VaultIdManager
    → (VaultIdManager → Result (Unit {0}) Error × VaultIdManager)
    → Result (Unit {0}) Error × VaultIdManager
and_then (err e, m) f = (err e, m)
and_then (ok _, m) f = f m

-- The wallet is made, and the public key of the vault's account asked for.
unfoldable pub derivation_key : Env → VaultId → Result PublicKey Error
derivation_key env vault_id = do
  _ ← map_err bitcoin_error (env.constructor vault_id)
  _ ← map_err wallet_initialization_failure (env.create_or_load_wallet vault_id)
  answer ← map_err runtime_error env.get_public_key
  key ← ok_or answer (bitcoin_error BitcoinErrors.missing_public_key)
  map_err bitcoin_error (env.from_slice key)

unfoldable pub import_key :
    Env → Wallet → PrivateKey → VaultIdManager → Result (Unit {0}) Error × VaultIdManager
import_key env wallet key m = elim (env.import_derivation_key wallet key) [
  | err e ↦ (err (bitcoin_error e), m)
  | ok _ ↦ (ok tt, record m { imports = (wallet, key) ∷ m.imports })
]

-- A key that only the vault id's own wallet has is copied to the master wallet.
unfoldable pub migrate_key :
    Env → VaultId → PublicKey → VaultIdManager → Result (Unit {0}) Error × VaultIdManager
unfolding import_key
migrate_key env vault_id key m = elim (env.dump_derivation_key m.imports (wallet_of vault_id) key) [
  | err _ ↦ (ok tt, m)
  | ok private_key ↦ import_key env master private_key m
]

unfoldable pub copy_key :
    Env → VaultId → PublicKey → VaultIdManager → Result (Unit {0}) Error × VaultIdManager
unfolding import_key
copy_key env vault_id key m = elim (env.dump_derivation_key m.imports master key) [
  | err e ↦ (err (bitcoin_error e), m)
  | ok private_key ↦ import_key env (wallet_of vault_id) private_key m
]

unfoldable pub insert_data :
    Env → VaultId → VaultIdManager → Result (Unit {0}) Error × VaultIdManager
insert_data env vault_id m = elim (env.add_keys_from_past_issue_request vault_id) [
  | err e ↦ (err e, m)
  | ok _ ↦ (ok tt, record m { vault_data = vault_id ∷ m.vault_data })
]

unfoldable pub add_vault_id :
    Env → VaultId → VaultIdManager → Result (Unit {0}) Error × VaultIdManager
unfolding derivation_key migrate_key copy_key insert_data and_then
add_vault_id env vault_id m = elim (derivation_key env vault_id) [
  | err e ↦ (err e, m)
  | ok key ↦
      and_then (and_then (migrate_key env vault_id key m) (copy_key env vault_id key))
        (insert_data env vault_id)
]

unfoldable pub registered : Result (Unit {0}) RuntimeError → Result Bool Error
registered (ok _) = ok true
registered (err vault_not_found) = ok false
registered (err e) = err (runtime_error e)

unfoldable pub is_vault_registered : Env → VaultId → Result Bool Error
unfolding registered
is_vault_registered env vault_id = registered (env.get_vault vault_id)

-- The error with which a liquidated vault answers.
unfoldable pub is_liquidated : Error → Bool
is_liquidated (runtime_error vault_liquidated) = true
is_liquidated _ = false

unfoldable pub add_all :
    Env → List VaultId → VaultIdManager → Result (Unit {0}) Error × VaultIdManager
unfolding add_vault_id is_vault_registered is_liquidated and_then
add_all env [] m = (ok tt, m)
add_all env (vault_id ∷ rest) m = elim (is_vault_registered env vault_id) [
  | ok _ ↦ and_then (add_vault_id env vault_id m) (add_all env rest)
  | err e ↦ elim (is_liquidated e) [ true ↦ add_all env rest m | false ↦ (err e, m) ]
]

unfoldable pub fetch_vault_ids : Env → VaultIdManager → Result (Unit {0}) Error × VaultIdManager
unfolding add_all
fetch_vault_ids env m = elim env.get_vaults_by_account_id [
  | err e ↦ (err (runtime_error e), m)
  | ok vault_ids ↦ add_all env vault_ids m
]

-- The events of registrations, in their order; an error of adding one is dropped.
unfoldable pub listen_for_vault_id_registrations :
    Env → (VaultId → Bool) → List VaultId → VaultIdManager → VaultIdManager
unfolding add_vault_id
listen_for_vault_id_registrations env is_this_vault [] m = m
listen_for_vault_id_registrations env is_this_vault (vault_id ∷ events) m =
    listen_for_vault_id_registrations env is_this_vault events
      (if is_this_vault vault_id then (add_vault_id env vault_id m).1 else m)
