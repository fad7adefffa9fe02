-- ===== src/Vault/VaultIds/Tests.antt =====
-- Vault ids whose keys are in the master wallet, or in their own (vault/src/system.rs).
use interbtc_clients.Prelude.{
  ◌≡◌, ap, refl, Bool, true, false, some, List, [], ◌∷◌, ◌==◌, ◌+◌, if◌then◌else◌, ok, err,
}
use interbtc_clients.Runtime.Errors.{vault_liquidated, vault_not_found, timeout}
use interbtc_clients.Bitcoin.Errors as BitcoinErrors
use interbtc_clients.Vault.Errors.{bitcoin_error, runtime_error}
use interbtc_clients.Vault.VaultIds.{
  PrivateKey, Wallet, master, wallet_of, Env, VaultIdManager, and_then, derivation_key, import_key,
  migrate_key, copy_key, insert_data, add_vault_id, registered, is_vault_registered, is_liquidated,
  add_all, fetch_vault_ids, listen_for_vault_id_registrations,
}
use interbtc_clients.Vault.VaultIds.Keyed.{IsKeyed, vault_ids-IsKeyed}
use interbtc_clients.Vault.VaultIds.Served.{IsFetched, fetch_vault_ids-IsFetched}

-- Only the wallet of vault id 3 has the key at first.
abbrev held : List (Wallet × PrivateKey) → Wallet → Bool
held [] master = false
held [] (wallet_of v) = v == 3
held (_ ∷ _) w = true

abbrev env : Env
env = record {
  constructor = λ _. ok tt;
  create_or_load_wallet = λ _. ok tt;
  get_public_key = ok (some 7);
  from_slice = ok;
  dump_derivation_key =
      λ imports w key. if held imports w then ok (key + 100) else err (BitcoinErrors.other 0);
  import_derivation_key = λ _ _. ok tt;
  add_keys_from_past_issue_request = λ _. ok tt;
  get_vaults_by_account_id = ok (3 ∷ 4 ∷ 5 ∷ []);
  get_vault = λ v.
      if v == 4
      then err vault_liquidated
      else if v == 5
      then err vault_not_found
      else if v == 6
      then err timeout
      else ok tt;
}

abbrev fresh : VaultIdManager
fresh = record { imports = []; vault_data = [] }

abbrev keys : List (Wallet × PrivateKey)
keys = (wallet_of 5, 107) ∷ (master, 107) ∷ (wallet_of 3, 107) ∷ (master, 107) ∷ []

fetched : fetch_vault_ids env fresh ≡ (ok tt, record { imports = keys; vault_data = 5 ∷ 3 ∷ [] })
unfolding fetch_vault_ids add_all add_vault_id derivation_key migrate_key copy_key insert_data
    and_then import_key registered is_vault_registered is_liquidated
fetched = refl

unreachable : (add_all env (6 ∷ 3 ∷ []) fresh).0 ≡ err (runtime_error timeout)
unfolding add_all registered is_vault_registered is_liquidated
unreachable = refl

-- Without the key in either wallet.
missing : add_vault_id env 8 fresh ≡ (err (bitcoin_error (BitcoinErrors.other 0)), fresh)
unfolding add_vault_id derivation_key migrate_key copy_key insert_data and_then import_key
missing = refl

registrations :
    listen_for_vault_id_registrations env (λ v. v == 3) (8 ∷ 3 ∷ []) fresh
    ≡ record { imports = (wallet_of 3, 107) ∷ (master, 107) ∷ []; vault_data = 3 ∷ [] }
unfolding listen_for_vault_id_registrations add_vault_id derivation_key migrate_key copy_key
    insert_data and_then import_key
registrations = refl

vault_ids-IsKeyed_example :
    IsKeyed
      (listen_for_vault_id_registrations env (λ v. v == 9) (9 ∷ []) (fetch_vault_ids env fresh).1)
vault_ids-IsKeyed_example = vault_ids-IsKeyed env env (λ v. v == 9) (9 ∷ []) fresh (λ v i. absurd i)

fetch_vault_ids-IsFetched_example :
    IsFetched env (3 ∷ 4 ∷ 5 ∷ []) [] (fetch_vault_ids env fresh).1.vault_data
fetch_vault_ids-IsFetched_example =
    fetch_vault_ids-IsFetched env (3 ∷ 4 ∷ 5 ∷ []) fresh refl (ap (λ r. r.0) fetched)
