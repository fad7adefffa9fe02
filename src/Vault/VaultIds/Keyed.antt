-- ===== src/Vault/VaultIds/Keyed.antt =====
-- The vault ids that are served, and their keys (vault/src/system.rs).
use interbtc_clients.Prelude.{
  ◌≡◌, refl, Bool, true, false, List, [], ◌∷◌, if◌then◌else◌, Result, ok, err, inl, inr, IsAmong,
}
use mathlib.Core.Path.{subst}
use interbtc_clients.Bitcoin.Errors as BitcoinErrors
use interbtc_clients.Runtime.Errors.{RuntimeError}
use interbtc_clients.Vault.Errors.{Error, bitcoin_error, runtime_error}
use interbtc_clients.Vault.VaultIds.{
  VaultId, PublicKey, PrivateKey, Wallet, master, wallet_of, Env, VaultIdManager, and_then,
  derivation_key, import_key, migrate_key, copy_key, insert_data, add_vault_id, is_vault_registered,
  is_liquidated, add_all, fetch_vault_ids, listen_for_vault_id_registrations,
}

-- Whoever is served has a key in its own wallet.
abbrev pub IsKeyed : VaultIdManager → Type 0
IsKeyed m =
    (v : VaultId)
    → IsAmong v m.vault_data
    → (key : PrivateKey) × IsAmong (wallet_of v, key) m.imports

abbrev HasKey : VaultId → VaultIdManager → Type 0
HasKey v m = (key : PrivateKey) × IsAmong (wallet_of v, key) m.imports

abbrev Answer : Type 0
Answer = Result (Unit {0}) Error × VaultIdManager

-- Those served have their keys, and if the step succeeds, `Q` holds after it.
abbrev IsStep : (VaultIdManager → Type 0) → Answer → Type 0
IsStep Q r = IsKeyed r.1 × (r.0 ≡ ok tt → Q r.1)

and_then-IsStep :
    (Q R : VaultIdManager → Type 0) (r : Answer) (f : VaultIdManager → Answer)
    → IsStep Q r
    → ((m : VaultIdManager) → IsKeyed m → Q m → IsStep R (f m))
    → IsStep R (and_then r f)
unfolding and_then
and_then-IsStep Q R (err e, m) f p k = (p.0, λ e. absurd cc)
and_then-IsStep Q R (ok _, m) f p k = k m p.0 (p.1 refl)

import_key-IsStep :
    (env : Env) (w : Wallet) (key : PrivateKey) (m : VaultIdManager)
    → IsKeyed m
    → IsStep (λ m'. IsAmong (w, key) m'.imports) (import_key env w key m)
unfolding import_key
import_key-IsStep env w key m h =
    elim (env.import_derivation_key w key)
      as (λ r.
        IsStep (λ m'. IsAmong (w, key) m'.imports)
          (elim r [
            | err e ↦ (err (bitcoin_error e), m)
            | ok _ ↦ (ok tt, record m { imports = (w, key) ∷ m.imports })
          ])) [
            | err e ↦ (h, λ e. absurd cc)
            | ok _ ↦ (λ v i. let (k, j) = h v i in (k, inr j), λ _. inl refl)
          ]

migrate_key-IsStep :
    (env : Env) (v : VaultId) (key : PublicKey) (m : VaultIdManager)
    → IsKeyed m
    → IsStep (λ _. Unit {0}) (migrate_key env v key m)
unfolding migrate_key
migrate_key-IsStep env v key m h = go (env.dump_derivation_key m.imports (wallet_of v) key)
  where
    go :
        (r : Result PrivateKey BitcoinErrors.Error)
        → IsStep
            (λ _. Unit {0})
            (elim r [ err _ ↦ (ok _, m) | ok private_key ↦ import_key env master private_key m ])
    go (err _) = (h, λ _. tt)
    go (ok k) = ((import_key-IsStep env master k m h).0, λ _. tt)

copy_key-IsStep :
    (env : Env) (v : VaultId) (key : PublicKey) (m : VaultIdManager)
    → IsKeyed m
    → IsStep (HasKey v) (copy_key env v key m)
unfolding copy_key
copy_key-IsStep env v key m h = go (env.dump_derivation_key m.imports master key)
  where
    go :
        (r : Result PrivateKey BitcoinErrors.Error)
        → IsStep (HasKey v) (elim r [
          | err e ↦ (err (bitcoin_error e), m)
          | ok private_key ↦ import_key env (wallet_of v) private_key m
        ])
    go (err _) = (h, λ e. absurd cc)
    go (ok k) = let s = import_key-IsStep env (wallet_of v) k m h in (s.0, λ e. (k, s.1 e))

insert_data-IsKeyed :
    (env : Env) (v : VaultId) (m : VaultIdManager)
    → IsKeyed m
    → HasKey v m
    → IsKeyed (insert_data env v m).1
unfolding insert_data
insert_data-IsKeyed env v m h k = go (env.add_keys_from_past_issue_request v)
  where
    served : IsKeyed (record m { vault_data = v ∷ m.vault_data })
    served w (inl e) = subst (λ x. HasKey x m) e k
    served w (inr i) = h w i

    go :
        (r : Result (Unit {0}) Error)
        → IsKeyed
            (elim r as (λ _. Answer) [
              | err e ↦ (err e, m)
              | ok _ ↦ (ok tt, record m { vault_data = v ∷ m.vault_data })
            ]).1
    go (err _) = h
    go (ok _) = served

add_vault_id-IsKeyed :
    (env : Env) (v : VaultId) (m : VaultIdManager) → IsKeyed m → IsKeyed (add_vault_id env v m).1
unfolding add_vault_id
add_vault_id-IsKeyed env v m h = go (derivation_key env v)
  where
    go :
        (r : Result PublicKey Error)
        → IsKeyed
            (elim r as (λ _. Answer) [
              | err e ↦ (err e, m)
              | ok key ↦
                  and_then
                    (and_then (migrate_key env v key m) (copy_key env v key))
                    (insert_data env v)
            ]).1
    go (err _) = h
    go (ok key) =
        (and_then-IsStep (HasKey v) (λ _. Unit {0}) _ (insert_data env v)
          (and_then-IsStep (λ _. Unit {0}) (HasKey v) _ (copy_key env v key)
            (migrate_key-IsStep env v key m h) (λ m' i _. copy_key-IsStep env v key m' i))
          (λ m' i k. (insert_data-IsKeyed env v m' i k, λ _. tt))).0

add_all-IsKeyed :
    (env : Env) (vs : List VaultId) (m : VaultIdManager) → IsKeyed m → IsKeyed (add_all env vs m).1
unfolding add_all
add_all-IsKeyed env [] m h = h
add_all-IsKeyed env (v ∷ vs) m h = go (is_vault_registered env v) (add_all-IsKeyed env vs)
  where
    next :
        ((n : VaultIdManager) → IsKeyed n → IsKeyed (add_all env vs n).1)
        → IsStep (λ _. Unit {0}) (and_then (add_vault_id env v m) (add_all env vs))
    next rec =
        and_then-IsStep (λ _. Unit {0}) (λ _. Unit {0}) (add_vault_id env v m) (add_all env vs)
          (add_vault_id-IsKeyed env v m h, λ _. tt) (λ n i _. (rec n i, λ _. tt))

    skip :
        (b : Bool) (e : Error)
        → IsKeyed (add_all env vs m).1
        → IsKeyed (elim b as (λ _. Answer) [ true ↦ add_all env vs m | false ↦ (err e, m) ]).1
    skip true e i = i
    skip false e i = h

    go :
        (r : Result Bool Error)
        → ((n : VaultIdManager) → IsKeyed n → IsKeyed (add_all env vs n).1)
        → IsKeyed
            (elim r as (λ _. Answer) [
              | ok _ ↦ and_then (add_vault_id env v m) (add_all env vs)
              | err e ↦ elim (is_liquidated e) as (λ _. Answer) [
                | true ↦ add_all env vs m
                | false ↦ (err e, m)
              ]
            ]).1
    go (ok _) rec = (next rec).0
    go (err e) rec = skip (is_liquidated e) e (rec m h)

fetch_vault_ids-IsKeyed :
    (env : Env) (m : VaultIdManager) → IsKeyed m → IsKeyed (fetch_vault_ids env m).1
unfolding fetch_vault_ids
fetch_vault_ids-IsKeyed env m h = go env.get_vaults_by_account_id
  where
    go :
        (r : Result (List VaultId) RuntimeError)
        → IsKeyed
            (elim r as (λ _. Answer) [
              | err e ↦ (err (runtime_error e), m)
              | ok vault_ids ↦ add_all env vault_ids m
            ]).1
    go (err _) = h
    go (ok vs) = add_all-IsKeyed env vs m h

listen-IsKeyed :
    (env : Env) (is_this_vault : VaultId → Bool) (events : List VaultId) (m : VaultIdManager)
    → IsKeyed m
    → IsKeyed (listen_for_vault_id_registrations env is_this_vault events m)
unfolding listen_for_vault_id_registrations
listen-IsKeyed env this [] m h = h
listen-IsKeyed env this (v ∷ events) m h =
    listen-IsKeyed env this events _ (if_IsKeyed (this v) (add_vault_id-IsKeyed env v m h))
  where
    if_IsKeyed :
        (b : Bool)
        → IsKeyed (add_vault_id env v m).1
        → IsKeyed (if b then (add_vault_id env v m).1 else m)
    if_IsKeyed true i = i
    if_IsKeyed false i = h

-- If each vault id that is served has a key that was imported into its own wallet, this still holds
-- after the vault ids of the account have been fetched, whether or not that succeeds, and after any
-- registrations that are reported then.
pub vault_ids-IsKeyed :
    (start later : Env) (is_this_vault : VaultId → Bool) (events : List VaultId)
    → (m : VaultIdManager) → IsKeyed m
    → IsKeyed
        (listen_for_vault_id_registrations later is_this_vault events (fetch_vault_ids start m).1)
vault_ids-IsKeyed start later this events m h =
    listen-IsKeyed later this events (fetch_vault_ids start m).1 (fetch_vault_ids-IsKeyed start m h)
