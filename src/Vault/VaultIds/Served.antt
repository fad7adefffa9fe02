-- ===== src/Vault/VaultIds/Served.antt =====
-- Which vault ids are served after the start (vault/src/system.rs).
use interbtc_clients.Prelude.{
  ◌≡◌, refl, sym, ◌∙◌, Bool, true, false, List, [], ◌∷◌, Result, ok, err, arith, ap, ◌⊎◌, inl, inr,
}
use mathlib.Core.Path.{subst}
use interbtc_clients.Runtime.Errors.{
  RuntimeError, subxt_runtime_error, channel_closed, timeout, asset_not_found, vault_liquidated,
  vault_not_found,
}
use interbtc_clients.Vault.Errors.{Error}
use interbtc_clients.Vault.VaultIds.{
  VaultId, PublicKey, Env, VaultIdManager, and_then, derivation_key, import_key, migrate_key,
  copy_key, insert_data, add_vault_id, registered, is_vault_registered, is_liquidated, add_all,
  fetch_vault_ids,
}

migrate_key-vault_data :
    (env : Env) (v : VaultId) (key : PublicKey) (m : VaultIdManager)
    → (migrate_key env v key m).1.vault_data ≡ m.vault_data
unfolding migrate_key import_key
migrate_key-vault_data env v key m = ground arith

copy_key-vault_data :
    (env : Env) (v : VaultId) (key : PublicKey) (m : VaultIdManager)
    → (copy_key env v key m).1.vault_data ≡ m.vault_data
unfolding copy_key import_key
copy_key-vault_data env v key m = ground arith

insert_data-vault_data :
    (env : Env) (v : VaultId) (m : VaultIdManager)
    → (insert_data env v m).0 ≡ ok tt
    → (insert_data env v m).1.vault_data ≡ v ∷ m.vault_data
unfolding insert_data
insert_data-vault_data env v m e = ground (arith, e)

and_then-eq-ok :
    (r : Result (Unit {0}) Error × VaultIdManager)
    → (f : VaultIdManager → Result (Unit {0}) Error × VaultIdManager) → (and_then r f).0 ≡ ok tt
    → and_then r f ≡ f r.1
unfolding and_then
and_then-eq-ok (err e, m) f h = absurd cc
and_then-eq-ok (ok _, m) f h = refl

add_vault_id-vault_data :
    (env : Env) (v : VaultId) (m : VaultIdManager)
    → (add_vault_id env v m).0 ≡ ok tt
    → (add_vault_id env v m).1.vault_data ≡ v ∷ m.vault_data
unfolding add_vault_id and_then
add_vault_id-vault_data env v m = go (derivation_key env v)
  where
    Answer : Type 0
    Answer = Result (Unit {0}) Error × VaultIdManager

    moved : PublicKey → Answer
    moved key = and_then (migrate_key env v key m) (copy_key env v key)

    done : (key : PublicKey) → (moved key).1.vault_data ≡ m.vault_data
    done key = ground (
      arith,
      migrate_key-vault_data env v key m,
      copy_key-vault_data env v key (migrate_key env v key m).1,
    )

    go :
        (r : Result PublicKey Error)
        → (elim r as (λ _. Answer) [
          | err e ↦ (err e, m)
          | ok key ↦ and_then (moved key) (insert_data env v)
        ]).0
          ≡ ok tt
        → (elim r as (λ _. Answer) [
          | err e ↦ (err e, m)
          | ok key ↦ and_then (moved key) (insert_data env v)
        ]).1.vault_data
          ≡ v ∷ m.vault_data
    go (err e) h = absurd cc
    go (ok key) h =
        let s = and_then-eq-ok (moved key) (insert_data env v) h in
        ap (λ r. r.1.vault_data) s
        ∙ insert_data-vault_data env v (moved key).1 (sym (ap (λ r. r.0) s) ∙ h)
        ∙ ap (λ d. v ∷ d) (done key)

-- The ids with which `served` becomes `after` when they are fetched: those whose vault the
-- parachain answers or does not know are added, the last one first, and those whose vault it
-- reports as liquidated are left out. With any other answer there is no outcome.
pub data IsFetched (env : Env) : List VaultId → List VaultId → List VaultId → Type 0 where
  nothing_left : {served : List VaultId} → IsFetched env [] served served
  added :
      {vs served after : List VaultId}
      → (v : VaultId) → (env.get_vault v ≡ ok tt) ⊎ (env.get_vault v ≡ err vault_not_found)
      → IsFetched env vs (v ∷ served) after
      → IsFetched env (v ∷ vs) served after
  left_out :
      {vs served after : List VaultId}
      → (v : VaultId) → env.get_vault v ≡ err vault_liquidated
      → IsFetched env vs served after
      → IsFetched env (v ∷ vs) served after

abbrev IsFetching : Env → List VaultId → Type 0
IsFetching env vs =
    (m : VaultIdManager)
    → (add_all env vs m).0 ≡ ok tt
    → IsFetched env vs m.vault_data (add_all env vs m).1.vault_data

-- The case of an id whose vault is registered or not found.
added-IsFetched :
    (env : Env) (v : VaultId) (vs : List VaultId) (m : VaultIdManager)
    → (env.get_vault v ≡ ok tt) ⊎ (env.get_vault v ≡ err vault_not_found)
    → IsFetching env vs
    → (and_then (add_vault_id env v m) (add_all env vs)).0 ≡ ok tt
    → IsFetched env
        (v ∷ vs)
        m.vault_data
        (and_then (add_vault_id env v m) (add_all env vs)).1.vault_data
unfolding and_then
added-IsFetched env v vs m g rec = go (add_vault_id env v m) (add_vault_id-vault_data env v m)
  where
    go :
        (r : Result (Unit {0}) Error × VaultIdManager)
        → (r.0 ≡ ok tt → r.1.vault_data ≡ v ∷ m.vault_data)
        → (and_then r (add_all env vs)).0 ≡ ok tt
        → IsFetched env (v ∷ vs) m.vault_data (and_then r (add_all env vs)).1.vault_data
    go (err e, n) a h = absurd cc
    go (ok _, n) a h = added v g (
        subst (λ served. IsFetched env vs served (add_all env vs n).1.vault_data) (a refl)
          (rec n h))

add_all-IsFetched : (env : Env) (vs : List VaultId) → IsFetching env vs
unfolding add_all is_vault_registered registered is_liquidated
add_all-IsFetched env [] m h = nothing_left
add_all-IsFetched env (v ∷ vs) m h = go (env.get_vault v) refl (add_all-IsFetched env vs) h
  where
    Answer : Type 0
    Answer = Result (Unit {0}) Error × VaultIdManager

    answer : Result Bool Error → Answer
    answer r = elim r as (λ _. Answer) [
      | ok _ ↦ and_then (add_vault_id env v m) (add_all env vs)
      | err e ↦ elim (is_liquidated e) as (λ _. Answer) [
        | true ↦ add_all env vs m
        | false ↦ (err e, m)
      ]
    ]

    go :
        (r : Result (Unit {0}) RuntimeError)
        → env.get_vault v ≡ r
        → IsFetching env vs
        → (answer (registered r)).0 ≡ ok tt
        → IsFetched env (v ∷ vs) m.vault_data (answer (registered r)).1.vault_data
    go (ok _) g rec h' = added-IsFetched env v vs m (inl g) rec h'
    go (err vault_not_found) g rec h' = added-IsFetched env v vs m (inr g) rec h'
    go (err vault_liquidated) g rec h' = left_out v g (rec m h')
    go (err (subxt_runtime_error e)) g rec h' = absurd cc
    go (err channel_closed) g rec h' = absurd cc
    go (err timeout) g rec h' = absurd cc
    go (err asset_not_found) g rec h' = absurd cc
    go (err (RuntimeError.other k)) g rec h' = absurd cc

-- If the vault ids of the account are fetched with success, the parachain has answered for each of
-- them with its vault, or that it does not know it, or that it is liquidated; and those that are
-- not liquidated, and no others, are added to the ones that were served before, the last one first.
pub fetch_vault_ids-IsFetched :
    (env : Env) (vault_ids : List VaultId) (m : VaultIdManager)
    → env.get_vaults_by_account_id ≡ ok vault_ids
    → (fetch_vault_ids env m).0 ≡ ok tt
    → IsFetched env vault_ids m.vault_data (fetch_vault_ids env m).1.vault_data
unfolding fetch_vault_ids
fetch_vault_ids-IsFetched env vault_ids m e h =
    subst (λ n. IsFetched env vault_ids m.vault_data n.1.vault_data) (sym fetched)
      (add_all-IsFetched env vault_ids m (sym (ap (λ r. r.0) fetched) ∙ h))
  where
    fetched : fetch_vault_ids env m ≡ add_all env vault_ids m
    fetched = rw (e) refl
