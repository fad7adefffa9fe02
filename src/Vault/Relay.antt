-- ===== src/Vault/Relay.antt =====
-- The relayer, which keeps the parachain's light client up to date with Bitcoin's headers
-- (vault/src/relay/mod.rs). Both sides are other systems: `Backing` (Bitcoin) and `Issuing` (the
-- parachain) hold their answers. A header and a hash are opaque numbers, a height is a `u32`.
pub mod Start
pub mod Headers
pub mod Batch
mod Tests
use interbtc_clients.Prelude.{
  ℕ, zero, suc, ◌+◌, ◌-◌, Bool, true, false, not, Option, none, some, List, [], ◌∷◌, leb, ltb, ◌==◌,
  if◌then◌else◌, Result, ok, err, ◌>>=◌, ok_or, saturating_add, u32_max,
}
use interbtc_clients.Runtime.Errors.{RuntimeError, is_duplicate_block, is_rpc_disconnect_error}
use interbtc_clients.Bitcoin.Errors as BitcoinErrors
use interbtc_clients.Bitcoin.Errors.{is_transport_error}
use interbtc_clients.Vault.Errors as VaultErrors

-- `unwrapped_none` is the panic of `unwrap` at the initialization.
pub data Error : Type 0 where
  not_initialized block_header_not_found unwrapped_none : Error
  bitcoin_error : BitcoinErrors.Error → Error
  runtime_error : RuntimeError → Error

abbrev pub Header : Type 0
Header = ℕ

abbrev pub Hash : Type 0
Hash = ℕ

-- The trait `Backing`, with what repeated calls of `get_block_header` answer.
pub record Backing : Type 0 where
  pub get_block_count : Result ℕ Error
  pub get_block_header : ℕ → Result (Option Header) Error
  pub get_block_hash : ℕ → Result Hash Error
  pub header_polls : ℕ → List (Result (Option Header) Error)

-- The trait `Issuing`.
pub record Issuing : Type 0 where
  pub is_initialized : Result Bool Error
  pub initialize : Header → ℕ → Result (Unit {0}) Error
  pub submit_block_header : Header → Result (Unit {0}) Error
  pub submit_block_header_batch : List Header → Result (Unit {0}) Error
  pub get_best_height : Result ℕ Error
  pub get_block_hash : ℕ → Result Hash Error
  pub is_block_stored : Hash → Result Bool Error

-- `collect_headers`, for `batch` heights from `height` on.
pub collect_headers : ℕ → ℕ → Backing → Result (List Header) Error
collect_headers height zero cli = ok []
collect_headers height (suc batch) cli =
    let rest = collect_headers (height + 1) batch cli in
    cli.get_block_header height >>= λ found.
    ok_or found block_header_not_found >>= λ header. rest >>= λ headers. ok (header ∷ headers)

-- The backwards pass: down to the first height at which both chains have the same block.
pub backward_pass : Backing → Issuing → ℕ → Result ℕ Error
backward_pass b i zero = i.get_block_hash 0 >>= λ relay_hash.
    b.get_block_hash 0 >>= λ btc_hash. if relay_hash == btc_hash then ok 0 else err not_initialized
backward_pass b i (suc h) =
    let lower = backward_pass b i h in
    i.get_block_hash (suc h) >>= λ relay_hash.
    b.get_block_hash (suc h) >>= λ btc_hash. if relay_hash == btc_hash then ok (suc h) else lower

-- Is Bitcoin's block at this height known, and stored by the relay?
pub is_stored_at : Backing → Issuing → ℕ → Result Bool Error
is_stored_at b i h = elim (b.get_block_hash h) [
  | ok hash ↦ i.is_block_stored hash
  | err _ ↦ ok false
]

-- The forward pass, up to the first height whose block is not known or not stored; `none` means
-- that the fuel ran out.
pub forward_pass : ℕ → Backing → Issuing → ℕ → Option (Result ℕ Error)
unfolding is_stored_at
forward_pass zero b i h = none
forward_pass (suc fuel) b i h =
    let further = forward_pass fuel b i (saturating_add u32_max h 1) in
    elim (is_stored_at b i h) [
      | err e ↦ some (err e)
      | ok stored ↦ if stored then further else some (ok h)
    ]

pub compute_start_height : ℕ → Backing → Issuing → Option (Result ℕ Error)
unfolding forward_pass
compute_start_height fuel b i = elim (i.get_best_height >>= backward_pass b i) [
  | err e ↦ some (err e)
  | ok start_height ↦ forward_pass fuel b i start_height
]

pub record Runner : Type 0 where
  pub start_height : Option ℕ
  pub max_batch_size : ℕ
  pub btc_confirmations : ℕ

pub get_num_confirmed_blocks : Runner → Backing → Result ℕ Error
get_num_confirmed_blocks r b = b.get_block_count >>= λ count. ok (count - r.btc_confirmations)

-- The method `get_block_header`: poll until there is a header; `none` means still waiting.
pub wait_for_header : List (Result (Option Header) Error) → Option (Result Header Error)
wait_for_header [] = none
wait_for_header (err e ∷ polls) = some (err e)
wait_for_header (ok (some header) ∷ polls) = some (ok header)
wait_for_header (ok none ∷ polls) = wait_for_header polls

pub initialize_if_needed : Runner → Backing → Issuing → Result (Unit {0}) Error
initialize_if_needed r b i = do
  initialized ← i.is_initialized
  if initialized
      then ok tt
      else (get_num_confirmed_blocks r b >>= λ confirmed.
          let start_height : ℕ = elim r.start_height [ some h ↦ h | none ↦ confirmed ] in
          b.get_block_header start_height >>= λ found.
          ok_or found unwrapped_none >>= λ header. i.initialize header start_height)

pub batch_size : ℕ → ℕ → ℕ → ℕ
batch_size current_height max_batch_size max_height =
    if ltb max_height (saturating_add u32_max current_height max_batch_size)
    then saturating_add u32_max max_height 1 - current_height
    else max_batch_size

-- What `submit_next` does after the initialization.
pub data Submission : Type 0 where
  sleep : Submission
  single : Header → Result (Unit {0}) Error → Submission
  batch : List Header → Result (Unit {0}) Error → Submission
  failed : Error → Submission
  -- waiting for a header, or without fuel for the forward pass
  waiting : Submission

pub submit_single : Issuing → Option (Result Header Error) → Submission
submit_single i none = waiting
submit_single i (some (err e)) = failed e
submit_single i (some (ok header)) = single header (i.submit_block_header header)

pub submit_batch : Issuing → Result (List Header) Error → Submission
submit_batch i (err e) = failed e
submit_batch i (ok headers) = batch headers (i.submit_block_header_batch headers)

-- `match batch_size`
pub submit_size : Backing → Issuing → ℕ → ℕ → Submission
submit_size b i current_height zero = sleep
submit_size b i current_height (suc zero) =
    submit_single i (wait_for_header (b.header_polls current_height))
submit_size b i current_height (suc (suc n)) =
    submit_batch i (collect_headers current_height (suc (suc n)) b)

submit_from : Runner → Backing → Issuing → ℕ → Option (Result ℕ Error) → Submission
submit_from r b i max_height none = waiting
submit_from r b i max_height (some (err e)) = failed e
submit_from r b i max_height (some (ok current_height)) =
    submit_size b i current_height (batch_size current_height r.max_batch_size max_height)

pub submit_confirmed : ℕ → Runner → Backing → Issuing → Result ℕ Error → Submission
submit_confirmed fuel r b i (err e) = failed e
submit_confirmed fuel r b i (ok max_height) =
    submit_from r b i max_height (compute_start_height fuel b i)

-- The parachain answers as `before` up to the initialization, and as `i` after it.
pub submit_next : ℕ → Runner → Backing → Issuing → Issuing → Submission
submit_next fuel r b before i = elim (initialize_if_needed r b before) [
  | err e ↦ failed e
  | ok _ ↦ submit_confirmed fuel r b i (get_num_confirmed_blocks r b)
]

-- One round of `run_relayer`: the error that ends the loop, if any.
pub after_submit : Result (Unit {0}) Error → Option VaultErrors.Error
after_submit (ok _) = none
after_submit (err (runtime_error e)) =
    if is_duplicate_block e
    then none
    else if is_rpc_disconnect_error e
    then some VaultErrors.client_shutdown
    else none
after_submit (err (bitcoin_error e)) =
    if is_transport_error e then some VaultErrors.client_shutdown else none
after_submit (err _) = none
