-- ===== src/Vault/Relay/Headers.antt =====
-- The consecutive headers that the relayer collects (vault/src/relay/mod.rs).
use interbtc_clients.Prelude.{
  ℕ, zero, suc, ◌+◌, ◌-◌, ◌≤◌, ◌<◌, ◌≡◌, refl, Option, none, some, List, [], ◌∷◌, Result, ok, err,
  ◌>>=◌, ok_or, u32_max, min, length, arith,
}
use interbtc_clients.Vault.Relay.{
  Error, block_header_not_found, Header, Backing, Issuing, collect_headers, batch_size, submit_size,
  submit_single, submit_batch, wait_for_header, Submission, single, batch,
}

-- The batch reaches up to the last confirmed block, or has the largest size.
pub batch_size_lem :
    (current max_batch max_height : ℕ)
    → max_height < u32_max
    → current ≤ u32_max
    → batch_size current max_batch max_height ≡ min max_batch (max_height + 1 - current)
unfolding batch_size
batch_size_lem current max_batch max_height h k = ground arith

-- The headers of `n` consecutive blocks from a height on.
abbrev pub IsRun : Backing → ℕ → List Header → Type 0
IsRun b height [] = Unit {0}
IsRun b height (x ∷ xs) = (b.get_block_header height ≡ ok (some x)) × IsRun b (height + 1) xs

-- Bitcoin has a header at each of `n` heights.
abbrev pub HasHeaders : Backing → ℕ → ℕ → Type 0
HasHeaders b height zero = Unit {0}
HasHeaders b height (suc n) =
    ((x : Header) × (b.get_block_header height ≡ ok (some x))) × HasHeaders b (height + 1) n

pub collect_headers-IsRun :
    (b : Backing) (height n : ℕ)
    → HasHeaders b height n
    → (xs : List Header) × (collect_headers height n b ≡ ok xs)
      × IsRun b height xs
      × (length xs ≡ n)
unfolding collect_headers
collect_headers-IsRun b height zero h = ([], refl, tt, refl)
collect_headers-IsRun b height (suc n) ((x, e), h) =
    let (xs, p, q, l) = collect_headers-IsRun b (height + 1) n h in
    (x ∷ xs, ground (arith, e, p), (e, q), omega (arith, l))

-- A result is the headers of `n` blocks from the height on.
abbrev CollectsRun : Backing → ℕ → ℕ → Result (List Header) Error → Type 0
CollectsRun b height n (ok xs) = IsRun b height xs × (length xs ≡ n)
CollectsRun b height n (err e) = Unit {0}

collect_headers-CollectsRun :
    (b : Backing) (height n : ℕ) → CollectsRun b height n (collect_headers height n b)
unfolding collect_headers
collect_headers-CollectsRun b height zero = (tt, refl)
collect_headers-CollectsRun b height (suc n) =
    go (b.get_block_header height) refl (collect_headers (height + 1) n b)
      (collect_headers-CollectsRun b (height + 1) n)
  where
    go :
        (r : Result (Option Header) Error)
        → b.get_block_header height ≡ r
        → (rest : Result (List Header) Error) → CollectsRun b (height + 1) n rest
        → CollectsRun b height (suc n) (
            r >>= λ found. ok_or found block_header_not_found >>= λ header.
            rest >>= λ headers. ok (header ∷ headers))
    go (err x) p rest h = tt
    go (ok none) p rest h = tt
    go (ok (some x)) p (err y) h = tt
    go (ok (some x)) p (ok xs) h = ((p, h.0), omega (arith, h.1))

-- The headers that one round hands to the parachain.
abbrev pub submitted : Submission → List Header
submitted (single x r) = x ∷ []
submitted (batch xs r) = xs
submitted _ = []

-- The polls for a header, if they end, find the header of that height.
abbrev pub PollsAgree : Backing → ℕ → Type 0
PollsAgree b height =
    (x : Header)
    → wait_for_header (b.header_polls height) ≡ some (ok x)
    → b.get_block_header height ≡ ok (some x)

-- `n` consecutive headers, or none.
abbrev pub IsRunOf : Backing → ℕ → ℕ → Submission → Type 0
IsRunOf b height n s = IsRun b height (submitted s) × (length (submitted s) ≤ n)

pub submit_size-IsRunOf :
    (b : Backing) (i : Issuing) (height n : ℕ)
    → PollsAgree b height
    → IsRunOf b height n (submit_size b i height n)
unfolding submit_size submit_single submit_batch
submit_size-IsRunOf b i height zero p = (tt, omega arith)
submit_size-IsRunOf b i height (suc zero) p = go (wait_for_header (b.header_polls height)) refl
  where
    go :
        (o : Option (Result Header Error))
        → wait_for_header (b.header_polls height) ≡ o
        → IsRunOf b height 1 (submit_single i o)
    go none e = (tt, omega arith)
    go (some (err x)) e = (tt, omega arith)
    go (some (ok x)) e = ((p x e, tt), omega arith)
submit_size-IsRunOf b i height (suc (suc n)) p =
    go (collect_headers height (suc (suc n)) b) (collect_headers-CollectsRun b height (suc (suc n)))
  where
    go :
        (r : Result (List Header) Error)
        → CollectsRun b height (suc (suc n)) r
        → IsRunOf b height (suc (suc n)) (submit_batch i r)
    go (err x) h = (tt, omega arith)
    go (ok xs) h = (h.0, omega (arith, h.1))
