-- ===== src/Bitcoin/Streams/Forward.antt =====
-- The stream of blocks from a height on (bitcoin/src/iter.rs), which the vault watches for the
-- payments of issue requests. `wait_for_block` has the answers of Bitcoin Core, by the number of
-- the call and the height that is waited for. Heights stay below 2 ^ 32, where the source's would
-- overflow.
use interbtc_clients.Prelude.{
  ℕ, zero, suc, ◌+◌, ◌≡◌, refl, ap, ◌∙◌, List, [], ◌∷◌, length, Result, ok, err,
}
use interbtc_clients.Bitcoin.Transactions.{Transaction}
use interbtc_clients.Bitcoin.Streams.{Block, BlockHash, Error, concat_map}

-- The items of a number of steps; the height of the next block goes up when one has come.
unfoldable pub stream_from : (ℕ → ℕ → Result Block Error) → ℕ → ℕ → ℕ → List (Result Block Error)
stream_from wait_for_block call next_height zero = []
stream_from wait_for_block call next_height (suc n) = elim (wait_for_block call next_height) [
  | ok block ↦ ok block ∷ stream_from wait_for_block (suc call) (next_height + 1) n
  | err e ↦ err e ∷ stream_from wait_for_block (suc call) next_height n
]

unfoldable pub stream_blocks : (ℕ → ℕ → Result Block Error) → ℕ → ℕ → List (Result Block Error)
unfolding stream_from
stream_blocks wait_for_block from_height n = stream_from wait_for_block 0 from_height n

-- Each transaction with the hash of its block.
unfoldable pub hashed_transactions :
    (Block → BlockHash) → Result Block Error → List (Result (BlockHash × Transaction) Error)
hashed_transactions block_hash (ok block) = go block.txdata
  where
    go : List Transaction → List (Result (BlockHash × Transaction) Error)
    go [] = []
    go (tx ∷ txs) = ok (block_hash block, tx) ∷ go txs
hashed_transactions block_hash (err e) = err e ∷ []

unfoldable pub stream_in_chain_transactions :
    (Block → BlockHash)
    → (ℕ → ℕ → Result Block Error)
    → ℕ
    → ℕ
    → List (Result (BlockHash × Transaction) Error)
unfolding stream_blocks hashed_transactions concat_map
stream_in_chain_transactions block_hash wait_for_block from_height n =
    concat_map (hashed_transactions block_hash) (stream_blocks wait_for_block from_height n)

abbrev pub blocks_of : List (Result Block Error) → List Block
blocks_of [] = []
blocks_of (ok b ∷ items) = b ∷ blocks_of items
blocks_of (err _ ∷ items) = blocks_of items

-- A number of blocks of a chain, from a height on.
abbrev pub blocks_from : (ℕ → Block) → ℕ → ℕ → List Block
blocks_from chain h zero = []
blocks_from chain h (suc k) = chain h ∷ blocks_from chain (h + 1) k

stream_from-blocks_from :
    (wait_for_block : ℕ → ℕ → Result Block Error) (chain : ℕ → Block)
    → ((call h : ℕ) (b : Block) → wait_for_block call h ≡ ok b → b ≡ chain h)
    → (call h n : ℕ)
    → blocks_of (stream_from wait_for_block call h n)
      ≡ blocks_from chain h (length (blocks_of (stream_from wait_for_block call h n)))
unfolding stream_from
stream_from-blocks_from w chain a call h zero = refl
stream_from-blocks_from w chain a call h (suc n) =
    go (w call h) (a call h) (stream_from-blocks_from w chain a (suc call) (h + 1) n)
      (stream_from-blocks_from w chain a (suc call) h n)
  where
    later : ℕ → List (Result Block Error)
    later k = stream_from w (suc call) k n

    items : Result Block Error → List (Result Block Error)
    items r = elim r as (λ _. List (Result Block Error)) [
      | ok block ↦ ok block ∷ later (h + 1)
      | err e ↦ err e ∷ later h
    ]

    go :
        (r : Result Block Error)
        → ((b : Block) → r ≡ ok b → b ≡ chain h)
        → blocks_of (later (h + 1)) ≡ blocks_from chain (h + 1) (length (blocks_of (later (h + 1))))
        → blocks_of (later h) ≡ blocks_from chain h (length (blocks_of (later h)))
        → blocks_of (items r) ≡ blocks_from chain h (length (blocks_of (items r)))
    go (ok b) c p q = ap (λ x. x ∷ blocks_of (later (h + 1))) (c b refl) ∙ ap (λ l. chain h ∷ l) p
    go (err e) c p q = q

length-stream_from :
    (wait_for_block : ℕ → ℕ → Result Block Error) (call h n : ℕ)
    → length (stream_from wait_for_block call h n) ≡ n
unfolding stream_from
length-stream_from w call h zero = refl
length-stream_from w call h (suc n) =
    go (w call h) (length-stream_from w (suc call) (h + 1) n) (length-stream_from w (suc call) h n)
  where
    go :
        (r : Result Block Error)
        → length (stream_from w (suc call) (h + 1) n) ≡ n
        → length (stream_from w (suc call) h n) ≡ n
        → length (elim r as (λ _. List (Result Block Error)) [
          | ok block ↦ ok block ∷ stream_from w (suc call) (h + 1) n
          | err e ↦ err e ∷ stream_from w (suc call) h n
        ])
          ≡ suc n
    go (ok b) p q = ap suc p
    go (err e) p q = ap suc q

-- The forward stream does not end: it has as many items as are taken of it. And if each block that
-- Bitcoin Core answers for a height is the chain's, the blocks among the items are consecutive
-- blocks of the chain from the height asked for, none left out or repeated, whatever errors come in
-- between.
pub stream_blocks-blocks_from :
    (wait_for_block : ℕ → ℕ → Result Block Error) (chain : ℕ → Block)
    → ((call h : ℕ) (b : Block) → wait_for_block call h ≡ ok b → b ≡ chain h)
    → (from_height n : ℕ)
    → (length (stream_blocks wait_for_block from_height n) ≡ n)
      × (blocks_of (stream_blocks wait_for_block from_height n)
          ≡ blocks_from chain from_height
              (length (blocks_of (stream_blocks wait_for_block from_height n))))
unfolding stream_blocks
stream_blocks-blocks_from w chain a from_height n =
    (length-stream_from w 0 from_height n, stream_from-blocks_from w chain a 0 from_height n)
