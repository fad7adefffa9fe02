-- ===== src/Bitcoin/Streams/Tests.antt =====
-- The theorems on the stream of blocks, for a chain of four blocks (bitcoin/src/iter.rs).
use interbtc_clients.Prelude.{
  ℕ, ◌≡◌, ◌+◌, ◌-◌, refl, suc, true, [], leb, if◌then◌else◌, ok, err, arith, length, Result, ◌∷◌,
  ◌==◌,
}
use interbtc_clients.Bitcoin.Streams.{Block, Rpc, Error, other, reverse_stream_blocks, concat_map}
use interbtc_clients.Bitcoin.Streams.Forward.{
  stream_from, stream_blocks, blocks_of, blocks_from, stream_blocks-blocks_from,
  hashed_transactions, stream_in_chain_transactions,
}
use interbtc_clients.Bitcoin.Streams.Blocks.{down, reverse_stream_blocks_yields}

-- The hash of a block is its height plus one, and that before the first block is 0.
abbrev block : ℕ → Block
block h = record { prev_blockhash = h; txdata = [] }

abbrev rpc : Rpc
rpc = record {
  get_best_block_info = ok (3, 3 + 1);
  get_block = λ x. if leb x 0 then err other else ok (block (x - 1));
  get_mempool_transactions = ok [];
}

found : (h : ℕ) → rpc.get_block (h + 1) ≡ ok (block h)
found h = ground arith

linked : (h : ℕ) → (block (suc h)).prev_blockhash ≡ h + 1
linked h = omega arith

reverse_stream_blocks_yields_example : reverse_stream_blocks rpc 1 4 ≡ (down block 3 3, true)
reverse_stream_blocks_yields_example =
    reverse_stream_blocks_yields rpc 1 3 (λ h. h + 1) block
      (refl, (λ h l. found h), (λ h l. linked h)) (omega arith) 2 (omega arith)

-- An error at the second call, after which the height is waited for again.
abbrev wait_for_block : ℕ → ℕ → Result Block Error
wait_for_block call h =
    if call == 1
    then err other
    else ok (record { prev_blockhash = h; txdata = record { txid = h; output = [] } ∷ [] })

forward :
    stream_in_chain_transactions (λ b. b.prev_blockhash + 1) wait_for_block 5 3
    ≡ ok (6, record { txid = 5; output = [] })
      ∷ err other
      ∷ ok (7, record { txid = 6; output = [] })
      ∷ []
unfolding stream_in_chain_transactions concat_map hashed_transactions stream_blocks stream_from
forward = refl

abbrev answered : ℕ → Block
answered h = record { prev_blockhash = h; txdata = record { txid = h; output = [] } ∷ [] }

stream_blocks-blocks_from_example :
    (length (stream_blocks wait_for_block 5 3) ≡ 3)
    × (blocks_of (stream_blocks wait_for_block 5 3)
        ≡ blocks_from answered 5 (length (blocks_of (stream_blocks wait_for_block 5 3))))
stream_blocks-blocks_from_example =
    stream_blocks-blocks_from wait_for_block answered (λ call h b e. ground (arith, e)) 5 3
