-- ===== src/Blockchain/Tests.antt =====
-- Examples of chains, golden tickets and fork ids.
use saito_rust_workspace.Prelude.{
  ℕ, ◌+◌, ◌-◌, ◌%◌, min, ◌≡◌, ◌↔◌, ◌⊎◌, refl, Bool, true, false, ◌||◌, Option, none, some, inl, inr,
  [], ◌∷◌, arith, ltb, leb, if◌then◌else◌, length, replicate,
}
use saito_rust_workspace.Bytes.{Bytes, index, bytes_eq, zeros}
use saito_rust_workspace.Outcome.{ok}
use saito_rust_workspace.Eq.{bytes_key}
use saito_rust_workspace.HashMap.{get}
use saito_rust_workspace.RingItem.{RingItem}
use saito_rust_workspace.BlockRing
use saito_rust_workspace.BlockRing.{BlockRing}
use saito_rust_workspace.Block
use saito_rust_workspace.Blockchain.{Block, Blocks}
use saito_rust_workspace.Blockchain.Chains.{new_chain_from, is_new_chain_the_longest_chain}
use saito_rust_workspace.Blockchain.Chains.Collect.{
  IsDescending, Collected, new_chain_from-Collected,
}
use saito_rust_workspace.Blockchain.Chains.Decide.{Wins, is_new_chain_the_longest_chain_lem}
use saito_rust_workspace.Blockchain.Tickets.{
  is_golden_ticket_count_valid, is_golden_ticket_count_valid_lem, ancestors, count_tickets,
}
use saito_rust_workspace.Blockchain.ForkId.{generate_fork_id, generate_last_shared_ancestor, sample}
use saito_rust_workspace.Blockchain.ForkId.Shared.{IsMatch, generate_last_shared_ancestor-IsMatch}
use saito_rust_workspace.Blockchain.ForkId.Found.{generate_last_shared_ancestor-generate_fork_id}

abbrev block_of : ℕ → Bytes → Bytes → Bool → Block
block_of id hash parent lc = record Block.new {
  id = id;
  hash = hash;
  previous_block_hash = parent;
  burnfee = 10;
  has_golden_ticket = true;
  in_longest_chain = lc;
}

-- block 2 follows block 1, which the longest chain has
abbrev blocks : Blocks
blocks =
    (1 ∷ [], block_of 1 (1 ∷ []) (zeros 32) true)
    ∷ (2 ∷ [], block_of 2 (2 ∷ []) (1 ∷ []) false)
    ∷ []

abbrev tip : Block
tip = block_of 2 (2 ∷ []) (1 ∷ []) false

tip_known : get (2 ∷ []) blocks ≡ some tip
unfolding get bytes_eq
tip_known = refl

abbrev root : Block
root = block_of 1 (1 ∷ []) (zeros 32) true

found_in :
    (a b : Bool) (x y z : Block)
    → (if a then some x else (if b then some y else none)) ≡ some z
    → (z ≡ x) ⊎ (z ≡ y)
found_in true b x y z h = inl (cc (h))
found_in false true x y z h = inr (cc (h))
found_in false false x y z h = absurd (cc (h))

root_known : get (1 ∷ []) blocks ≡ some root
unfolding get bytes_eq
root_known = refl

zeros_unknown : get (zeros 32) blocks ≡ none
unfolding get bytes_eq zeros
zeros_unknown = refl

blocks-IsDescending : IsDescending blocks
unfolding get IsDescending
blocks-IsDescending hash parent_hash block parent known is_parent parent_known =
    elim (found_in (bytes_eq (1 ∷ []) hash) (bytes_eq (2 ∷ []) hash) root tip block known) [
      | inl is_root ↦
          let at_zeros : parent_hash ≡ zeros 32 = cc (is_root, is_parent) in
          absurd (cc (at_zeros, parent_known, zeros_unknown))
      | inr is_tip ↦
          let at_root : parent_hash ≡ 1 ∷ [] = cc (is_tip, is_parent) in
          let is_root : parent ≡ root = cc (at_root, parent_known, root_known) in
          rw (is_tip, is_root) (omega arith)
    ]

collected_example : Collected blocks (2 ∷ []) (new_chain_from blocks 4 (2 ∷ []))
collected_example =
    new_chain_from-Collected blocks blocks-IsDescending (2 ∷ []) tip tip_known 4 (omega arith)

abbrev item_of_id : ℕ → Bytes → RingItem
item_of_id id hash = record { block_hashes = hash ∷ []; block_ids = id ∷ []; lc_pos = some 0 }

abbrev nothing : RingItem
nothing = record { block_hashes = []; block_ids = []; lc_pos = none }

-- two slots, block 1 at the tip
abbrev ring : BlockRing
ring = record {
  ring = nothing ∷ item_of_id 1 (1 ∷ []) ∷ [];
  lc_pos = some 1;
  empty = false;
  genesis_period = 1;
}

longest_example :
    (is_new_chain_the_longest_chain ring blocks ((2 ∷ []) ∷ []) [] ≡ ok true)
    ↔ ((ring.empty ≡ true) ⊎ Wins ring blocks ((2 ∷ []) ∷ []) [])
longest_example = is_new_chain_the_longest_chain_lem ring blocks ((2 ∷ []) ∷ []) []

abbrev known_block : Bytes → Option Block
known_block hash = get hash blocks

tickets_example :
    let bs = ancestors known_block 5 (2 ∷ []) in
    is_golden_ticket_count_valid (2 ∷ []) true false known_block
    ≡ (ltb (length bs) 4 || (false || leb (length bs - 3) (count_tickets bs + 1)))
tickets_example = is_golden_ticket_count_valid_lem known_block (2 ∷ []) true false

-- block 10 at the tip of a ring of two slots
abbrev ten : BlockRing
ten = record {
  ring = item_of_id 10 (replicate 32 7) ∷ nothing ∷ [];
  lc_pos = some 0;
  empty = false;
  genesis_period = 1;
}

abbrev sampled : Bytes
sampled = 7 ∷ 7 ∷ replicate 30 0

ten_there : BlockRing.get_longest_chain_block_hash_at_block_id ten 10 ≡ ok (some (replicate 32 7))
unfolding BlockRing.get_longest_chain_block_hash_at_block_id BlockRing.slot BlockRing.insert_pos
    BlockRing.get_ring_buffer_size
ten_there = refl

ten_latest : BlockRing.get_latest_block_id ten ≡ ok 10
unfolding BlockRing.get_latest_block_id
ten_latest = refl

ten-sampled : generate_fork_id ten 10 ≡ ok sampled
unfolding generate_fork_id sample index zeros BlockRing.get_longest_chain_block_hash_at_block_id
    BlockRing.slot BlockRing.insert_pos BlockRing.get_ring_buffer_size
ten-sampled = refl

fork_id_example : generate_last_shared_ancestor ten 10 sampled ≡ ok (10 - 10 % 10)
fork_id_example =
    generate_last_shared_ancestor-generate_fork_id ten ten 10 10 (replicate 32 7) sampled
      (omega arith) (omega arith) refl ten_there ten_there ten_latest ten-sampled

IsMatch-example : let id : ℕ = 10 in (id ≡ 0) ⊎ IsMatch ten sampled (min 10 10) id
IsMatch-example =
    generate_last_shared_ancestor-IsMatch ten 10 10 10 sampled ten_latest fork_id_example
