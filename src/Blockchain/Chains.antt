-- ===== src/Blockchain/Chains.antt =====
-- The chains that `add_block` of saito-core/src/core/consensus/blockchain.rs compares: how they are
-- collected, and which one is the longest. The loops run on fuel; `none` means that it ran out.
pub mod Burned
pub mod Collect
pub mod Decide
use saito_rust_workspace.Prelude.{
  ℕ, zero, suc, ◌+◌, ◌-◌, ◌*◌, ◌/◌, ◌%◌, ◌^◌, ◌≤◌, ◌<◌, min, max, ◌≡◌, ◌≢◌, ◌↔◌, ◌⊎◌, refl, sym, ap,
  ap₂, ◌∙◌, fun_ext, Bool, true, false, not, ◌&&◌, ◌||◌, Option, none, some, inl, inr, List, [],
  ◌∷◌, ◌++◌, map, reverse, append-nil, append_assoc, arith, dec_lt, ℕ_discrete, ltb, leb, ◌==◌,
  if◌then◌else◌, ltb→lt, lt→ltb, leb→le, ==_iff, tests, Bool-cases, Option-cases, length, get_elem?,
  set, get_or, take, drop, replicate, length-append, length-set, length-take, length-drop,
  length-map, take-append-drop, All, any, keep_if, All-append, All-append_left, All-append_right,
  get_elem?_in_range, lt_of_get_elem?, get_elem?-append_end, All-set, All-get, any-append_end,
  get_elem?-set_self, get_elem?-set_ne,
}
use saito_rust_workspace.Bytes.{
  Bytes, AreBytes, IsArray, to_be_bytes, from_be_bytes, slice, index, bytes_eq, concat, zeros,
}
use saito_rust_workspace.Bytes.Endian.{
  length-to_be_bytes, to_be_bytes-AreBytes, from_be_bytes-to_be_bytes, to_be_bytes-from_be_bytes,
  from_be_bytes-lt,
}
use saito_rust_workspace.Bytes.Slices.{
  slice-append_skip, slice-append_self, slice-eq-ok, index-append_skip, bytes_eq_iff, bytes_eq_refl,
  slice_split, index_split, slice_in_range, drop-length, slice-IsArray, index-lt, index_in_range,
}
use saito_rust_workspace.Outcome.{
  Outcome, ok, err, panic, ◌>>=◌, ◌>>◌, check, assert, ok_or, unwrap, >>=-eq-ok, ErrorKind,
  invalid_input, invalid_data, not_found,
}
use saito_rust_workspace.Eq.{bytes_key}
use saito_rust_workspace.HashMap.{get, contains_key}
use saito_rust_workspace.BlockRing
use saito_rust_workspace.BlockRing.{BlockRing}
use saito_rust_workspace.Blockchain.{Block, Blocks}

-- `calculate_new_chain_for_add_block`, from a hash on: whether a block of the longest chain was
-- met, the hash at which the walk ended, and the hashes before it, the newest first.
unfoldable pub new_chain_from : Blocks → ℕ → Bytes → Option (Bool × Bytes × List Bytes)
new_chain_from blocks zero hash = none
new_chain_from blocks (suc fuel) hash = elim (get hash blocks) [
  | none ↦ some (false, hash, [])
  | some block ↦ elim block.in_longest_chain [
    | true ↦ some (true, hash, [])
    | false ↦ elim (bytes_eq hash (zeros 32)) [
      | true ↦ some (false, hash, [])
      | false ↦ elim (new_chain_from blocks fuel block.previous_block_hash) [
        | none ↦ none
        | some r ↦ some (r.0, r.1, hash ∷ r.2)
      ]
    ]
  ]
]

-- `calculate_old_chain_for_add_block`
unfoldable pub old_chain_from : Blocks → Bytes → ℕ → Bytes → Option (List Bytes)
old_chain_from blocks shared_block_hash zero hash = none
old_chain_from blocks shared_block_hash (suc fuel) hash = elim (bytes_eq shared_block_hash hash) [
  | true ↦ some []
  | false ↦ elim (get hash blocks) [
    | none ↦ some []
    | some block ↦ elim (bytes_eq block.previous_block_hash (zeros 32)) [
      | true ↦ some (hash ∷ [])
      | false ↦ elim (old_chain_from blocks shared_block_hash fuel block.previous_block_hash) [
        | none ↦ none
        | some r ↦ some (hash ∷ r)
      ]
    ]
  ]
]

-- `calculate_old_chain_upto_length`: the walk stops by itself after `length + 1` blocks.
unfoldable pub old_chain_upto : Blocks → ℕ → Bytes → List Bytes
old_chain_upto blocks zero hash = []
old_chain_upto blocks (suc room) hash = elim (get hash blocks) [
  | none ↦ []
  | some block ↦ elim (bytes_eq block.previous_block_hash (zeros 32)) [
    | true ↦ hash ∷ []
    | false ↦ hash ∷ old_chain_upto blocks room block.previous_block_hash
  ]
]

unfoldable pub calculate_old_chain_upto_length : Blocks → Bytes → ℕ → List Bytes
unfolding old_chain_upto
calculate_old_chain_upto_length blocks latest_block_hash len =
    old_chain_upto blocks (len + 1) latest_block_hash

-- The sum over the old chain, where an unknown block is an `unwrap` of nothing.
unfoldable pub sum_old : Blocks → List Bytes → ℕ → Outcome ℕ
sum_old blocks [] sum = ok sum
sum_old blocks (h ∷ hs) sum =
    unwrap (get h blocks) >>= λ b. sum_old blocks hs ((sum + b.burnfee) % 2 ^ 64)

-- The sum over the new chain, where an unknown block ends the comparison.
unfoldable pub sum_new : Blocks → List Bytes → ℕ → Option ℕ
sum_new blocks [] sum = some sum
sum_new blocks (h ∷ hs) sum = elim (get h blocks) [
  | none ↦ none
  | some b ↦ sum_new blocks hs ((sum + b.burnfee) % 2 ^ 64)
]

-- the last comparison: more blocks, and no smaller sum
unfoldable pub outweighs : List Bytes → List Bytes → ℕ → Option ℕ → Outcome Bool
outweighs new_chain old_chain old_bf none = ok false
outweighs new_chain old_chain old_bf (some new_bf) =
    ok (ltb (length old_chain) (length new_chain) && leb old_bf new_bf)

-- the comparison of two chains from the tips on
unfoldable pub is_heavier : BlockRing → Blocks → List Bytes → List Bytes → Outcome Bool
unfolding sum_old sum_new outweighs
is_heavier blockring blocks new_chain old_chain = do
  latest ← BlockRing.get_latest_block_id blockring
  first ← BlockRing.at new_chain 0
  tip ← unwrap (get first blocks)
  elim (leb tip.id latest) [
    | true ↦ ok false
    | false ↦ sum_old blocks old_chain 0 >>= λ old_bf.
        outweighs new_chain old_chain old_bf (sum_new blocks new_chain 0)
  ]

unfoldable pub is_new_chain_the_longest_chain :
    BlockRing → Blocks → List Bytes → List Bytes → Outcome Bool
unfolding is_heavier
is_new_chain_the_longest_chain blockring blocks new_chain old_chain =
    elim (BlockRing.is_empty blockring) [
      | true ↦ ok true
      | false ↦ elim (ltb (length new_chain) (length old_chain)) [
        | true ↦ ok false
        | false ↦ is_heavier blockring blocks new_chain old_chain
      ]
    ]
