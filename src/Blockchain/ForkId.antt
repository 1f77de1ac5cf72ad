-- ===== src/Blockchain/ForkId.antt =====
-- Fork ids, saito-core/src/core/consensus/blockchain.rs: a node samples two bytes of its chain at
-- each of 16 distances, and a peer reads from them the last block that the two may share.
pub mod Sample
pub mod Found
pub mod Shared
use saito_rust_workspace.Prelude.{
  ℕ, zero, suc, ◌+◌, ◌-◌, ◌*◌, ◌/◌, ◌%◌, ◌^◌, ◌≤◌, ◌<◌, min, max, ◌≡◌, ◌≢◌, ◌↔◌, ◌⊎◌, refl, sym, ap,
  ap₂, ◌∙◌, fun_ext, Bool, true, false, not, ◌&&◌, ◌||◌, Option, none, some, inl, inr, List, [],
  ◌∷◌, ◌++◌, map, reverse, append-nil, append_assoc, arith, dec_lt, ℕ_discrete, ltb, leb, ◌==◌,
  if◌then◌else◌, ltb→lt, lt→ltb, leb→le, ==_iff, tests, Bool-cases, Option-cases, length, get_elem?,
  set, get_or, take, drop, replicate, length-append, length-set, length-take, length-drop,
  length-map, take-append-drop, All, any, keep_if, All-append, All-append_left, All-append_right,
  get_elem?_in_range, lt_of_get_elem?, get_elem?-append_end, All-set, All-get, any-append_end,
  get_elem?-set_self, get_elem?-set_ne,
}
use saito_rust_workspace.Bytes.{
  Bytes, AreBytes, IsArray, to_be_bytes, from_be_bytes, slice, index, bytes_eq, concat, zeros,
}
use saito_rust_workspace.Bytes.Endian.{
  length-to_be_bytes, to_be_bytes-AreBytes, from_be_bytes-to_be_bytes, to_be_bytes-from_be_bytes,
  from_be_bytes-lt,
}
use saito_rust_workspace.Bytes.Slices.{
  slice-append_skip, slice-append_self, slice-eq-ok, index-append_skip, bytes_eq_iff, bytes_eq_refl,
  slice_split, index_split, slice_in_range, drop-length, slice-IsArray, index-lt, index_in_range,
}
use saito_rust_workspace.Outcome.{
  Outcome, ok, err, panic, ◌>>=◌, ◌>>◌, check, assert, ok_or, unwrap, >>=-eq-ok, ErrorKind,
  invalid_input, invalid_data, not_found,
}
use saito_rust_workspace.BlockRing
use saito_rust_workspace.BlockRing.{BlockRing}

abbrev pub fork_id_weights : List ℕ
fork_id_weights =
    0 ∷ 10 ∷ 10 ∷ 10 ∷ 10 ∷ 10 ∷ 25 ∷ 25 ∷ 100 ∷ 300 ∷ 500 ∷ 4000 ∷ 10000 ∷ 20000 ∷ 50000 ∷ 100000
    ∷ []

-- The loop of `generate_fork_id`, from weight `i` on.
unfoldable pub sample : BlockRing → List ℕ → ℕ → ℕ → Bytes → Outcome Bytes
sample blockring [] i current_block_id fork_id = ok fork_id
sample blockring (weight ∷ weights) i current_block_id fork_id =
    elim (leb current_block_id weight) [
      | true ↦ ok fork_id
      | false ↦
          BlockRing.get_longest_chain_block_hash_at_block_id blockring (current_block_id - weight)
          >>= λ longest. elim longest [
            | none ↦ ok fork_id
            | some block_hash ↦ do
              byte ← index block_hash (2 * i)
              next_byte ← index block_hash (2 * i + 1)
              sample blockring weights (i + 1) (current_block_id - weight)
                  (set (set fork_id (2 * i) byte) (2 * i + 1) next_byte)
          ]
    ]

unfoldable pub generate_fork_id : BlockRing → ℕ → Outcome Bytes
unfolding sample
generate_fork_id blockring block_id =
    sample blockring fork_id_weights 0 (block_id - block_id % 10) (zeros 32)

-- `fork_id[index] == block_hash[index] && fork_id[index + 1] == block_hash[index + 1]`
unfoldable pub same_sample : Bytes → Bytes → ℕ → Outcome Bool
same_sample fork_id block_hash i = do
  theirs ← index fork_id (2 * i)
  mine ← index block_hash (2 * i)
  elim (theirs == mine) [
    | false ↦ ok false
    | true ↦ do
      next_theirs ← index fork_id (2 * i + 1)
      next_mine ← index block_hash (2 * i + 1)
      ok (next_theirs == next_mine)
  ]

-- The loop that both cases of `generate_last_shared_ancestor` run, from weight `i` on.
unfoldable pub compare_samples : BlockRing → Bytes → List ℕ → ℕ → ℕ → Outcome (Option ℕ)
unfolding same_sample
compare_samples blockring fork_id [] i block_id = ok none
compare_samples blockring fork_id (weight ∷ weights) i block_id = elim (ltb block_id weight) [
  | true ↦ ok (some 0)
  | false ↦
      BlockRing.get_longest_chain_block_hash_at_block_id blockring (block_id - weight)
      >>= λ longest. elim longest [
        | none ↦ compare_samples blockring fork_id weights (i + 1) (block_id - weight)
        | some block_hash ↦ same_sample fork_id block_hash i >>= λ same. elim same [
          | true ↦ ok (some (block_id - weight))
          | false ↦ compare_samples blockring fork_id weights (i + 1) (block_id - weight)
        ]
      ]
]

unfoldable pub generate_last_shared_ancestor_when_peer_behind :
    BlockRing → ℕ → Bytes → Outcome (Option ℕ)
unfolding compare_samples
generate_last_shared_ancestor_when_peer_behind blockring peer_latest_block_id fork_id =
    compare_samples blockring fork_id fork_id_weights 0
      (peer_latest_block_id - peer_latest_block_id % 10)

unfoldable pub generate_last_shared_ancestor_when_peer_ahead :
    BlockRing → Bytes → ℕ → Outcome (Option ℕ)
unfolding compare_samples
generate_last_shared_ancestor_when_peer_ahead blockring fork_id my_latest_block_id =
    compare_samples blockring fork_id fork_id_weights 0
      (my_latest_block_id - my_latest_block_id % 10)

-- `value.unwrap_or(0)`
abbrev pub value_or_0 : Option ℕ → ℕ
value_or_0 none = 0
value_or_0 (some value) = value

-- which of the two cases runs
unfoldable pub find_shared : BlockRing → ℕ → Bytes → ℕ → Outcome (Option ℕ)
unfolding generate_last_shared_ancestor_when_peer_behind
    generate_last_shared_ancestor_when_peer_ahead
find_shared blockring peer_latest_block_id fork_id my_latest_block_id =
    elim (leb my_latest_block_id peer_latest_block_id) [
      | true ↦ generate_last_shared_ancestor_when_peer_ahead blockring fork_id my_latest_block_id
      | false ↦
          generate_last_shared_ancestor_when_peer_behind blockring peer_latest_block_id fork_id
    ]

unfoldable pub generate_last_shared_ancestor : BlockRing → ℕ → Bytes → Outcome ℕ
unfolding find_shared
generate_last_shared_ancestor blockring peer_latest_block_id fork_id = do
  my_latest_block_id ← BlockRing.get_latest_block_id blockring
  found ← find_shared blockring peer_latest_block_id fork_id my_latest_block_id
  ok (value_or_0 found)

-- The products stay below `2 ^ 64` for the genesis periods in use; beyond, they wrap.
abbrev scaled : ℕ → ℕ → ℕ
scaled genesis_period weight = max ((weight * genesis_period) % 2 ^ 64 / 100000) 1

unfoldable pub generate_fork_id_weights : ℕ → List ℕ
generate_fork_id_weights genesis_period =
    let w = scaled genesis_period in
    0
    ∷ w 10
    ∷ w 10
    ∷ w 10
    ∷ w 10
    ∷ w 10
    ∷ w 25
    ∷ w 25
    ∷ w 100
    ∷ w 300
    ∷ w 500
    ∷ w 4000
    ∷ w 10000
    ∷ w 20000
    ∷ w 50000
    ∷ genesis_period
    ∷ []
