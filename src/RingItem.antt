-- ===== src/RingItem.antt =====
-- saito-core/src/core/consensus/ringitem.rs: the blocks that share one slot of the ring, and which
-- of them is in the longest chain.
pub mod Delete
use saito_rust_workspace.Prelude.{
  ℕ, zero, suc, ◌+◌, ◌-◌, ◌*◌, ◌/◌, ◌%◌, ◌^◌, ◌≤◌, ◌<◌, min, max, ◌≡◌, ◌≢◌, ◌↔◌, ◌⊎◌, refl, sym, ap,
  ap₂, ◌∙◌, fun_ext, Bool, true, false, not, ◌&&◌, ◌||◌, Option, none, some, inl, inr, List, [],
  ◌∷◌, ◌++◌, map, reverse, append-nil, append_assoc, arith, dec_lt, ℕ_discrete, ltb, leb, ◌==◌,
  if◌then◌else◌, ltb→lt, lt→ltb, leb→le, ==_iff, tests, Bool-cases, Option-cases, length, get_elem?,
  set, get_or, take, drop, replicate, length-append, length-set, length-take, length-drop,
  length-map, take-append-drop, All, any, keep_if, All-append, All-append_left, All-append_right,
}
use saito_rust_workspace.Bytes.{
  Bytes, AreBytes, IsArray, to_be_bytes, from_be_bytes, slice, index, bytes_eq, concat, zeros,
}
use saito_rust_workspace.Bytes.Endian.{
  length-to_be_bytes, to_be_bytes-AreBytes, from_be_bytes-to_be_bytes, to_be_bytes-from_be_bytes,
  from_be_bytes-lt,
}
use saito_rust_workspace.Bytes.Slices.{
  slice-append_skip, slice-append_self, slice-eq-ok, index-append_skip, bytes_eq_iff, bytes_eq_refl,
  slice_split, index_split, slice_in_range, drop-length, slice-IsArray, index-lt, index_in_range,
}
use saito_rust_workspace.Outcome.{
  Outcome, ok, err, panic, ◌>>=◌, ◌>>◌, check, assert, ok_or, unwrap, >>=-eq-ok, ErrorKind,
  invalid_input, invalid_data, not_found,
}

-- `lc_pos` is the position of the longest-chain block among the slot's blocks.
pub record RingItem : Type 0 where
  pub lc_pos : Option ℕ
  pub block_hashes : List Bytes
  pub block_ids : List ℕ

unfoldable pub default : RingItem
default = record { lc_pos = none; block_hashes = []; block_ids = [] }

unfoldable pub add_block : RingItem → ℕ → Bytes → RingItem
add_block item block_id hash = record item {
  block_hashes = item.block_hashes ++ hash ∷ [];
  block_ids = item.block_ids ++ block_id ∷ [];
}

unfoldable pub contains_block_hash : RingItem → Bytes → Bool
contains_block_hash item hash = any (λ i. bytes_eq i hash) item.block_hashes

-- `iter().position(..)`, from position `i` on
unfoldable pub position_from : ℕ → (Bytes → Bool) → List Bytes → Option ℕ
position_from i p [] = none
position_from i p (x ∷ xs) = if p x then some i else position_from (i + 1) p xs

unfoldable pub on_chain_reorganization : RingItem → Bytes → Bool → RingItem
unfolding position_from
on_chain_reorganization item hash lc =
    if not lc
    then record item { lc_pos = none }
    else record item { lc_pos = position_from 0 (λ b_hash. bytes_eq b_hash hash) item.block_hashes }

-- `self.lc_pos == Some(i)`
unfoldable pub is_at : Option ℕ → ℕ → Bool
is_at none i = false
is_at (some j) i = j == i

-- The loop of `delete_block` over the positions from `i` on: the kept hashes and ids, and the new
-- `lc_pos`. A missing hash is an index out of range.
unfoldable pub delete_loop :
    Option ℕ
    → ℕ
    → Bytes
    → ℕ
    → ℕ
    → Option ℕ
    → List ℕ
    → List Bytes
    → Outcome (List Bytes × List ℕ × Option ℕ)
unfolding is_at
delete_loop lc block_id hash i index_loop new_lc_pos [] hashes = ok ([], [], new_lc_pos)
delete_loop lc block_id hash i index_loop new_lc_pos (b ∷ ids) [] = panic
delete_loop lc block_id hash i index_loop new_lc_pos (b ∷ ids) (h ∷ hashes) =
    elim (b == block_id && bytes_eq h hash) [
      | true ↦ delete_loop lc block_id hash (i + 1) index_loop new_lc_pos ids hashes
      | false ↦
          (delete_loop lc block_id hash (i + 1) (index_loop + 1)
            (if is_at lc i then some index_loop else new_lc_pos) ids hashes)
          >>= λ r. ok (h ∷ r.0, b ∷ r.1, r.2)
    ]

unfoldable pub delete_block : RingItem → ℕ → Bytes → Outcome RingItem
unfolding delete_loop
delete_block item block_id hash = do
  r ← delete_loop item.lc_pos block_id hash 0 0 (some 0) item.block_ids item.block_hashes
  ok (record { block_hashes = r.0; block_ids = r.1; lc_pos = r.2 })
