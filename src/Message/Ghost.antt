-- ===== src/Message/Ghost.antt =====
-- saito-core/src/core/msg/ghost_chain_sync.rs: the ghost chain, a list for each field of its blocks.
pub mod RoundTrip
use saito_rust_workspace.Prelude.{
  ℕ, zero, suc, ◌+◌, ◌-◌, ◌*◌, ◌/◌, ◌%◌, ◌^◌, ◌≤◌, ◌<◌, min, max, ◌≡◌, ◌≢◌, ◌↔◌, ◌⊎◌, refl, sym, ap,
  ap₂, ◌∙◌, fun_ext, Bool, true, false, not, ◌&&◌, ◌||◌, Option, none, some, inl, inr, List, [],
  ◌∷◌, ◌++◌, map, reverse, append-nil, append_assoc, arith, dec_lt, ℕ_discrete, ltb, leb, ◌==◌,
  if◌then◌else◌, ltb→lt, lt→ltb, leb→le, ==_iff, tests, Bool-cases, Option-cases, length, get_elem?,
  set, get_or, take, drop, replicate, length-append, length-set, length-take, length-drop,
  length-map, take-append-drop, All, any, keep_if, All-append, All-append_left, All-append_right,
  get_elem?_in_range, lt_of_get_elem?, get_elem?-append_end, All-set, All-get, any-append_end,
  get_elem?-set_self, get_elem?-set_ne, length-replicate, length-reverse,
}
use saito_rust_workspace.Bytes.{
  Bytes, AreBytes, IsArray, to_be_bytes, from_be_bytes, slice, index, bytes_eq, concat, zeros,
}
use saito_rust_workspace.Bytes.Endian.{
  length-to_be_bytes, to_be_bytes-AreBytes, from_be_bytes-to_be_bytes, to_be_bytes-from_be_bytes,
  from_be_bytes-lt,
}
use saito_rust_workspace.Bytes.Slices.{
  slice-append_skip, slice-append_self, slice-eq-ok, index-append_skip, bytes_eq_iff, bytes_eq_refl,
  slice_split, index_split, slice_in_range, drop-length, slice-IsArray, index-lt, zeros-IsArray,
  index_in_range,
}
use saito_rust_workspace.Outcome.{
  Outcome, ok, err, panic, ◌>>=◌, ◌>>◌, check, assert, ok_or, unwrap, >>=-eq-ok, ErrorKind,
  invalid_input, invalid_data, not_found,
}

pub record GhostChainSync : Type 0 where
  pub start : Bytes
  pub prehashes : List Bytes
  pub previous_block_hashes : List Bytes
  pub block_ids : List ℕ
  pub block_ts : List ℕ
  pub txs : List Bool
  pub gts : List Bool

-- `b as u8`
abbrev pub bit : Bool → ℕ
bit true = 1
bit false = 0

unfoldable pub serialize_ghost : GhostChainSync → Bytes
serialize_ghost g = concat (
    g.start
    ∷ to_be_bytes 4 (length g.prehashes % 2 ^ 32)
    ∷ concat g.prehashes
    ∷ concat g.previous_block_hashes
    ∷ concat (map (to_be_bytes 8) g.block_ids)
    ∷ concat (map (to_be_bytes 8) g.block_ts)
    ∷ map bit g.txs
    ∷ map bit g.gts
    ∷ [])

-- `count` parts of `size` bytes, from `start` on
unfoldable pub read_parts : Bytes → ℕ → ℕ → ℕ → Outcome (List Bytes)
read_parts bytes size start zero = ok []
read_parts bytes size start (suc count) = do
  part ← slice bytes start (start + size)
  parts ← read_parts bytes size (start + size) count
  ok (part ∷ parts)

-- A field of the blocks: the slice of `count` parts of `size` bytes, and its parts.
unfoldable pub read_field : Bytes → ℕ → ℕ → ℕ → Outcome (List Bytes)
unfolding read_parts
read_field buffer size start count =
    slice buffer start (start + count * size) >>= λ field. read_parts field size 0 count

-- `buf[i] != 0`
abbrev pub is_set : Bytes → Bool
is_set [] = false
is_set (b ∷ bs) = not (b == 0)

unfoldable pub deserialize_ghost : Bytes → Outcome GhostChainSync
unfolding read_field
deserialize_ghost bytes = do
  start ← slice bytes 0 32
  count_bytes ← slice bytes 32 36
  let count = from_be_bytes count_bytes
  buffer ← slice bytes 36 (length bytes)
  prehashes ← read_field buffer 32 0 count
  previous_block_hashes ← read_field buffer 32 (count * 32) count
  block_ids ← read_field buffer 8 (count * 64) count
  block_ts ← read_field buffer 8 (count * 72) count
  txs ← read_field buffer 1 (count * 80) count
  gts ← read_field buffer 1 (count * 81) count
  ok (record {
    start = start;
    prehashes = prehashes;
    previous_block_hashes = previous_block_hashes;
    block_ids = map from_be_bytes block_ids;
    block_ts = map from_be_bytes block_ts;
    txs = map is_set txs;
    gts = map is_set gts;
  })
