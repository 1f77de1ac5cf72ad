-- ===== src/GoldenTicket.antt =====
-- saito-core/src/core/consensus/golden_ticket.rs: the solution of a miner. The hash function and the
-- leading zeros of a `U256` come from other crates: they are arguments.
pub mod Codec
use saito_rust_workspace.Prelude.{
  ℕ, zero, suc, ◌+◌, ◌-◌, ◌*◌, ◌/◌, ◌%◌, ◌^◌, ◌≤◌, ◌<◌, min, max, ◌≡◌, ◌≢◌, ◌↔◌, ◌⊎◌, refl, sym, ap,
  ap₂, ◌∙◌, fun_ext, Bool, true, false, not, ◌&&◌, ◌||◌, Option, none, some, inl, inr, List, [],
  ◌∷◌, ◌++◌, map, reverse, append-nil, append_assoc, arith, dec_lt, ℕ_discrete, ltb, leb, ◌==◌,
  if◌then◌else◌, ltb→lt, lt→ltb, leb→le, ==_iff, tests, Bool-cases, Option-cases, length, get_elem?,
  set, get_or, take, drop, replicate, length-append, length-set, length-take, length-drop,
  length-map, take-append-drop, All, any, keep_if, All-append, All-append_left, All-append_right,
  get_elem?_in_range, lt_of_get_elem?, get_elem?-append_end, All-set, All-get, any-append_end,
  get_elem?-set_self, get_elem?-set_ne,
}
use saito_rust_workspace.Bytes.{
  Bytes, AreBytes, IsArray, to_be_bytes, from_be_bytes, slice, index, bytes_eq, concat, zeros,
}
use saito_rust_workspace.Bytes.Endian.{
  length-to_be_bytes, to_be_bytes-AreBytes, from_be_bytes-to_be_bytes, to_be_bytes-from_be_bytes,
  from_be_bytes-lt,
}
use saito_rust_workspace.Bytes.Slices.{
  slice-append_skip, slice-append_self, slice-eq-ok, index-append_skip, bytes_eq_iff, bytes_eq_refl,
  slice_split, index_split, slice_in_range, drop-length, slice-IsArray, index-lt, index_in_range,
}
use saito_rust_workspace.Outcome.{
  Outcome, ok, err, panic, ◌>>=◌, ◌>>◌, check, assert, ok_or, unwrap, >>=-eq-ok, ErrorKind,
  invalid_input, invalid_data, not_found,
}

pub record GoldenTicket : Type 0 where
  pub target : Bytes
  pub random : Bytes
  pub public_key : Bytes

unfoldable pub new : Bytes → Bytes → Bytes → GoldenTicket
new target random public_key = record { target = target; random = random; public_key = public_key }

unfoldable pub create : Bytes → Bytes → Bytes → GoldenTicket
unfolding new
create previous_block_hash random_bytes public_key = new previous_block_hash random_bytes public_key

unfoldable pub deserialize_from_net : Bytes → Outcome GoldenTicket
unfolding new
deserialize_from_net bytes = do
  assert (length bytes == 97)
  target ← slice bytes 0 32
  random ← slice bytes 32 64
  public_key ← slice bytes 64 97
  ok (new target random public_key)

unfoldable pub serialize_for_net : GoldenTicket → Bytes
serialize_for_net t = concat (t.target ∷ t.random ∷ t.public_key ∷ [])

-- `difficulty as u32` keeps the low 32 bits.
unfoldable pub validate_hashing_difficulty : (Bytes → ℕ) → Bytes → ℕ → Bool
validate_hashing_difficulty leading_zeros solution_hash difficulty =
    leb (difficulty % 2 ^ 32) (leading_zeros solution_hash)

unfoldable pub validate : (Bytes → Bytes) → (Bytes → ℕ) → GoldenTicket → ℕ → Bool
unfolding validate_hashing_difficulty serialize_for_net
validate hash leading_zeros t difficulty =
    validate_hashing_difficulty leading_zeros (hash (serialize_for_net t)) difficulty
