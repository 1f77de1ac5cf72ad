-- ===== src/Version.antt =====
-- saito-core/src/core/process/version.rs: versions of the software, which peers exchange. The
-- fields are `u8`, `u8` and `u16`.
pub mod Codec
pub mod Order
use saito_rust_workspace.Prelude.{
  ℕ, zero, suc, ◌+◌, ◌-◌, ◌*◌, ◌/◌, ◌%◌, ◌^◌, ◌≤◌, ◌<◌, min, max, ◌≡◌, ◌≢◌, ◌↔◌, ◌⊎◌, refl, sym, ap,
  ap₂, ◌∙◌, fun_ext, Bool, true, false, not, ◌&&◌, ◌||◌, Option, none, some, inl, inr, List, [],
  ◌∷◌, ◌++◌, map, reverse, append-nil, append_assoc, arith, dec_lt, ℕ_discrete, ltb, leb, ◌==◌,
  if◌then◌else◌, ltb→lt, lt→ltb, leb→le, ==_iff, tests, Bool-cases, Option-cases, length, get_elem?,
  set, get_or, take, drop, replicate, length-append, length-set, length-take, length-drop,
  length-map, take-append-drop, All, any, keep_if, All-append, All-append_left, All-append_right,
  get_elem?_in_range, lt_of_get_elem?, get_elem?-append_end, All-set, All-get, any-append_end,
  get_elem?-set_self, get_elem?-set_ne,
}
use saito_rust_workspace.Bytes.{
  Bytes, AreBytes, IsArray, to_be_bytes, from_be_bytes, slice, index, bytes_eq, concat, zeros,
}
use saito_rust_workspace.Bytes.Endian.{
  length-to_be_bytes, to_be_bytes-AreBytes, from_be_bytes-to_be_bytes, to_be_bytes-from_be_bytes,
  from_be_bytes-lt,
}
use saito_rust_workspace.Bytes.Slices.{
  slice-append_skip, slice-append_self, slice-eq-ok, index-append_skip, bytes_eq_iff, bytes_eq_refl,
  slice_split, index_split, slice_in_range, drop-length, slice-IsArray, index-lt, index_in_range,
}
use saito_rust_workspace.Outcome.{
  Outcome, ok, err, panic, ◌>>=◌, ◌>>◌, check, assert, ok_or, unwrap, >>=-eq-ok, ErrorKind,
  invalid_input, invalid_data, not_found,
}

pub record Version : Type 0 where
  pub major : ℕ
  pub minor : ℕ
  pub patch : ℕ

abbrev pub version_size : ℕ
version_size = 4

unfoldable pub is_set : Version → Bool
is_set v = not (v.major == 0 && (v.minor == 0 && v.patch == 0))

unfoldable pub new : ℕ → ℕ → ℕ → Version
new major minor patch = record { major = major; minor = minor; patch = patch }

unfoldable pub is_same_minor_version : Version → Version → Bool
unfolding is_set
is_same_minor_version v version = is_set v && (v.major == version.major && v.minor == version.minor)

unfoldable pub serialize : Version → Bytes
serialize v = (v.major ∷ v.minor ∷ []) ++ to_be_bytes 2 v.patch

unfoldable pub deserialize : Bytes → Outcome Version
deserialize buffer = do
  check (not (ltb (length buffer) version_size)) invalid_data
  major ← ok_or (get_elem? buffer 0) invalid_input
  minor ← ok_or (get_elem? buffer 1) invalid_input
  high ← ok_or (get_elem? buffer 2) invalid_input
  low ← ok_or (get_elem? buffer 3) invalid_input
  ok (record { major = major; minor = minor; patch = from_be_bytes (high ∷ low ∷ []) })

-- `==`
unfoldable pub eq : Version → Version → Bool
eq v other = v.major == other.major && (v.minor == other.minor && v.patch == other.patch)

-- `std::cmp::Ordering`
pub data Ordering : Type 0 where
  less equal greater : Ordering

-- `cmp` of two integers
unfoldable pub compare_numbers : ℕ → ℕ → Ordering
compare_numbers a b = if ltb a b then less else if ltb b a then greater else equal

-- The source never gives `none`.
unfoldable pub partial_cmp : Version → Version → Option Ordering
unfolding compare_numbers
partial_cmp v other =
    if ltb v.major other.major
    then some less
    else if ltb other.major v.major
    then some greater
    else if ltb v.minor other.minor
    then some less
    else if ltb other.minor v.minor
    then some greater
    else some (compare_numbers v.patch other.patch)
