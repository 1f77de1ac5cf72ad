-- ===== src/Bytes.antt =====
-- The parts of the standard library on byte strings that the wire formats use: `to_be_bytes`,
-- `from_be_bytes`, slices and indices. A byte is a number below 256; an array `[u8; n]` is a list
-- with its length stated where it matters.
pub mod Endian
pub mod Slices
pub mod Layout
use saito_rust_workspace.Prelude.{
  ℕ, zero, suc, ◌+◌, ◌-◌, ◌*◌, ◌/◌, ◌%◌, ◌<◌, ◌≡◌, Bool, true, false, List, [], ◌∷◌, ◌++◌, reverse,
  Option, none, some, All, length, take, drop, get_elem?, leb, ◌==◌, if◌then◌else◌, ◌&&◌,
}
use saito_rust_workspace.Outcome.{Outcome, ok, panic, unwrap}

abbrev pub Bytes : Type 0
Bytes = List ℕ

abbrev pub AreBytes : Bytes → Type 0
AreBytes bs = All (λ b. b < 256) bs

-- an array `[u8; n]`
abbrev pub IsArray : ℕ → Bytes → Type 0
IsArray n bs = (length bs ≡ n) × AreBytes bs

-- the `k` low digits of a number in base 256, least significant first
unfoldable pub to_le : ℕ → ℕ → Bytes
to_le zero n = []
to_le (suc k) n = n % 256 ∷ to_le k (n / 256)

unfoldable pub from_le : Bytes → ℕ
from_le [] = 0
from_le (b ∷ bs) = b + 256 * from_le bs

-- `n.to_be_bytes()` for an unsigned integer of `k` bytes
unfoldable pub to_be_bytes : ℕ → ℕ → Bytes
unfolding to_le
to_be_bytes k n = reverse (to_le k n)

-- `u64::from_be_bytes(..)` and the other widths
unfoldable pub from_be_bytes : Bytes → ℕ
unfolding from_le
from_be_bytes bs = from_le (reverse bs)

-- `bytes[a..b]`
unfoldable pub slice : Bytes → ℕ → ℕ → Outcome Bytes
slice bs a b = if leb a b && leb b (length bs) then ok (take (b - a) (drop a bs)) else panic

-- `bytes[i]`
unfoldable pub index : Bytes → ℕ → Outcome ℕ
index bs i = unwrap (get_elem? bs i)

-- `==` of two byte strings or arrays
unfoldable pub bytes_eq : Bytes → Bytes → Bool
bytes_eq [] [] = true
bytes_eq (a ∷ as') (b ∷ bs) = a == b && bytes_eq as' bs
bytes_eq _ _ = false

-- `parts.concat()`
unfoldable pub concat : List Bytes → Bytes
concat [] = []
concat (bs ∷ rest) = bs ++ concat rest

-- `[0; n]`
unfoldable pub zeros : ℕ → Bytes
zeros zero = []
zeros (suc n) = 0 ∷ zeros n
