-- ===== src/Bytes/Endian.antt =====
-- Big-endian integers: both round trips, the length and the range of the bytes.
use native.Mathlib.Nat.{pow-suc}
use mathlib.Core.List.{reverse-reverse}
use saito_rust_workspace.Prelude.{
  ℕ, zero, suc, ◌/◌, ◌^◌, ◌<◌, ◌≡◌, refl, ap, ap₂, ◌∙◌, [], ◌∷◌, reverse, length, length-reverse,
  All-reverse, arith,
}
use saito_rust_workspace.Bytes.{
  Bytes, AreBytes, IsArray, to_le, from_le, to_be_bytes, from_be_bytes,
}

from_le-to_le : (k n : ℕ) → n < 256 ^ k → from_le (to_le k n) ≡ n
unfolding from_le to_le
from_le-to_le zero n h = omega arith
from_le-to_le (suc k) n h = omega (arith, from_le-to_le k (n / 256) (omega (arith, pow-suc 256 k)))

to_le-from_le : (bs : Bytes) → AreBytes bs → to_le (length bs) (from_le bs) ≡ bs
unfolding from_le to_le
to_le-from_le [] h = refl
to_le-from_le (b ∷ bs) h =
    ap₂ ◌∷◌ (omega arith) (ap (to_le (length bs)) (omega arith) ∙ to_le-from_le bs h.1)

length-to_le : (k n : ℕ) → length (to_le k n) ≡ k
unfolding to_le
length-to_le zero n = refl
length-to_le (suc k) n = ap suc (length-to_le k (n / 256))

to_le-AreBytes : (k n : ℕ) → AreBytes (to_le k n)
unfolding to_le
to_le-AreBytes zero n = tt
to_le-AreBytes (suc k) n = (omega arith, to_le-AreBytes k (n / 256))

from_le-lt : (bs : Bytes) → AreBytes bs → from_le bs < 256 ^ length bs
unfolding from_le
from_le-lt [] h = omega arith
from_le-lt (b ∷ bs) h = omega (arith, from_le-lt bs h.1, pow-suc 256 (length bs))

pub length-to_be_bytes : (k n : ℕ) → length (to_be_bytes k n) ≡ k
unfolding to_be_bytes
length-to_be_bytes k n = length-reverse (to_le k n) ∙ length-to_le k n

pub to_be_bytes-AreBytes : (k n : ℕ) → AreBytes (to_be_bytes k n)
unfolding to_be_bytes
to_be_bytes-AreBytes k n = All-reverse _ (to_le k n) (to_le-AreBytes k n)

-- An integer that fits `k` bytes is read back as it was written.
pub from_be_bytes-to_be_bytes : (k n : ℕ) → n < 256 ^ k → from_be_bytes (to_be_bytes k n) ≡ n
unfolding from_be_bytes to_be_bytes
from_be_bytes-to_be_bytes k n h = rw reverse-reverse (from_le-to_le k n h)

-- An array of `k` bytes is written back as it was read.
pub to_be_bytes-from_be_bytes :
    (k : ℕ) (bs : Bytes) → IsArray k bs → to_be_bytes k (from_be_bytes bs) ≡ bs
unfolding from_be_bytes to_be_bytes
to_be_bytes-from_be_bytes k bs h = ap reverse digits ∙ reverse-reverse bs
  where
    e : length (reverse bs) ≡ k
    e = length-reverse bs ∙ h.0

    digits : to_le k (from_le (reverse bs)) ≡ reverse bs
    digits = rw (← e) (to_le-from_le (reverse bs) (All-reverse _ bs h.1))

pub from_be_bytes-lt : (k : ℕ) (bs : Bytes) → IsArray k bs → from_be_bytes bs < 256 ^ k
unfolding from_be_bytes
from_be_bytes-lt k bs h =
    rw (← h.0) (rw (← length-reverse bs) (from_le-lt (reverse bs) (All-reverse _ bs h.1)))
