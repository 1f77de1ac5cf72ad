-- ===== src/Version/Order.antt =====
-- The order of the versions, saito-core/src/core/process/version.rs.
use saito_rust_workspace.Prelude.{ℕ, ◌+◌, ◌*◌, ◌<◌, ◌≡◌, ◌↔◌, true, some, arith}
use saito_rust_workspace.Version.Codec.{IsVersion}
use saito_rust_workspace.Version.{Version, partial_cmp, eq, compare_numbers, less, equal, greater}

-- the place of a version among all
pub rank : Version → ℕ
rank v = (v.major * 256 + v.minor) * 65536 + v.patch

rank-major : (v w : Version) → IsVersion v → IsVersion w → v.major < w.major → rank v < rank w
unfolding rank
rank-major v w a b h = omega (arith, h, a.minor, a.patch)

rank-minor :
    (v w : Version)
    → IsVersion v
    → IsVersion w
    → v.major ≡ w.major
    → v.minor < w.minor
    → rank v < rank w
unfolding rank
rank-minor v w a b e h = omega (arith, e, h, a.patch)

rank-patch :
    (v w : Version)
    → v.major ≡ w.major
    → v.minor ≡ w.minor
    → compare_numbers (rank v) (rank w) ≡ compare_numbers v.patch w.patch
unfolding rank compare_numbers
rank-patch v w e e' = ground (arith, e, e')

less_numbers : (a b : ℕ) → a < b → (compare_numbers a b ≡ less) × (compare_numbers b a ≡ greater)
unfolding compare_numbers
less_numbers a b h = (ground (arith, h), ground (arith, h))

-- Two versions are ordered as the numbers are that their fields, the major one first, are the digits
-- of.
pub partial_cmp-rank :
    (v w : Version)
    → IsVersion v
    → IsVersion w
    → partial_cmp v w ≡ some (compare_numbers (rank v) (rank w))
unfolding partial_cmp
partial_cmp-rank v w a b = ground (
  arith,
  less_numbers (rank v) (rank w),
  less_numbers (rank w) (rank v),
  rank-major v w a b,
  rank-major w v b a,
  rank-minor v w a b,
  rank-minor w v b a,
  rank-patch v w,
)

-- Versions are equal exactly if neither is before the other.
pub partial_cmp-eq : (v w : Version) → (partial_cmp v w ≡ some equal) ↔ (eq v w ≡ true)
unfolding partial_cmp eq compare_numbers
partial_cmp-eq v w = (λ h. ground (arith, h), λ h. ground (arith, h))
