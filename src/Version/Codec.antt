-- ===== src/Version/Codec.antt =====
-- The bytes of a version, saito-core/src/core/process/version.rs.
use saito_rust_workspace.Prelude.{ℕ, ◌<◌, ◌≡◌, refl, false, [], ◌∷◌, ◌++◌, arith, ltb, length}
use saito_rust_workspace.Bytes.{Bytes, to_be_bytes, from_be_bytes}
use saito_rust_workspace.Bytes.Endian.{length-to_be_bytes, from_be_bytes-to_be_bytes}
use saito_rust_workspace.Outcome.{ok}
use saito_rust_workspace.Version.{Version, serialize, deserialize, version_size}

-- the fields have the sizes of their types
pub record IsVersion (v : Version) : Type 0 where
  pub major : v.major < 256
  pub minor : v.minor < 256
  pub patch : v.patch < 65536

two_bytes : (bs : Bytes) → length bs ≡ 2 → (high low : ℕ) × (bs ≡ high ∷ low ∷ [])
two_bytes [] h = absurd (omega (arith, h))
two_bytes (a ∷ []) h = absurd (omega (arith, h))
two_bytes (a ∷ b ∷ []) h = (a, b, refl)
two_bytes (a ∷ b ∷ c ∷ bs) h = absurd (omega (arith, h))

-- A version is read back from its bytes, whatever follows them.
pub deserialize-serialize :
    (v : Version) → IsVersion v → (rest : Bytes) → deserialize (serialize v ++ rest) ≡ ok v
unfolding deserialize serialize
deserialize-serialize v w rest =
    let (high, low, e) = two_bytes (to_be_bytes 2 v.patch) (length-to_be_bytes 2 v.patch) in
    let patch : from_be_bytes (high ∷ low ∷ []) ≡ v.patch =
      rw (← e) (from_be_bytes-to_be_bytes 2 v.patch w.patch) in
    let long : ltb (length ((v.major ∷ v.minor ∷ high ∷ low ∷ []) ++ rest)) version_size ≡ false =
      ground arith in
    rw (e, long, patch)

pub length-serialize : (v : Version) → length (serialize v) ≡ version_size
unfolding serialize
length-serialize v = ground (arith, length-to_be_bytes 2 v.patch)
