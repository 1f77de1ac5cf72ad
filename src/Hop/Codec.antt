-- ===== src/Hop/Codec.antt =====
-- The wire format of a hop: both directions of saito-core/src/core/consensus/hop.rs.
use saito_rust_workspace.Prelude.{
  ℕ, suc, ◌≡◌, refl, some, List, [], ◌∷◌, append-nil, arith, length, get_elem?,
}
use saito_rust_workspace.Bytes.{Bytes, slice, concat}
use saito_rust_workspace.Outcome.{ok}
use saito_rust_workspace.Bytes.Layout.{Sized, offset, length-concat, slice_part}
use saito_rust_workspace.Hop.{Hop, IsWellSized, serialize_for_net, deserialize_from_net, hop_size}

abbrev layout : List ℕ
layout = 33 ∷ 33 ∷ 64 ∷ []

abbrev parts : Hop → List Bytes
parts h = h.from ∷ h.to ∷ h.sig ∷ []

parts-Sized : (h : Hop) → IsWellSized h → Sized layout (parts h)
parts-Sized h w = omega arith

pub length-serialize_for_net : (h : Hop) → IsWellSized h → length (serialize_for_net h) ≡ hop_size
unfolding serialize_for_net
length-serialize_for_net h w = length-concat layout (parts h) (parts-Sized h w)

-- A hop of arrays of the right sizes is read back from its bytes.
pub deserialize_from_net-serialize_for_net :
    (h : Hop) → IsWellSized h → deserialize_from_net (serialize_for_net h) ≡ ok h
unfolding deserialize_from_net serialize_for_net
deserialize_from_net-serialize_for_net h w =
    rw (length-concat layout (parts h) z, part 0 refl, part 1 refl, part 2 refl)
  where
    z : Sized layout (parts h)
    z = parts-Sized h w

    part :
        (i : ℕ) {p : Bytes}
        → get_elem? (parts h) i ≡ some p
        → slice (concat (parts h)) (offset layout i) (offset layout (suc i)) ≡ ok p
    part i e = rw append-nil at (slice_part layout (parts h) z [] i e)
