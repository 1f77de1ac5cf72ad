-- ===== src/GoldenTicket/Codec.antt =====
-- The bytes of a golden ticket, saito-core/src/core/consensus/golden_ticket.rs.
use saito_rust_workspace.Prelude.{
  ℕ, suc, ◌≡◌, refl, some, List, [], ◌∷◌, append-nil, arith, length, get_elem?,
}
use saito_rust_workspace.Bytes.{Bytes, slice, concat}
use saito_rust_workspace.Outcome.{ok}
use saito_rust_workspace.Bytes.Layout.{Sized, offset, length-concat, slice_part}
use saito_rust_workspace.GoldenTicket.{GoldenTicket, serialize_for_net, deserialize_from_net, new}

abbrev layout : List ℕ
layout = 32 ∷ 32 ∷ 33 ∷ []

abbrev pub parts : GoldenTicket → List Bytes
parts t = t.target ∷ t.random ∷ t.public_key ∷ []

-- A golden ticket of a hash of 32 bytes, 32 random bytes and a key of 33 bytes is read back.
pub golden_ticket_round_trip :
    (t : GoldenTicket)
    → length t.target ≡ 32
    → length t.random ≡ 32
    → length t.public_key ≡ 33
    → deserialize_from_net (serialize_for_net t) ≡ ok t
unfolding deserialize_from_net serialize_for_net new
golden_ticket_round_trip t a b c =
    rw (length-concat layout (parts t) z, part 0 refl, part 1 refl, part 2 refl)
  where
    z : Sized layout (parts t)
    z = omega arith

    part :
        (i : ℕ) {p : Bytes}
        → get_elem? (parts t) i ≡ some p
        → slice (concat (parts t)) (offset layout i) (offset layout (suc i)) ≡ ok p
    part i e = rw append-nil at (slice_part layout (parts t) z [] i e)
