-- ===== src/Transaction/Wire/Loops.antt =====
-- The loops over slips and hops of saito-core/src/core/consensus/transaction.rs read back what was
-- written.
use saito_rust_workspace.Prelude.{
  ℕ, ◌+◌, ◌-◌, ◌*◌, ◌^◌, ◌≤◌, ◌<◌, ◌≡◌, refl, sym, ap, ap₂, ◌∙◌, some, List, [], ◌∷◌, ◌++◌, map,
  append_assoc, arith, length, length-append, All,
}
use saito_rust_workspace.Bytes.{Bytes, IsArray, slice, concat}
use saito_rust_workspace.Bytes.Slices.{slice-append_skip, slice-append_self}
use saito_rust_workspace.Outcome.{ok, ◌>>=◌}
use saito_rust_workspace.Slip
use saito_rust_workspace.Slip.{Slip, slip_size}
use saito_rust_workspace.Slip.Codec.{
  without_key, length-serialize_for_net as length-serialize_slip,
  deserialize_from_net-serialize_for_net as slip_round_trip,
}
use saito_rust_workspace.Hop
use saito_rust_workspace.Hop.{Hop, hop_size}
use saito_rust_workspace.Hop.Codec.{
  length-serialize_for_net as length-serialize_hop,
  deserialize_from_net-serialize_for_net as hop_round_trip,
}
use saito_rust_workspace.Transaction.{TransactionType, normal, Transaction}
use saito_rust_workspace.Transaction.Wire.{
  to_u8, from_u8, serialize_slips, serialize_hops, read_slips, read_hops,
}

pub from_u8-to_u8 : (t : TransactionType) → from_u8 (to_u8 t) ≡ some t
unfolding from_u8 to_u8
from_u8-to_u8 normal = refl
from_u8-to_u8 _ = refl

-- The ranges of the Rust field types, and the counts that the format has room for.
pub record IsWellSized (tx : Transaction) : Type 0 where
  pub timestamp_fits : tx.timestamp < 2 ^ 64
  pub from_sized : All Slip.IsWellSized tx.from
  pub to_sized : All Slip.IsWellSized tx.to
  pub from_count : length tx.from ≤ 255
  pub to_count : length tx.to ≤ 255
  pub message_fits : length tx.message < 2 ^ 32
  pub replacements_fit : tx.txs_replacements < 2 ^ 32
  pub signature_size : IsArray 64 tx.signature
  pub path_sized : All Hop.IsWellSized tx.path
  pub path_fits : length tx.path + 1 < 2 ^ 32

pub length-serialize_slips :
    (ss : List Slip) → All Slip.IsWellSized ss → length (serialize_slips ss) ≡ slip_size * length ss
unfolding serialize_slips concat
length-serialize_slips [] w = refl
length-serialize_slips (s ∷ ss) w = omega (
  arith,
  length-append (Slip.serialize_for_net s) (serialize_slips ss),
  length-serialize_slip s w.0.public_key_size.0,
  length-serialize_slips ss w.1,
)

pub length-serialize_hops :
    (hs : List Hop) → All Hop.IsWellSized hs → length (serialize_hops hs) ≡ hop_size * length hs
unfolding serialize_hops concat
length-serialize_hops [] w = refl
length-serialize_hops (h ∷ hs) w = omega (
  arith,
  length-append (Hop.serialize_for_net h) (serialize_hops hs),
  length-serialize_hop h w.0,
  length-serialize_hops hs w.1,
)

-- A part in the middle of a string.
pub slice_middle :
    (pre p rest : Bytes) (a b : ℕ)
    → length pre ≡ a
    → a + length p ≡ b
    → slice (pre ++ (p ++ rest)) a b ≡ ok p
slice_middle pre p rest a b e f =
    slice-append_skip pre (p ++ rest) a b a e (omega arith) (omega arith)
    ∙ ap₂ (slice (p ++ rest)) zero_eq end_eq
    ∙ slice-append_self p rest (length p) refl
  where
    zero_eq : a - a ≡ 0
    zero_eq = omega arith

    end_eq : b - a ≡ length p
    end_eq = omega arith

-- The loop over slips reads back what was written, wherever it stands.
pub read_slips-serialize_slips :
    (pre : Bytes) (ss : List Slip) (rest : Bytes) (start : ℕ)
    → length pre ≡ start
    → All Slip.IsWellSized ss
    → read_slips (pre ++ (serialize_slips ss ++ rest)) start (length ss) ≡ ok (map without_key ss)
unfolding read_slips serialize_slips concat
read_slips-serialize_slips pre [] rest start e w = refl
read_slips-serialize_slips pre (s ∷ ss) rest start e w =
    let one = Slip.serialize_for_net s in
    let len : length one ≡ slip_size = length-serialize_slip s w.0.public_key_size.0 in
    let bytes = pre ++ (serialize_slips (s ∷ ss) ++ rest) in
    let whole : bytes ≡ (pre ++ one) ++ (serialize_slips ss ++ rest) =
      ap (λ r. pre ++ r) (append_assoc one (serialize_slips ss) rest)
      ∙ sym (append_assoc pre one (serialize_slips ss ++ rest)) in
    let first : slice bytes start (start + slip_size) ≡ ok one =
      ap (λ r. slice (pre ++ r) start (start + slip_size))
        (append_assoc one (serialize_slips ss) rest)
      ∙ slice_middle pre one (serialize_slips ss ++ rest) start (start + slip_size) e
          (omega arith) in
    rw (first, slip_round_trip s w.0)
      (ap (λ r. r >>= λ ys. ok (without_key s ∷ ys))
        (ap (λ b. read_slips b (start + slip_size) (length ss)) whole
          ∙ read_slips-serialize_slips (pre ++ one) ss rest (start + slip_size)
              (omega (arith, length-append pre one)) w.1))

pub read_hops-serialize_hops :
    (pre : Bytes) (hs : List Hop) (rest : Bytes) (start : ℕ)
    → length pre ≡ start
    → All Hop.IsWellSized hs
    → read_hops (pre ++ (serialize_hops hs ++ rest)) start (length hs) ≡ ok hs
unfolding read_hops serialize_hops concat
read_hops-serialize_hops pre [] rest start e w = refl
read_hops-serialize_hops pre (h ∷ hs) rest start e w =
    let one = Hop.serialize_for_net h in
    let len : length one ≡ hop_size = length-serialize_hop h w.0 in
    let bytes = pre ++ (serialize_hops (h ∷ hs) ++ rest) in
    let whole : bytes ≡ (pre ++ one) ++ (serialize_hops hs ++ rest) =
      ap (λ r. pre ++ r) (append_assoc one (serialize_hops hs) rest)
      ∙ sym (append_assoc pre one (serialize_hops hs ++ rest)) in
    let first : slice bytes start (start + hop_size) ≡ ok one =
      ap (λ r. slice (pre ++ r) start (start + hop_size))
        (append_assoc one (serialize_hops hs) rest)
      ∙ slice_middle pre one (serialize_hops hs ++ rest) start (start + hop_size) e (omega arith) in
    rw (first, hop_round_trip h w.0)
      (ap (λ r. r >>= λ ys. ok (h ∷ ys))
        (ap (λ b. read_hops b (start + hop_size) (length hs)) whole
          ∙ read_hops-serialize_hops (pre ++ one) hs rest (start + hop_size)
              (omega (arith, length-append pre one)) w.1))
