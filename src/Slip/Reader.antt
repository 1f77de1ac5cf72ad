-- ===== src/Slip/Reader.antt =====
-- What `deserialize_from_net` of saito-core/src/core/consensus/slip.rs makes of any bytes.
use saito_rust_workspace.Prelude.{
  ℕ, ◌-◌, ◌≤◌, ◌<◌, ◌≡◌, ◌≢◌, ◌⊎◌, sym, ◌∙◌, none, some, inl, inr, arith, ℕ_discrete, ==_iff,
  Option-cases, length, take, drop,
}
use saito_rust_workspace.Bytes.{Bytes, AreBytes, IsArray, from_be_bytes, slice, index}
use saito_rust_workspace.Bytes.Endian.{to_be_bytes-from_be_bytes, from_be_bytes-lt}
use saito_rust_workspace.Bytes.Slices.{slice_in_range, slice-IsArray, index-lt, index_in_range}
use saito_rust_workspace.Outcome.{ok, err, ◌>>=◌, ok_or, invalid_input, invalid_data}
use saito_rust_workspace.Bytes.Layout.{cover_slice, cover_index, cover_end}
use saito_rust_workspace.Slip.{
  SlipType, to_u8, from_u8, Slip, IsWellSized, serialize_for_net, deserialize_from_net, default,
  slip_size,
}
use saito_rust_workspace.Slip.Codec.{to_u8-from_u8}

-- A type byte is refused from 10 on.
from_u8-none : (b : ℕ) → from_u8 b ≡ none → 10 ≤ b
unfolding from_u8
from_u8-none b h = ground arith

from_u8-some : (b : ℕ) {t : SlipType} → from_u8 b ≡ some t → b < 10
unfolding from_u8
from_u8-some b h = ground arith

-- the bytes between two ends
abbrev field : Bytes → ℕ → ℕ → Bytes
field bs a b = take (b - a) (drop a bs)

-- the slip that the reader makes of 59 bytes
abbrev read : Bytes → ℕ → SlipType → Slip
read bs i t = record default {
  public_key = field bs 0 33;
  amount = from_be_bytes (field bs 33 41);
  block_id = from_be_bytes (field bs 41 49);
  tx_ordinal = from_be_bytes (field bs 49 57);
  slip_index = i;
  slip_type = t;
}

module _ (bs : Bytes) (e : length bs ≡ slip_size) where
  deserialize-eq :
      {i v : ℕ}
      → index bs 57 ≡ ok i
      → index bs 58 ≡ ok v
      → deserialize_from_net bs ≡ (ok_or (from_u8 v) invalid_data >>= λ t. ok (read bs i t))
  unfolding deserialize_from_net
  deserialize-eq hi hv = rw (
    e,
    slice_in_range bs 0 33 (omega arith) (omega arith),
    slice_in_range bs 33 41 (omega arith) (omega arith),
    slice_in_range bs 41 49 (omega arith) (omega arith),
    slice_in_range bs 49 57 (omega arith) (omega arith),
    hi,
    hv,
  )

  last_bytes : (i v : ℕ) × (index bs 57 ≡ ok i) × (index bs 58 ≡ ok v)
  last_bytes =
      let (i, hi) = index_in_range bs 57 (omega arith) in
      let (v, hv) = index_in_range bs 58 (omega arith) in (i, v, hi, hv)

-- Anything but 59 bytes is refused as invalid input.
deserialize_wrong_length :
    (bs : Bytes) → length bs ≢ slip_size → deserialize_from_net bs ≡ err invalid_input
unfolding deserialize_from_net
deserialize_wrong_length bs ne = ground (arith, ==_iff (length bs) slip_size)

length_of_deserialize :
    (bs : Bytes) {s : Slip} → deserialize_from_net bs ≡ ok s → length bs ≡ slip_size
unfolding deserialize_from_net
length_of_deserialize bs e = ground (arith, ==_iff (length bs) slip_size)

-- What the reader makes of a byte string: an error of the first kind if there are not 59 bytes;
-- else an error of the second kind if the last byte is 10 or more, and a slip if it is less. It
-- never panics.
pub deserialize_from_net_cases :
    (bs : Bytes)
    → ((length bs ≢ slip_size) × (deserialize_from_net bs ≡ err invalid_input))
      ⊎ ((length bs ≡ slip_size)
          × ((v : ℕ) × (index bs 58 ≡ ok v)
              × (((10 ≤ v) × (deserialize_from_net bs ≡ err invalid_data))
                  ⊎ ((v < 10) × ((s : Slip) × (deserialize_from_net bs ≡ ok s))))))
deserialize_from_net_cases bs = elim (ℕ_discrete (length bs) slip_size) [
  | no ne ↦ inl (ne, deserialize_wrong_length bs ne)
  | yes e ↦
      let (i, v, hi, hv) = last_bytes bs e in
      inr (
        e,
        (
          v,
          hv,
          elim (Option-cases (from_u8 v)) [
            | inl bad ↦ inl (from_u8-none v bad, rw (deserialize-eq bs e hi hv, bad))
            | inr (t, good) ↦
                inr (from_u8-some v good, (read bs i t, rw (deserialize-eq bs e hi hv, good)))
          ],
        ),
      )
]

-- An accepted slip is the one read from the bytes.
accepted :
    (bs : Bytes) {s : Slip}
    → deserialize_from_net bs ≡ ok s
    → (length bs ≡ slip_size)
      × ((i : ℕ) × (t : SlipType) × (index bs 57 ≡ ok i)
          × (index bs 58 ≡ ok (to_u8 t))
          × (s ≡ read bs i t))
accepted bs {s} h =
    let e = length_of_deserialize bs h in
    let (i, v, hi, hv) = last_bytes bs e in
    (e, from_type i v hi hv (deserialize-eq bs e hi hv) (Option-cases (from_u8 v)))
  where
    from_type :
        (i v : ℕ)
        → index bs 57 ≡ ok i
        → index bs 58 ≡ ok v
        → deserialize_from_net bs ≡ (ok_or (from_u8 v) invalid_data >>= λ t. ok (read bs i t))
        → (from_u8 v ≡ none) ⊎ ((t : SlipType) × (from_u8 v ≡ some t))
        → (i : ℕ) × (t : SlipType) × (index bs 57 ≡ ok i)
          × (index bs 58 ≡ ok (to_u8 t))
          × (s ≡ read bs i t)
    from_type i v hi hv eq (inl bad) = cc (rw bad at eq)
    from_type i v hi hv eq (inr (t, good)) =
        let eq' : deserialize_from_net bs ≡ ok (read bs i t) = eq ∙ rw good in
        (i, t, hi, rw (to_u8-from_u8 v good) hv, cc)

module _ (bs : Bytes) (h : AreBytes bs) (e : length bs ≡ slip_size) where
  slice-field : (a b : ℕ) → a ≤ b → b ≤ slip_size → slice bs a b ≡ ok (field bs a b)
  slice-field a b p q = slice_in_range bs a b p (omega arith)

  field-IsArray : (a b : ℕ) → a ≤ b → b ≤ slip_size → IsArray (b - a) (field bs a b)
  field-IsArray a b p q = slice-IsArray bs a b h (slice-field a b p q)

  read-IsWellSized : (i : ℕ) (t : SlipType) → index bs 57 ≡ ok i → IsWellSized (read bs i t)
  read-IsWellSized i t hi = record {
    public_key_size = field-IsArray 0 33 (omega arith) (omega arith);
    amount_fits = from_be_bytes-lt 8 _ (field-IsArray 33 41 (omega arith) (omega arith));
    slip_index_fits = index-lt bs 57 h hi;
    block_id_fits = from_be_bytes-lt 8 _ (field-IsArray 41 49 (omega arith) (omega arith));
    tx_ordinal_fits = from_be_bytes-lt 8 _ (field-IsArray 49 57 (omega arith) (omega arith));
  }

  serialize-read :
      (i : ℕ) (t : SlipType)
      → index bs 57 ≡ ok i
      → index bs 58 ≡ ok (to_u8 t)
      → serialize_for_net (read bs i t) ≡ bs
  unfolding serialize_for_net
  serialize-read i t hi ht =
      rw
        (
          to_be_bytes-from_be_bytes 8 _ (field-IsArray 33 41 (omega arith) (omega arith)),
          to_be_bytes-from_be_bytes 8 _ (field-IsArray 41 49 (omega arith) (omega arith)),
          to_be_bytes-from_be_bytes 8 _ (field-IsArray 49 57 (omega arith) (omega arith)),
        )
        (sym (
          cover_slice bs 0 33 _ (slice-field 0 33 (omega arith) (omega arith)) (
            cover_slice bs 33 41 _ (slice-field 33 41 (omega arith) (omega arith)) (
              cover_slice bs 41 49 _ (slice-field 41 49 (omega arith) (omega arith)) (
                cover_slice bs 49 57 _ (slice-field 49 57 (omega arith) (omega arith))
                  (cover_index bs 57 _ hi (cover_index bs 58 _ ht (cover_end bs 59 e))))))))

-- What the reader accepts is the writer's output: the fields are in range, and the bytes are those
-- that the slip is written as.
pub serialize_for_net-deserialize_from_net :
    (bs : Bytes) {s : Slip}
    → AreBytes bs
    → deserialize_from_net bs ≡ ok s
    → IsWellSized s × (serialize_for_net s ≡ bs)
serialize_for_net-deserialize_from_net bs {s} h a =
    let (e, (i, t, hi, ht, q)) = accepted bs a in
    (rw q (read-IsWellSized bs h e i t hi), rw q (serialize-read bs h e i t hi ht))
