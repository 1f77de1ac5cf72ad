-- ===== src/Message/Ghost/RoundTrip.antt =====
-- A ghost chain is read back: saito-core/src/core/msg/ghost_chain_sync.rs.
use saito_rust_workspace.Prelude.{
  ℕ, suc, ◌+◌, ◌*◌, ◌%◌, ◌^◌, ◌<◌, ◌≡◌, refl, sym, ap, ap₂, ◌∙◌, Bool, true, false, some, List, [],
  ◌∷◌, ◌++◌, map, append-nil, append_assoc, arith, length, get_elem?, length-append, length-map,
  All,
}
use saito_rust_workspace.Bytes.{Bytes, to_be_bytes, from_be_bytes, slice, concat}
use saito_rust_workspace.Bytes.Endian.{length-to_be_bytes, from_be_bytes-to_be_bytes}
use saito_rust_workspace.Outcome.{ok, ◌>>=◌}
use native.Mathlib.Nat.{mod-eq_of_lt, suc-mul}
use saito_rust_workspace.Bytes.Layout.{Sized, offset, length-concat, slice_part}
use saito_rust_workspace.Message.Ghost.{
  GhostChainSync, bit, is_set, serialize_ghost, read_parts, read_field, deserialize_ghost,
}
use saito_rust_workspace.Transaction.Wire.Loops.{slice_middle}

-- parts of one size
pub read_parts-concat :
    (size : ℕ) (parts : List Bytes)
    → All (λ p. length p ≡ size) parts
    → (pre : Bytes) (start : ℕ) → length pre ≡ start
    → read_parts (pre ++ concat parts) size start (length parts) ≡ ok parts
unfolding read_parts concat
read_parts-concat size [] sized pre start here = refl
read_parts-concat size (p ∷ parts) sized pre start here =
    let rest : Bytes = concat parts in
    let one : slice (pre ++ (p ++ rest)) start (start + size) ≡ ok p =
      slice_middle pre p rest start (start + size) here (omega (arith, sized.0)) in
    let next : length (pre ++ p) ≡ start + size =
      omega (arith, here, sized.0, length-append pre p) in
    let below : read_parts (pre ++ (p ++ rest)) size (start + size) (length parts) ≡ ok parts =
      ap (λ b. read_parts b size (start + size) (length parts)) (sym (append_assoc pre p rest))
      ∙ read_parts-concat size parts sized.1 (pre ++ p) (start + size) next in
    ap
      (λ m. m >>= λ part.
        read_parts (pre ++ (p ++ rest)) size (start + size) (length parts) >>= λ ps. ok (part ∷ ps))
      one
    ∙ ap (λ m. m >>= λ ps. ok (p ∷ ps)) below

pub length-concat_parts :
    (size : ℕ) (parts : List Bytes)
    → All (λ p. length p ≡ size) parts
    → length (concat parts) ≡ length parts * size
unfolding concat
length-concat_parts size [] sized = omega arith
length-concat_parts size (p ∷ parts) sized = omega (
  arith,
  length-append p (concat parts),
  sized.0,
  length-concat_parts size parts sized.1,
  suc-mul (length parts) size,
)

-- a byte for each flag
abbrev pub flag_parts : List Bool → List Bytes
flag_parts flags = map (λ b. bit b ∷ []) flags

abbrev pub id_parts : List ℕ → List Bytes
id_parts ids = map (to_be_bytes 8) ids

flags-eq : (flags : List Bool) → map bit flags ≡ concat (flag_parts flags)
unfolding concat
flags-eq [] = refl
flags-eq (b ∷ flags) = ap (λ r. bit b ∷ r) (flags-eq flags)

flags_sized : (flags : List Bool) → All (λ p. length p ≡ 1) (flag_parts flags)
flags_sized [] = tt
flags_sized (b ∷ flags) = (refl, flags_sized flags)

flags_back : (flags : List Bool) → map is_set (flag_parts flags) ≡ flags
flags_back [] = refl
flags_back (true ∷ flags) = ap (λ r. true ∷ r) (flags_back flags)
flags_back (false ∷ flags) = ap (λ r. false ∷ r) (flags_back flags)

ids_sized : (ids : List ℕ) → All (λ p. length p ≡ 8) (id_parts ids)
ids_sized [] = tt
ids_sized (n ∷ ids) = (length-to_be_bytes 8 n, ids_sized ids)

ids_back : (ids : List ℕ) → All (λ n. n < 2 ^ 64) ids → map from_be_bytes (id_parts ids) ≡ ids
ids_back [] fits = refl
ids_back (n ∷ ids) fits = ap₂ ◌∷◌ (from_be_bytes-to_be_bytes 8 n fits.0) (ids_back ids fits.1)

-- every list has an entry for each block, and the entries are in range
pub record IsWellSized (g : GhostChainSync) : Type 0 where
  pub start_size : length g.start ≡ 32
  pub count_fits : length g.prehashes < 2 ^ 32
  pub prehashes_sized : All (λ p. length p ≡ 32) g.prehashes
  pub previous_sized : All (λ p. length p ≡ 32) g.previous_block_hashes
  pub ids_fit : All (λ n. n < 2 ^ 64) g.block_ids
  pub ts_fit : All (λ n. n < 2 ^ 64) g.block_ts
  pub previous_count : length g.previous_block_hashes ≡ length g.prehashes
  pub ids_count : length g.block_ids ≡ length g.prehashes
  pub ts_count : length g.block_ts ≡ length g.prehashes
  pub txs_count : length g.txs ≡ length g.prehashes
  pub gts_count : length g.gts ≡ length g.prehashes

module _ (g : GhostChainSync) (w : IsWellSized g) where
  abbrev n : ℕ
  n = length g.prehashes

  abbrev fields : List Bytes
  fields =
      concat g.prehashes
      ∷ concat g.previous_block_hashes
      ∷ concat (id_parts g.block_ids)
      ∷ concat (id_parts g.block_ts)
      ∷ concat (flag_parts g.txs)
      ∷ concat (flag_parts g.gts)
      ∷ []

  abbrev layout : List ℕ
  layout = n * 32 ∷ n * 32 ∷ n * 8 ∷ n * 8 ∷ n * 1 ∷ n * 1 ∷ []

  size_of :
      (size : ℕ) (parts : List Bytes)
      → All (λ p. length p ≡ size) parts
      → length parts ≡ n
      → length (concat parts) ≡ n * size
  size_of size parts sized count = length-concat_parts size parts sized ∙ ap (λ k. k * size) count

  fields-Sized : Sized layout fields
  fields-Sized = (
    size_of 32 g.prehashes w.prehashes_sized refl,
    (
      size_of 32 g.previous_block_hashes w.previous_sized w.previous_count,
      (
        size_of 8 (id_parts g.block_ids) (ids_sized g.block_ids)
            (length-map g.block_ids _ ∙ w.ids_count),
        (
          size_of 8 (id_parts g.block_ts) (ids_sized g.block_ts)
              (length-map g.block_ts _ ∙ w.ts_count),
          (
            size_of 1 (flag_parts g.txs) (flags_sized g.txs) (length-map g.txs _ ∙ w.txs_count),
            (
              size_of 1 (flag_parts g.gts) (flags_sized g.gts) (length-map g.gts _ ∙ w.gts_count),
              tt,
            ),
          ),
        ),
      ),
    ),
  )

  field_back :
      (i size start : ℕ) (parts : List Bytes)
      → get_elem? fields i ≡ some (concat parts)
      → offset layout i ≡ start
      → offset layout (suc i) ≡ start + n * size
      → All (λ p. length p ≡ size) parts
      → length parts ≡ n
      → read_field (concat fields) size start n ≡ ok parts
  unfolding read_field
  field_back i size start parts h e e' sized count =
      let taken : slice (concat fields) start (start + n * size) ≡ ok (concat parts) =
        ap (λ b. slice b start (start + n * size)) (sym (append-nil (concat fields)))
        ∙ ap₂ (slice (concat fields ++ [])) (sym e) (sym e')
        ∙ slice_part layout fields fields-Sized [] i h in
      ap (λ m. m >>= λ field. read_parts field size 0 n) taken
      ∙ ap (λ k. read_parts (concat parts) size 0 k) (sym count)
      ∙ read_parts-concat size parts sized [] 0 refl

  -- the whole text, in two parts
  text_eq : serialize_ghost g ≡ concat (g.start ∷ to_be_bytes 4 (n % 2 ^ 32) ∷ []) ++ concat fields
  unfolding serialize_ghost concat
  text_eq = rw (flags-eq g.txs, flags-eq g.gts) (simp (append_assoc, append-nil))

  start_eq : length (concat (g.start ∷ to_be_bytes 4 (n % 2 ^ 32) ∷ [])) ≡ 36
  start_eq = length-concat (32 ∷ 4 ∷ []) (g.start ∷ to_be_bytes 4 (n % 2 ^ 32) ∷ []) start_sized
    where
      start_sized : Sized (32 ∷ 4 ∷ []) (g.start ∷ to_be_bytes 4 (n % 2 ^ 32) ∷ [])
      start_sized = (w.start_size, (length-to_be_bytes 4 (n % 2 ^ 32), tt))

  -- A ghost chain whose lists have an entry for each block is read back from its bytes.
  pub deserialize_ghost-serialize_ghost : deserialize_ghost (serialize_ghost g) ≡ ok g
  unfolding deserialize_ghost
  deserialize_ghost-serialize_ghost =
      let first : List Bytes = g.start ∷ to_be_bytes 4 (n % 2 ^ 32) ∷ [] in
      let first_sized : Sized (32 ∷ 4 ∷ []) first =
        (w.start_size, (length-to_be_bytes 4 (n % 2 ^ 32), tt)) in
      let buffer : Bytes = concat fields in
      let all_of : length (concat first ++ buffer) ≡ 36 + length buffer =
        omega (arith, start_eq, length-append (concat first) buffer) in
      let rest_of : slice (concat first ++ buffer) 36 (36 + length buffer) ≡ ok buffer =
        ap (λ b. slice (concat first ++ b) 36 (36 + length buffer)) (sym (append-nil buffer))
        ∙ slice_middle (concat first) buffer [] 36 (36 + length buffer) start_eq refl in
      let count : from_be_bytes (to_be_bytes 4 (n % 2 ^ 32)) ≡ n =
        from_be_bytes-to_be_bytes 4 (n % 2 ^ 32) (omega arith) ∙ mod-eq_of_lt w.count_fits in
      rw (
        text_eq,
        slice_part (32 ∷ 4 ∷ []) first first_sized buffer 0 refl,
        slice_part (32 ∷ 4 ∷ []) first first_sized buffer 1 refl,
        all_of,
        rest_of,
        count,
        field_back 0 32 0 g.prehashes refl refl (omega arith) w.prehashes_sized refl,
        field_back 1 32 (n * 32) g.previous_block_hashes refl (omega arith) (omega arith)
            w.previous_sized w.previous_count,
        field_back 2 8 (n * 64) (id_parts g.block_ids) refl (omega arith) (omega arith)
            (ids_sized g.block_ids) (length-map g.block_ids _ ∙ w.ids_count),
        field_back 3 8 (n * 72) (id_parts g.block_ts) refl (omega arith) (omega arith)
            (ids_sized g.block_ts) (length-map g.block_ts _ ∙ w.ts_count),
        field_back 4 1 (n * 80) (flag_parts g.txs) refl (omega arith) (omega arith)
            (flags_sized g.txs) (length-map g.txs _ ∙ w.txs_count),
        field_back 5 1 (n * 81) (flag_parts g.gts) refl (omega arith) (omega arith)
            (flags_sized g.gts) (length-map g.gts _ ∙ w.gts_count),
        ids_back g.block_ids w.ids_fit,
        ids_back g.block_ts w.ts_fit,
        flags_back g.txs,
        flags_back g.gts,
      )
