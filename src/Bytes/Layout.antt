-- ===== src/Bytes/Layout.antt =====
-- Messages of parts of fixed sizes: where each part of a `concat` lies, and a string put together
-- again from its slices.
use saito_rust_workspace.Prelude.{
  ℕ, zero, suc, ◌+◌, ◌-◌, ◌≤◌, ◌≡◌, refl, sym, ap, ◌∙◌, some, List, [], ◌∷◌, ◌++◌, append_assoc,
  arith, length, get_elem?, drop, length-append,
}
use saito_rust_workspace.Bytes.{Bytes, slice, index, concat}
use saito_rust_workspace.Bytes.Slices.{
  slice-append_skip, slice-append_self, index-append_skip, slice_split, index_split, drop-length,
}
use saito_rust_workspace.Bytes.Slices.{
  slice-append_skip, slice-append_self, index-append_skip, slice_split, index_split, drop-length,
}
use native.Mathlib.Nat.{add-zero}
use saito_rust_workspace.Outcome.{ok}

-- The parts have the sizes `ks`.
abbrev pub Sized : List ℕ → List Bytes → Type 0
Sized [] [] = Unit
Sized (k ∷ ks) (p ∷ ps) = (length p ≡ k) × Sized ks ps
Sized _ _ = ⊥

-- where part `i` begins
abbrev pub offset : List ℕ → ℕ → ℕ
offset ks zero = 0
offset [] (suc i) = 0
offset (k ∷ ks) (suc i) = k + offset ks i

abbrev pub total : List ℕ → ℕ
total [] = 0
total (k ∷ ks) = k + total ks

pub length-concat : (ks : List ℕ) (ps : List Bytes) → Sized ks ps → length (concat ps) ≡ total ks
unfolding concat
length-concat [] [] z = refl
length-concat [] (p ∷ ps) z = elim z [ ]
length-concat (k ∷ ks) [] z = elim z [ ]
length-concat (k ∷ ks) (p ∷ ps) z =
    omega (arith, length-append p (concat ps), length-concat ks ps z.1, z.0)

offset_mono : (ks : List ℕ) (i : ℕ) → offset ks i ≤ offset ks (suc i)
offset_mono [] zero = omega arith
offset_mono [] (suc i) = omega arith
offset_mono (k ∷ ks) zero = omega arith
offset_mono (k ∷ ks) (suc i) = omega (arith, offset_mono ks i)

add-sub_cancel_left : (k n : ℕ) → k + n - k ≡ n
add-sub_cancel_left k n = omega arith

-- Part `i` is the slice from where it begins to where the next begins.
pub slice_part :
    (ks : List ℕ) (ps : List Bytes)
    → Sized ks ps
    → (rest : Bytes) (i : ℕ) {p : Bytes} → get_elem? ps i ≡ some p
    → slice (concat ps ++ rest) (offset ks i) (offset ks (suc i)) ≡ ok p
unfolding concat
slice_part [] [] z rest i h = cc
slice_part [] (q ∷ ps) z rest i h = elim z [ ]
slice_part (k ∷ ks) [] z rest i h = elim z [ ]
slice_part (k ∷ ks) (q ∷ ps) z rest zero {p} h =
    rw (append_assoc, add-zero, slice-append_self q (concat ps ++ rest) k z.0) (cc)
slice_part (k ∷ ks) (q ∷ ps) z rest (suc i) {p} h =
    rw
      (
        append_assoc,
        slice-append_skip q (concat ps ++ rest) (k + offset ks i) (k + offset ks (suc i)) k z.0
            (omega arith) (omega (arith, offset_mono ks i)),
        add-sub_cancel_left,
        add-sub_cancel_left,
      )
      (slice_part ks ps z.1 rest i h)

-- A part of one byte is read by its index.
pub index_part :
    (ks : List ℕ) (ps : List Bytes)
    → Sized ks ps
    → (rest : Bytes) (i : ℕ) {v : ℕ} → get_elem? ps i ≡ some (v ∷ [])
    → index (concat ps ++ rest) (offset ks i) ≡ ok v
unfolding concat index
index_part [] [] z rest i h = cc
index_part [] (q ∷ ps) z rest i h = elim z [ ]
index_part (k ∷ ks) [] z rest i h = elim z [ ]
index_part (k ∷ ks) (q ∷ ps) z rest zero {v} h = let e : q ≡ v ∷ [] = cc in rw e refl
index_part (k ∷ ks) (q ∷ ps) z rest (suc i) {v} h =
    rw
      (
        append_assoc,
        index-append_skip q (concat ps ++ rest) (k + offset ks i) k z.0 (omega arith),
        add-sub_cancel_left,
      )
      (index_part ks ps z.1 rest i h)

-- One more slice in front of parts that cover the rest.
pub cover_slice :
    (bs : Bytes) (a b : ℕ) {p : Bytes} (ps : List Bytes)
    → slice bs a b ≡ ok p
    → drop b bs ≡ concat ps
    → drop a bs ≡ concat (p ∷ ps)
unfolding concat
cover_slice bs a b {p} ps h e = sym (slice_split bs a b h) ∙ ap (λ r. p ++ r) e

pub cover_index :
    (bs : Bytes) (i : ℕ) {v : ℕ} (ps : List Bytes)
    → index bs i ≡ ok v
    → drop (suc i) bs ≡ concat ps
    → drop i bs ≡ concat ((v ∷ []) ∷ ps)
unfolding concat
cover_index bs i {v} ps h e = sym (index_split bs i h) ∙ ap (λ r. v ∷ r) e

-- Where a string ends, no part is left.
pub cover_end : (bs : Bytes) (n : ℕ) → length bs ≡ n → drop n bs ≡ concat []
unfolding concat
cover_end bs n e = rw (← e) (drop-length bs)
