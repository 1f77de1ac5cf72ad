-- ===== src/RingItem/Delete.antt =====
-- What `delete_block` of saito-core/src/core/consensus/ringitem.rs does to a slot.
use saito_rust_workspace.Prelude.{
  ℕ, zero, suc, ◌+◌, ◌<◌, ◌≡◌, refl, Bool, true, false, not, ◌&&◌, Option, none, some, List, [],
  ◌∷◌, map, arith, ◌==◌, if◌then◌else◌, length, keep_if,
}
use saito_rust_workspace.Bytes.{Bytes, bytes_eq}
use saito_rust_workspace.Outcome.{ok}
use saito_rust_workspace.RingItem.{RingItem, delete_block, delete_loop, is_at}

-- the blocks of a slot, as pairs
abbrev pub blocks : List ℕ → List Bytes → List (ℕ × Bytes)
blocks [] hashes = []
blocks (b ∷ ids) [] = []
blocks (b ∷ ids) (h ∷ hashes) = (b, h) ∷ blocks ids hashes

abbrev pub blocks_of : RingItem → List (ℕ × Bytes)
blocks_of item = blocks item.block_ids item.block_hashes

-- the block is another one than the one deleted
abbrev pub is_other : ℕ → Bytes → ℕ × Bytes → Bool
is_other block_id hash x = not (x.0 == block_id && bytes_eq x.1 hash)

-- where position `j` goes when the deleted blocks are left out, if its block stays
abbrev pub moved : ℕ → Bytes → List (ℕ × Bytes) → ℕ → Option ℕ
moved block_id hash [] j = none
moved block_id hash (x ∷ xs) zero = if is_other block_id hash x then some 0 else none
moved block_id hash (x ∷ xs) (suc j) = elim (moved block_id hash xs j) [
  | none ↦ none
  | some k ↦ some (if is_other block_id hash x then suc k else k)
]

-- the new `lc_pos`, by the loop alone
lc_after : Option ℕ → ℕ → Bytes → ℕ → ℕ → Option ℕ → List (ℕ × Bytes) → Option ℕ
lc_after lc block_id hash i k new [] = new
lc_after lc block_id hash i k new (x ∷ xs) = elim (is_other block_id hash x) [
  | true ↦ lc_after lc block_id hash (i + 1) (k + 1) (if is_at lc i then some k else new) xs
  | false ↦ lc_after lc block_id hash (i + 1) k new xs
]

module _ (block_id : ℕ) (hash : Bytes) where
  delete_loop-eq :
      (lc : Option ℕ) (i k : ℕ) (new : Option ℕ) (ids : List ℕ) (hashes : List Bytes)
      → length ids ≡ length hashes
      → let kept = keep_if (is_other block_id hash) (blocks ids hashes) in
        delete_loop lc block_id hash i k new ids hashes
        ≡ ok (
          map (λ x. x.1) kept,
          map (λ x. x.0) kept,
          lc_after lc block_id hash i k new (blocks ids hashes),
        )
  unfolding delete_loop lc_after
  delete_loop-eq lc i k new [] [] e = refl
  delete_loop-eq lc i k new [] (h ∷ hs) e = absurd (omega arith)
  delete_loop-eq lc i k new (b ∷ ids) [] e = absurd (omega arith)
  delete_loop-eq lc i k new (b ∷ ids) (h ∷ hs) e = ground (
    arith,
    delete_loop-eq lc (i + 1) k new ids hs,
    delete_loop-eq lc (i + 1) (k + 1) (if is_at lc i then some k else new) ids hs,
  )

  -- Once the position of the longest chain is passed, or if there is none, nothing changes.
  lc_after_passed :
      (lc : Option ℕ) (i k : ℕ) (new : Option ℕ) (xs : List (ℕ × Bytes))
      → ((j : ℕ) → lc ≡ some j → j < i)
      → lc_after lc block_id hash i k new xs ≡ new
  unfolding lc_after is_at
  lc_after_passed lc i k new [] h = refl
  lc_after_passed none i k new (x ∷ xs) h = ground (
    arith,
    lc_after_passed none (i + 1) (k + 1) new xs (λ j e. cc),
    lc_after_passed none (i + 1) k new xs (λ j e. cc),
  )
  lc_after_passed (some l) i k new (x ∷ xs) h = ground (
    arith,
    h l refl,
    lc_after_passed (some l) (i + 1) (k + 1) new xs (λ j e. ground (arith, h j e)),
    lc_after_passed (some l) (i + 1) k new xs (λ j e. ground (arith, h j e)),
  )

  -- Before it, the new position is that of the same block, if it stays.
  lc_after_ahead :
      (i j k : ℕ) (new : Option ℕ) (xs : List (ℕ × Bytes))
      → lc_after (some (i + j)) block_id hash i k new xs
        ≡ elim (moved block_id hash xs j) [ none ↦ new | some m ↦ some (k + m) ]
  unfolding lc_after is_at
  lc_after_ahead i j k new [] = refl
  lc_after_ahead i zero k new (x ∷ xs) = ground (
    arith,
    lc_after_passed (some (i + 0)) (i + 1) (k + 1) (some k) xs (λ j e. ground arith),
    lc_after_passed (some (i + 0)) (i + 1) k new xs (λ j e. ground arith),
  )
  lc_after_ahead i (suc j) k new (x ∷ xs) =
      let e : i + 1 + j ≡ i + suc j = omega arith in
      ground (
        arith,
        rw e at (lc_after_ahead (i + 1) j (k + 1) new xs),
        rw e at (lc_after_ahead (i + 1) j k new xs),
      )

-- the new position, from the old one
abbrev pub new_lc_pos : ℕ → Bytes → RingItem → Option ℕ
new_lc_pos block_id hash item = elim item.lc_pos [
  | none ↦ some 0
  | some j ↦ elim (moved block_id hash (blocks_of item) j) [ none ↦ some 0 | some m ↦ some m ]
]

lc_after_start :
    (block_id : ℕ) (hash : Bytes) (lc : Option ℕ) (xs : List (ℕ × Bytes))
    → lc_after lc block_id hash 0 0 (some 0) xs ≡ elim lc [
      | none ↦ some 0
      | some j ↦ elim (moved block_id hash xs j) [ none ↦ some 0 | some m ↦ some m ]
    ]
lc_after_start block_id hash none xs =
    lc_after_passed block_id hash none 0 0 (some 0) xs (λ j e. cc)
lc_after_start block_id hash (some j) xs =
    let e : 0 + j ≡ j = omega arith in
    ground (arith, rw e at (lc_after_ahead block_id hash 0 j 0 (some 0) xs))

-- `delete_block` on a slot with a hash for each id does not panic, and leaves the other blocks in
-- their order. The new `lc_pos` is the position of the same block if that block stays, and 0
-- otherwise: also where the slot had none.
pub delete_block_lem :
    (item : RingItem) (block_id : ℕ) (hash : Bytes)
    → length item.block_ids ≡ length item.block_hashes
    → let kept = keep_if (is_other block_id hash) (blocks_of item) in
      delete_block item block_id hash
      ≡ ok (record {
        block_hashes = map (λ x. x.1) kept;
        block_ids = map (λ x. x.0) kept;
        lc_pos = new_lc_pos block_id hash item;
      })
unfolding delete_block
delete_block_lem item block_id hash e = rw (
  delete_loop-eq block_id hash item.lc_pos 0 0 (some 0) item.block_ids item.block_hashes e,
  lc_after_start block_id hash item.lc_pos (blocks_of item),
)
