-- ===== src/Block/Wire/Header.antt =====
-- The header of a block is read back: saito-core/src/core/consensus/block.rs.
use saito_rust_workspace.Prelude.{
  ℕ, suc, ◌+◌, ◌^◌, ◌<◌, ◌≡◌, refl, sym, ap, ap₂, ◌∙◌, some, List, [], ◌∷◌, ◌++◌, length, get_elem?,
}
use saito_rust_workspace.Bytes.{Bytes, to_be_bytes, from_be_bytes, slice, concat}
use saito_rust_workspace.Bytes.Endian.{length-to_be_bytes, from_be_bytes-to_be_bytes}
use saito_rust_workspace.Outcome.{ok, ◌>>=◌}
use saito_rust_workspace.Bytes.Layout.{Sized, offset, slice_part}
use saito_rust_workspace.Block.{Block, new}
use saito_rust_workspace.Block.Wire.{header_fields, read_header, u64_at}

-- the fields that travel fit their types
pub record IsWellSized (b : Block) : Type 0 where
  pub id_fits : b.id < 2 ^ 64
  pub timestamp_fits : b.timestamp < 2 ^ 64
  pub graveyard_fits : b.graveyard < 2 ^ 64
  pub treasury_fits : b.treasury < 2 ^ 64
  pub burnfee_fits : b.burnfee < 2 ^ 64
  pub difficulty_fits : b.difficulty < 2 ^ 64
  pub avg_total_fees_fits : b.avg_total_fees < 2 ^ 64
  pub avg_fee_per_byte_fits : b.avg_fee_per_byte < 2 ^ 64
  pub avg_nolan_rebroadcast_per_block_fits : b.avg_nolan_rebroadcast_per_block < 2 ^ 64
  pub previous_block_unpaid_fits : b.previous_block_unpaid < 2 ^ 64
  pub avg_total_fees_new_fits : b.avg_total_fees_new < 2 ^ 64
  pub avg_total_fees_atr_fits : b.avg_total_fees_atr < 2 ^ 64
  pub avg_payout_routing_fits : b.avg_payout_routing < 2 ^ 64
  pub avg_payout_mining_fits : b.avg_payout_mining < 2 ^ 64
  pub avg_payout_treasury_fits : b.avg_payout_treasury < 2 ^ 64
  pub avg_payout_graveyard_fits : b.avg_payout_graveyard < 2 ^ 64
  pub avg_payout_atr_fits : b.avg_payout_atr < 2 ^ 64
  pub total_payout_routing_fits : b.total_payout_routing < 2 ^ 64
  pub total_payout_mining_fits : b.total_payout_mining < 2 ^ 64
  pub total_payout_treasury_fits : b.total_payout_treasury < 2 ^ 64
  pub total_payout_graveyard_fits : b.total_payout_graveyard < 2 ^ 64
  pub total_payout_atr_fits : b.total_payout_atr < 2 ^ 64
  pub total_fees_fits : b.total_fees < 2 ^ 64
  pub total_fees_new_fits : b.total_fees_new < 2 ^ 64
  pub total_fees_atr_fits : b.total_fees_atr < 2 ^ 64
  pub fee_per_byte_fits : b.fee_per_byte < 2 ^ 64
  pub total_fees_cumulative_fits : b.total_fees_cumulative < 2 ^ 64
  pub previous_block_hash_size : length b.previous_block_hash ≡ 32
  pub creator_size : length b.creator ≡ 33
  pub merkle_root_size : length b.merkle_root ≡ 32
  pub signature_size : length b.signature ≡ 64

-- the block that the header alone gives
abbrev pub header_of : Block → Block
header_of b = record new {
  id = b.id;
  timestamp = b.timestamp;
  previous_block_hash = b.previous_block_hash;
  creator = b.creator;
  merkle_root = b.merkle_root;
  signature = b.signature;
  graveyard = b.graveyard;
  treasury = b.treasury;
  burnfee = b.burnfee;
  difficulty = b.difficulty;
  avg_total_fees = b.avg_total_fees;
  avg_fee_per_byte = b.avg_fee_per_byte;
  avg_nolan_rebroadcast_per_block = b.avg_nolan_rebroadcast_per_block;
  previous_block_unpaid = b.previous_block_unpaid;
  avg_total_fees_new = b.avg_total_fees_new;
  avg_total_fees_atr = b.avg_total_fees_atr;
  avg_payout_routing = b.avg_payout_routing;
  avg_payout_mining = b.avg_payout_mining;
  avg_payout_treasury = b.avg_payout_treasury;
  avg_payout_graveyard = b.avg_payout_graveyard;
  avg_payout_atr = b.avg_payout_atr;
  total_payout_routing = b.total_payout_routing;
  total_payout_mining = b.total_payout_mining;
  total_payout_treasury = b.total_payout_treasury;
  total_payout_graveyard = b.total_payout_graveyard;
  total_payout_atr = b.total_payout_atr;
  total_fees = b.total_fees;
  total_fees_new = b.total_fees_new;
  total_fees_atr = b.total_fees_atr;
  fee_per_byte = b.fee_per_byte;
  total_fees_cumulative = b.total_fees_cumulative;
}

abbrev pub layout : List ℕ
layout =
    4 ∷ 8 ∷ 8 ∷ 32 ∷ 33 ∷ 32 ∷ 64 ∷ 8 ∷ 8 ∷ 8 ∷ 8 ∷ 8 ∷ 8 ∷ 8 ∷ 8 ∷ 8 ∷ 8 ∷ 8 ∷ 8 ∷ 8 ∷ 8 ∷ 8 ∷ 8
    ∷ 8 ∷ 8 ∷ 8 ∷ 8 ∷ 8 ∷ 8 ∷ 8 ∷ 8 ∷ 8 ∷ 8 ∷ []

abbrev pub parts : ℕ → Block → List Bytes
parts n b = to_be_bytes 4 n ∷ header_fields b

pub parts-Sized : (n : ℕ) (b : Block) → IsWellSized b → Sized layout (parts n b)
unfolding header_fields
parts-Sized n b w = (
  length-to_be_bytes 4 n,
  (
    length-to_be_bytes 8 b.id,
    (
      length-to_be_bytes 8 b.timestamp,
      (
        w.previous_block_hash_size,
        (
          w.creator_size,
          (
            w.merkle_root_size,
            (
              w.signature_size,
              (
                length-to_be_bytes 8 b.graveyard,
                (
                  length-to_be_bytes 8 b.treasury,
                  (
                    length-to_be_bytes 8 b.burnfee,
                    (
                      length-to_be_bytes 8 b.difficulty,
                      (
                        length-to_be_bytes 8 b.avg_total_fees,
                        (
                          length-to_be_bytes 8 b.avg_fee_per_byte,
                          (
                            length-to_be_bytes 8 b.avg_nolan_rebroadcast_per_block,
                            (
                              length-to_be_bytes 8 b.previous_block_unpaid,
                              (
                                length-to_be_bytes 8 b.avg_total_fees,
                                (
                                  length-to_be_bytes 8 b.avg_total_fees_new,
                                  (
                                    length-to_be_bytes 8 b.avg_total_fees_atr,
                                    (
                                      length-to_be_bytes 8 b.avg_payout_routing,
                                      (
                                        length-to_be_bytes 8 b.avg_payout_mining,
                                        (
                                          length-to_be_bytes 8 b.avg_payout_treasury,
                                          (
                                            length-to_be_bytes 8 b.avg_payout_graveyard,
                                            (
                                              length-to_be_bytes 8 b.avg_payout_atr,
                                              (
                                                length-to_be_bytes 8 b.total_payout_routing,
                                                (
                                                  length-to_be_bytes 8 b.total_payout_mining,
                                                  (
                                                    length-to_be_bytes 8 b.total_payout_treasury,
                                                    (
                                                      length-to_be_bytes 8 b.total_payout_graveyard,
                                                      (
                                                        length-to_be_bytes 8 b.total_payout_atr,
                                                        (
                                                          length-to_be_bytes 8 b.total_fees,
                                                          (
                                                            length-to_be_bytes 8 b.total_fees_new,
                                                            (
                                                            length-to_be_bytes 8 b.total_fees_atr,
                                                            (
                                                            length-to_be_bytes 8 b.fee_per_byte,
                                                            (
                                                            length-to_be_bytes 8
                                                            b.total_fees_cumulative,
                                                            tt,
                                                            ),
                                                            ),
                                                            ),
                                                          ),
                                                        ),
                                                      ),
                                                    ),
                                                  ),
                                                ),
                                              ),
                                            ),
                                          ),
                                        ),
                                      ),
                                    ),
                                  ),
                                ),
                              ),
                            ),
                          ),
                        ),
                      ),
                    ),
                  ),
                ),
              ),
            ),
          ),
        ),
      ),
    ),
  ),
)

module _ (b : Block) (w : IsWellSized b) (n : ℕ) (rest : Bytes) where
  part :
      (i : ℕ) {p : Bytes}
      → get_elem? (parts n b) i ≡ some p
      → slice (concat (parts n b) ++ rest) (offset layout i) (offset layout (suc i)) ≡ ok p
  part i h = slice_part layout (parts n b) (parts-Sized n b w) rest i h

  -- an integer of the header
  number :
      (i value : ℕ)
      → get_elem? (parts n b) i ≡ some (to_be_bytes 8 value)
      → value < 2 ^ 64
      → (start : ℕ) → offset layout i ≡ start
      → offset layout (suc i) ≡ start + 8
      → u64_at (concat (parts n b) ++ rest) start ≡ ok value
  unfolding u64_at
  number i value h fits start e e' =
      let taken : slice (concat (parts n b) ++ rest) start (start + 8) ≡ ok (to_be_bytes 8 value) =
        ap₂ (slice (concat (parts n b) ++ rest)) (sym e) (sym e') ∙ part i h in
      ap (λ m. m >>= λ p. ok (from_be_bytes p)) taken
      ∙ ap ok (from_be_bytes-to_be_bytes 8 value fits)

  pub read_header-parts : read_header (concat (parts n b) ++ rest) ≡ ok (header_of b)
  unfolding read_header header_fields
  read_header-parts = rw (
    number 1 b.id refl w.id_fits 4 refl refl,
    number 2 b.timestamp refl w.timestamp_fits 12 refl refl,
    part 3 refl,
    part 4 refl,
    part 5 refl,
    part 6 refl,
    number 7 b.graveyard refl w.graveyard_fits 181 refl refl,
    number 8 b.treasury refl w.treasury_fits 189 refl refl,
    number 9 b.burnfee refl w.burnfee_fits 197 refl refl,
    number 10 b.difficulty refl w.difficulty_fits 205 refl refl,
    number 11 b.avg_total_fees refl w.avg_total_fees_fits 213 refl refl,
    number 12 b.avg_fee_per_byte refl w.avg_fee_per_byte_fits 221 refl refl,
    number 13 b.avg_nolan_rebroadcast_per_block refl w.avg_nolan_rebroadcast_per_block_fits 229 refl
        refl,
    number 14 b.previous_block_unpaid refl w.previous_block_unpaid_fits 237 refl refl,
    number 15 b.avg_total_fees refl w.avg_total_fees_fits 245 refl refl,
    number 16 b.avg_total_fees_new refl w.avg_total_fees_new_fits 253 refl refl,
    number 17 b.avg_total_fees_atr refl w.avg_total_fees_atr_fits 261 refl refl,
    number 18 b.avg_payout_routing refl w.avg_payout_routing_fits 269 refl refl,
    number 19 b.avg_payout_mining refl w.avg_payout_mining_fits 277 refl refl,
    number 20 b.avg_payout_treasury refl w.avg_payout_treasury_fits 285 refl refl,
    number 21 b.avg_payout_graveyard refl w.avg_payout_graveyard_fits 293 refl refl,
    number 22 b.avg_payout_atr refl w.avg_payout_atr_fits 301 refl refl,
    number 23 b.total_payout_routing refl w.total_payout_routing_fits 309 refl refl,
    number 24 b.total_payout_mining refl w.total_payout_mining_fits 317 refl refl,
    number 25 b.total_payout_treasury refl w.total_payout_treasury_fits 325 refl refl,
    number 26 b.total_payout_graveyard refl w.total_payout_graveyard_fits 333 refl refl,
    number 27 b.total_payout_atr refl w.total_payout_atr_fits 341 refl refl,
    number 28 b.total_fees refl w.total_fees_fits 349 refl refl,
    number 29 b.total_fees_new refl w.total_fees_new_fits 357 refl refl,
    number 30 b.total_fees_atr refl w.total_fees_atr_fits 365 refl refl,
    number 31 b.fee_per_byte refl w.fee_per_byte_fits 373 refl refl,
    number 32 b.total_fees_cumulative refl w.total_fees_cumulative_fits 381 refl refl,
  )
