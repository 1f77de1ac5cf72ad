-- ===== src/Blockchain/Winding.antt =====
-- `validate`, `wind_chain` and `unwind_chain` of saito-core/src/core/consensus/blockchain.rs: how the
-- old chain leaves the longest chain and the new one joins it. What happens to one block is an
-- interface, which Blockchain/Ledger fills. The loop of `validate` runs on fuel; `none` means that it
-- ran out.
mod Tests
pub mod Success
pub mod Validate
pub mod Refused
use saito_rust_workspace.Prelude.{
  ℕ, zero, suc, ◌+◌, ◌-◌, ◌*◌, ◌/◌, ◌%◌, ◌^◌, ◌≤◌, ◌<◌, min, max, ◌≡◌, ◌≢◌, ◌↔◌, ◌⊎◌, refl, sym, ap,
  ap₂, ◌∙◌, fun_ext, Bool, true, false, not, ◌&&◌, ◌||◌, Option, none, some, inl, inr, List, [],
  ◌∷◌, ◌++◌, map, reverse, append-nil, append_assoc, arith, dec_lt, ℕ_discrete, ltb, leb, ◌==◌,
  if◌then◌else◌, ltb→lt, lt→ltb, leb→le, ==_iff, tests, Bool-cases, Option-cases, length, get_elem?,
  set, get_or, take, drop, replicate, length-append, length-set, length-take, length-drop,
  length-map, take-append-drop, All, any, keep_if, All-append, All-append_left, All-append_right,
  get_elem?_in_range, lt_of_get_elem?, get_elem?-append_end, All-set, All-get, any-append_end,
  get_elem?-set_self, get_elem?-set_ne, length-replicate, length-reverse,
}
use saito_rust_workspace.Bytes.{
  Bytes, AreBytes, IsArray, to_be_bytes, from_be_bytes, slice, index, bytes_eq, concat, zeros,
}
use saito_rust_workspace.Bytes.Endian.{
  length-to_be_bytes, to_be_bytes-AreBytes, from_be_bytes-to_be_bytes, to_be_bytes-from_be_bytes,
  from_be_bytes-lt,
}
use saito_rust_workspace.Bytes.Slices.{
  slice-append_skip, slice-append_self, slice-eq-ok, index-append_skip, bytes_eq_iff, bytes_eq_refl,
  slice_split, index_split, slice_in_range, drop-length, slice-IsArray, index-lt, zeros-IsArray,
  index_in_range,
}
use saito_rust_workspace.Outcome.{
  Outcome, ok, err, panic, ◌>>=◌, ◌>>◌, check, assert, ok_or, unwrap, >>=-eq-ok, ErrorKind,
  invalid_input, invalid_data, not_found,
}
use saito_rust_workspace.BlockRing.{at}

-- What one block makes of a state: it has a checkpoint, it does not validate, or it is done, and
-- then whether the wallet was updated.
pub data Attempt (S : Type 0) : Type 0 where
  checkpoint : S → Attempt S
  refused : S → Attempt S
  done : S → Bool → Attempt S

-- the steps for one block, and the check of the golden tickets below a tip
pub record ChainOps (S : Type 0) : Type 0 where
  pub has_enough_tickets : S → Bytes → Outcome Bool
  pub wind_block : S → Bytes → Outcome (Attempt S)
  pub unwind_block : S → Bytes → Outcome (Attempt S)

pub data WindingResult : Type 0 where
  wind : ℕ → Bool → Bool → WindingResult
  unwind : ℕ → Bool → List Bytes → Bool → WindingResult
  finish_with_success : Bool → WindingResult
  finish_with_failure : WindingResult

abbrev pub has_none {ℓ} : {A : Type ℓ} → List A → Bool
has_none [] = true
has_none (x ∷ xs) = false

module _ {S : Type 0} (ops : ChainOps S) where
  -- where `wind_chain` goes after its block
  unfoldable pub after_wind : List Bytes → List Bytes → ℕ → Bool → Attempt S → S × WindingResult
  after_wind new_chain old_chain index wind_failure (checkpoint s) = (s, finish_with_failure)
  after_wind new_chain old_chain index wind_failure (done s updated) = (
    s,
    if index == 0
        then (if wind_failure then finish_with_failure else finish_with_success updated)
        else wind (index - 1) false updated,
  )
  after_wind new_chain old_chain index wind_failure (refused s) = (
    s,
    if index == length new_chain - 1
        then (if has_none old_chain
            then finish_with_failure
            else wind (length old_chain - 1) true false)
        else unwind 0 true (drop (index + 1) new_chain) false,
  )

  unfoldable pub wind_chain : S → List Bytes → List Bytes → ℕ → Bool → Outcome (S × WindingResult)
  unfolding after_wind
  wind_chain s new_chain old_chain index wind_failure = elim (wind_failure && has_none new_chain) [
    | true ↦ ok (s, finish_with_failure)
    | false ↦ do
      block_hash ← at new_chain index
      attempt ← ops.wind_block s block_hash
      ok (after_wind new_chain old_chain index wind_failure attempt)
  ]

  -- where `unwind_chain` goes after its block; `new_chain.len() - 1` is an overflow for no block
  unfoldable pub after_unwind :
      List Bytes → List Bytes → ℕ → Bool → Attempt S → Outcome (S × WindingResult)
  after_unwind new_chain old_chain index wind_failure (checkpoint s) = ok (s, finish_with_failure)
  after_unwind new_chain old_chain index wind_failure (refused s) = ok (s, finish_with_failure)
  after_unwind new_chain old_chain index wind_failure (done s updated) =
      elim (index == length old_chain - 1) [
        | true ↦
            assert (not (has_none new_chain))
            >> ok (s, wind (length new_chain - 1) wind_failure updated)
        | false ↦ ok (s, unwind (index + 1) wind_failure old_chain updated)
      ]

  unfoldable pub unwind_chain : S → List Bytes → List Bytes → ℕ → Bool → Outcome (S × WindingResult)
  unfolding after_unwind
  unwind_chain s new_chain old_chain index wind_failure = do
    block_hash ← at old_chain index
    attempt ← ops.unwind_block s block_hash
    after_unwind new_chain old_chain index wind_failure attempt

  -- The loop: the state at the end, whether the new chain is in, and whether the wallet was updated.
  -- `wind_chain` is always given the chains that the loop began with.
  unfoldable pub run :
      ℕ → List Bytes → List Bytes → S → WindingResult → Bool → Outcome (Option (S × Bool × Bool))
  unfolding wind_chain unwind_chain
  run fuel new_chain old_chain s (finish_with_success updated) status =
      ok (some (s, true, status || updated))
  run fuel new_chain old_chain s finish_with_failure status = ok (some (s, false, status))
  run zero new_chain old_chain s (wind index failure updated) status = ok none
  run zero new_chain old_chain s (unwind index failure chain updated) status = ok none
  run (suc fuel) new_chain old_chain s (wind index failure updated) status =
      wind_chain s new_chain old_chain index failure >>= λ next.
      run fuel new_chain old_chain next.0 next.1 (status || updated)
  run (suc fuel) new_chain old_chain s (unwind index failure chain updated) status =
      unwind_chain s new_chain chain index failure >>= λ next.
      run fuel new_chain old_chain next.0 next.1 (status || updated)

  unfoldable pub validate : ℕ → S → List Bytes → List Bytes → Outcome (Option (S × Bool × Bool))
  unfolding run
  validate fuel s new_chain old_chain = do
    tip ← at new_chain 0
    enough ← ops.has_enough_tickets s tip
    elim enough [
      | false ↦ ok (some (s, false, false))
      | true ↦ elim (has_none old_chain) [
        | true ↦ run fuel new_chain old_chain s (wind (length new_chain - 1) false false) false
        | false ↦ run fuel new_chain old_chain s (unwind 0 true old_chain false) false
      ]
    ]
