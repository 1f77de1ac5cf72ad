-- ===== src/Blockchain/Winding/Refused.antt =====
-- A new chain with a block that does not validate: what the loop of `validate` in
-- saito-core/src/core/consensus/blockchain.rs does then.
use saito_rust_workspace.Prelude.{
  ℕ, zero, suc, ◌+◌, ◌-◌, ◌<◌, ◌≡◌, refl, ap, ◌∙◌, Bool, true, false, ◌||◌, none, some, List, [],
  ◌∷◌, reverse, arith, ◌==◌, length, length-reverse,
}
use saito_rust_workspace.Bytes.{Bytes, index}
use saito_rust_workspace.Outcome.{ok, ◌>>=◌, >>=-eq-ok}
use saito_rust_workspace.BlockRing.{at}
use saito_rust_workspace.Blockchain.Winding.{
  refused, done, ChainOps, WindingResult, wind, unwind, finish_with_success, finish_with_failure,
  wind_chain, unwind_chain, after_wind, after_unwind, run, validate,
}
use saito_rust_workspace.Blockchain.Winding.Success.{
  Unwinds, nothing_left, wind_round, wind_next, at-reverse_aux,
}
use saito_rust_workspace.Blockchain.Winding.Validate.{Unwinds-all, unwind_round, unwind_last}

module _ {S : Type 0} (ops : ChainOps S) where
  -- a round of the loop that winds
  run_wind :
      (fuel : ℕ) (new_chain old_chain : List Bytes) (s t : S) (next : WindingResult)
      → (index : ℕ) (failure updated status : Bool)
      → wind_chain ops s new_chain old_chain index failure ≡ ok (t, next)
      → run ops (suc fuel) new_chain old_chain s (wind index failure updated) status
        ≡ run ops fuel new_chain old_chain t next (status || updated)
  unfolding run
  run_wind fuel new_chain old_chain s t next index failure updated status e =
      ap (λ m. m >>= λ n. run ops fuel new_chain old_chain n.0 n.1 (status || updated)) e

  run_unwind :
      (fuel : ℕ) (new_chain old_chain chain : List Bytes) (s t : S) (next : WindingResult)
      → (index : ℕ) (failure updated status : Bool)
      → unwind_chain ops s new_chain chain index failure ≡ ok (t, next)
      → run ops (suc fuel) new_chain old_chain s (unwind index failure chain updated) status
        ≡ run ops fuel new_chain old_chain t next (status || updated)
  unfolding run
  run_unwind fuel new_chain old_chain chain s t next index failure updated status e =
      ap (λ m. m >>= λ n. run ops fuel new_chain old_chain n.0 n.1 (status || updated)) e

  module _ (tip base : Bytes) (old_chain : List Bytes) (s0 s1 : S) (joined left : Bool)
      (wind_base : ops.wind_block s0 base ≡ ok (done s1 joined))
      (refuse_tip : ops.wind_block s1 tip ≡ ok (refused s1))
      (unwind_base : ops.unwind_block s1 base ≡ ok (done s0 left)) where
    goes_round :
        (fuel : ℕ)
        → ((failure updated status : Bool)
            → run ops fuel (tip ∷ base ∷ []) old_chain s0 (wind 1 failure updated) status ≡ ok none)
          × ((updated status : Bool)
              → run ops fuel (tip ∷ base ∷ []) old_chain s1 (wind 0 false updated) status ≡ ok none)
          × ((updated status : Bool)
              → run ops fuel
                  (tip ∷ base ∷ [])
                  old_chain
                  s1
                  (unwind 0 true (base ∷ []) updated)
                  status
                ≡ ok none)
    unfolding run after_unwind after_wind
    goes_round zero =
        (λ failure updated status. refl, λ updated status. refl, λ updated status. refl)
    goes_round (suc fuel) =
        let below = goes_round fuel in
        let chain : List Bytes = tip ∷ base ∷ [] in
        (
          λ failure updated status.
              run_wind fuel chain old_chain s0 s1 (wind 0 false joined) 1 failure updated status
                (wind_next ops chain old_chain s0 s1 0 base joined refl wind_base failure)
              ∙ below.1 joined (status || updated),
          λ updated status.
              run_wind fuel chain old_chain s1 s1 (unwind 0 true (base ∷ []) false) 0 false updated
                status (wind_round ops chain old_chain s1 0 tip (refused s1) refl refuse_tip false)
              ∙ below.2 false (status || updated),
          λ updated status.
              run_unwind fuel chain old_chain (base ∷ []) s1 s0 (wind 1 true left) 0 true updated
                status
                (unwind_round ops chain (base ∷ []) s1 0 base (done s0 left) refl unwind_base true
                  ∙ unwind_last ops chain (base ∷ []) s0 0 true left refl refl)
              ∙ below.0 true left (status || updated),
        )

  -- Where more fuel gives no result, less gives none.
  run_less :
      (fuel : ℕ) (new_chain old_chain : List Bytes) (s : S) (next : WindingResult) (status : Bool)
      → run ops (suc fuel) new_chain old_chain s next status ≡ ok none
      → run ops fuel new_chain old_chain s next status ≡ ok none
  unfolding run
  run_less fuel new_chain old_chain s (finish_with_success updated) status e = absurd (cc (e))
  run_less fuel new_chain old_chain s finish_with_failure status e = absurd (cc (e))
  run_less zero new_chain old_chain s (wind index failure updated) status e = refl
  run_less zero new_chain old_chain s (unwind index failure chain updated) status e = refl
  run_less (suc fuel) new_chain old_chain s (wind index failure updated) status e =
      let (next, next_is, more) = >>=-eq-ok _ _ e in
      run_wind fuel new_chain old_chain s next.0 next.1 index failure updated status next_is
      ∙ run_less fuel new_chain old_chain next.0 next.1 (status || updated) more
  run_less (suc fuel) new_chain old_chain s (unwind index failure chain updated) status e =
      let (next, next_is, more) = >>=-eq-ok _ _ e in
      run_unwind fuel new_chain old_chain chain s next.0 next.1 index failure updated status next_is
      ∙ run_less fuel new_chain old_chain next.0 next.1 (status || updated) more

  run_fewer :
      (n fuel : ℕ) (new_chain old_chain : List Bytes) (s : S) (next : WindingResult) (status : Bool)
      → run ops (fuel + n) new_chain old_chain s next status ≡ ok none
      → run ops fuel new_chain old_chain s next status ≡ ok none
  run_fewer zero fuel new_chain old_chain s next status e =
      let same : fuel + 0 ≡ fuel = omega arith in rw same at e
  run_fewer (suc n) fuel new_chain old_chain s next status e =
      let one_more : fuel + suc n ≡ suc (fuel + n) = omega arith in
      run_fewer n fuel new_chain old_chain s next status
        (run_less (fuel + n) new_chain old_chain s next status (rw one_more at e))

  -- When the golden tickets below the tip suffice and the blocks of the old chain leave, a new chain of
  -- two blocks whose lower block joins, and whose tip does not validate on it, keeps `validate` busy for
  -- ever: there is no result on any fuel, since the lower block leaves and joins again in turn. It is
  -- assumed that a refused block leaves the state as it is, and that the lower block, when it leaves,
  -- gives back the state in which it joined.
  pub validate-refused :
      (s s0 s1 : S) (tip base : Bytes) (old_chain : List Bytes) (joined left : Bool)
      → ops.has_enough_tickets s tip ≡ ok true
      → Unwinds ops s old_chain s0
      → ops.wind_block s0 base ≡ ok (done s1 joined)
      → ops.wind_block s1 tip ≡ ok (refused s1)
      → ops.unwind_block s1 base ≡ ok (done s0 left)
      → (fuel : ℕ) → validate ops fuel s (tip ∷ base ∷ []) old_chain ≡ ok none
  unfolding validate
  validate-refused s s0 s1 tip base [] joined left enough nothing_left wind_base refuse_tip
        unwind_base fuel =
      let chain : List Bytes = tip ∷ base ∷ [] in
      let start : validate ops fuel s chain []
          ≡ run ops fuel chain [] s (wind 1 false false) false =
        rw (validate, enough) in
      start
      ∙ (goes_round tip base [] s0 s1 joined left wind_base refuse_tip unwind_base fuel).0 false
          false false
  validate-refused s s0 s1 tip base (old ∷ old_chain) joined left enough leaving wind_base
        refuse_tip unwind_base fuel =
      let chain : List Bytes = tip ∷ base ∷ [] in
      let n : ℕ = suc (length old_chain) in
      let rest : ℕ = fuel + n - n in
      let start : validate ops fuel s chain (old ∷ old_chain)
          ≡ run ops fuel chain (old ∷ old_chain) s (unwind 0 true (old ∷ old_chain) false) false =
        rw (validate, enough) in
      let mid =
        Unwinds-all ops chain (old ∷ old_chain) (old ∷ old_chain) old_chain old s s0 leaving 0 refl
          refl rest (fuel + n) (omega arith) false false in
      start
      ∙ run_fewer n fuel chain (old ∷ old_chain) s (unwind 0 true (old ∷ old_chain) false) false (
          mid.2
          ∙ (goes_round tip base (old ∷ old_chain) s0 s1 joined left wind_base refuse_tip
                unwind_base rest).0
              true mid.0 mid.1)

  -- A new chain with no old chain to replace, whose lowest block does not validate, is refused at once.
  pub validate-refused_first :
      (s t : S) (hash tip : Bytes) (rest : List Bytes) (fuel : ℕ)
      → at (reverse (hash ∷ rest)) 0 ≡ ok tip
      → ops.has_enough_tickets s tip ≡ ok true
      → ops.wind_block s hash ≡ ok (refused t)
      → 0 < fuel
      → validate ops fuel s (reverse (hash ∷ rest)) [] ≡ ok (some (t, false, false))
  unfolding validate after_wind
  validate-refused_first s t hash tip rest zero first enough refuse some_fuel = elim some_fuel [ ]
  validate-refused_first s t hash tip rest (suc fuel) first enough refuse some_fuel =
      let chain : List Bytes = reverse (hash ∷ rest) in
      let last : ℕ = length chain - 1 in
      let start : validate ops (suc fuel) s chain []
          ≡ run ops (suc fuel) chain [] s (wind last false false) false =
        rw (validate, first, enough) in
      let here : at chain last ≡ ok hash =
        ap (at chain) (omega (arith, length-reverse (hash ∷ rest)))
        ∙ at-reverse_aux rest (hash ∷ []) 0 in
      let same : (last == last) ≡ true = ground arith in
      let refusal : after_wind ops chain [] last false (refused t) ≡ (t, finish_with_failure) =
        rw (after_wind, same) in
      start
      ∙ run_wind fuel chain [] s t finish_with_failure last false false false
          (wind_round ops chain [] s last hash (refused t) here refuse false ∙ ap ok refusal)
