-- ===== src/Blockchain/Winding/Validate.antt =====
-- The whole of `validate` in saito-core/src/core/consensus/blockchain.rs for a new chain whose blocks
-- all validate: the blocks of the old chain leave, tip first, and those of the new one join, tip last.
use saito_rust_workspace.Prelude.{
  ℕ, zero, suc, ◌+◌, ◌-◌, ◌<◌, ◌≡◌, ◌⊎◌, refl, ap, ◌∙◌, Bool, true, false, ◌||◌, some, inl, inr,
  List, [], ◌∷◌, reverse, arith, ◌==◌, length, get_elem?, drop, length-reverse,
}
use saito_rust_workspace.Bytes.{Bytes, index}
use saito_rust_workspace.Outcome.{ok, ◌>>=◌, unwrap}
use saito_rust_workspace.BlockRing.{at}
use mathlib.Core.List.{reverse_aux}
use saito_rust_workspace.Blockchain.Winding.{
  Attempt, done, ChainOps, wind, unwind, has_none, unwind_chain, after_unwind, run, validate,
}
use saito_rust_workspace.Blockchain.Winding.Success.{
  Unwinds, nothing_left, leaves, Winds, Winds-all,
}

-- what stands at the head of the rest of a list
at_of_drop :
    (chain rest : List Bytes) (hash : Bytes) (i : ℕ)
    → drop i chain ≡ hash ∷ rest
    → (at chain i ≡ ok hash) × (drop (suc i) chain ≡ rest) × (length chain ≡ suc (i + length rest))
at_of_drop [] rest hash zero shape = cc (shape)
at_of_drop [] rest hash (suc i) shape = cc (shape)
at_of_drop (h ∷ chain) rest hash zero shape =
    (ap unwrap (ap (λ l. get_elem? l 0) shape), ap (drop 1) shape, ap length shape ∙ (omega arith))
at_of_drop (h ∷ chain) rest hash (suc i) shape =
    let below = at_of_drop chain rest hash i shape in (below.0, below.1, omega (arith, below.2))

module _ {S : Type 0} (ops : ChainOps S) where
  pub unwind_round :
      (new_chain chain : List Bytes) (s : S) (index : ℕ) (hash : Bytes) (a : Attempt S)
      → at chain index ≡ ok hash
      → ops.unwind_block s hash ≡ ok a
      → (failure : Bool)
      → unwind_chain ops s new_chain chain index failure
        ≡ after_unwind ops new_chain chain index failure a
  unfolding unwind_chain
  unwind_round new_chain chain s index hash a here attempt failure = rw (here, attempt)

  pub unwind_last :
      (new_chain chain : List Bytes) (t : S) (index : ℕ) (failure updated : Bool)
      → has_none new_chain ≡ false
      → length chain ≡ suc index
      → after_unwind ops new_chain chain index failure (done t updated)
        ≡ ok (t, wind (length new_chain - 1) failure updated)
  unfolding after_unwind
  unwind_last new_chain chain t index failure updated some_new last =
      let here : (index == length chain - 1) ≡ true = ground (arith, last) in
      rw (after_unwind, here, some_new)

  unwind_next :
      (new_chain chain : List Bytes) (t : S) (index : ℕ) (failure updated : Bool)
      → suc index < length chain
      → after_unwind ops new_chain chain index failure (done t updated)
        ≡ ok (t, unwind (suc index) failure chain updated)
  unfolding after_unwind
  unwind_next new_chain chain t index failure updated more =
      let before : (index == length chain - 1) ≡ false = ground (arith, more) in
      let sum : index + 1 ≡ suc index = omega arith in rw (after_unwind, before, sum)

  pub Unwinds-all :
      (new_chain old_chain chain todo : List Bytes) (hash : Bytes) (s t : S)
      → Unwinds ops s (hash ∷ todo) t
      → (index : ℕ) → drop index chain ≡ hash ∷ todo
      → has_none new_chain ≡ false
      → (fuel total : ℕ) → total ≡ length todo + suc fuel
      → (updated status : Bool)
      → (updated' status' : Bool) × (run ops total new_chain old_chain s
            (unwind index true chain updated)
            status
          ≡ run ops fuel new_chain old_chain t (wind (length new_chain - 1) true updated') status')
  unfolding run
  Unwinds-all new_chain old_chain chain todo hash s t w index shape some_new fuel zero sum updated
        status =
      let never : length todo < 0 = omega (arith, sum) in elim never [ ]
  Unwinds-all new_chain old_chain chain [] hash s t (leaves {updated = v} e nothing_left) index
        shape some_new fuel (suc total) sum updated status =
      let place = at_of_drop chain [] hash index shape in
      (
        v,
        (status || updated),
        ap (λ m. m >>= λ next. run ops total new_chain old_chain next.0 next.1 (status || updated))
              (unwind_round new_chain chain s index hash (done t v) place.0 e true
                ∙ unwind_last new_chain chain t index true v some_new (omega (arith, place.2)))
            ∙ ap
                (λ n.
                  run ops n new_chain old_chain t (wind (length new_chain - 1) true v)
                    (status || updated))
                (omega (arith, sum)),
      )
  Unwinds-all new_chain old_chain chain (h ∷ todo) hash s t (leaves {t = u} {updated = v} e w) index
        shape some_new fuel (suc total) sum updated status =
      let place = at_of_drop chain (h ∷ todo) hash index shape in
      let rest =
        Unwinds-all new_chain old_chain chain todo h u t w (suc index) place.1 some_new fuel total
          (omega (arith, sum)) v (status || updated) in
      (
        rest.0,
        rest.1,
        ap (λ m. m >>= λ next. run ops total new_chain old_chain next.0 next.1 (status || updated))
              (unwind_round new_chain chain s index hash (done u v) place.0 e true
                ∙ unwind_next new_chain chain u index true v (omega (arith, place.2)))
            ∙ rest.2,
      )

  some_of_reverse :
      (rest before : List Bytes) (hash : Bytes)
      → has_none (reverse_aux rest (hash ∷ before)) ≡ false
  some_of_reverse [] before hash = refl
  some_of_reverse (h ∷ rest) before hash = some_of_reverse rest (hash ∷ before) h

  last_index :
      (rest : List Bytes) (hash : Bytes) → length (reverse_aux rest (hash ∷ [])) - 1 ≡ length rest
  last_index rest hash = omega (arith, length-reverse (hash ∷ rest))

  -- When the golden tickets below the tip suffice, when the blocks of the old chain leave without a
  -- checkpoint, tip first, and when the blocks of the new chain then all join, in the order from the
  -- common ancestor up, `validate` ends on any fuel above the number of these blocks, says that the new
  -- chain is in, and leaves the state that these steps lead to. A new chain of one block must have no
  -- old chain to replace.
  pub validate-valid :
      (s t u : S) (old_chain rest : List Bytes) (hash tip : Bytes) (fuel : ℕ)
      → at (reverse (hash ∷ rest)) 0 ≡ ok tip
      → ops.has_enough_tickets s tip ≡ ok true
      → Unwinds ops s old_chain t
      → Winds ops t (hash ∷ rest) u
      → (has_none old_chain ≡ true) ⊎ (0 < length rest)
      → length old_chain + length rest < fuel
      → (updated : Bool) × (validate ops fuel s (reverse (hash ∷ rest)) old_chain
          ≡ ok (some (u, true, updated)))
  unfolding validate
  validate-valid s t u [] rest hash tip fuel first enough nothing_left joining fits steps =
      let chain : List Bytes = reverse (hash ∷ rest) in
      let end =
        Winds-all ops [] [] rest hash s u joining fuel false false false (inl refl)
          (omega (arith, steps)) in
      (
        end.0,
        let start : validate ops fuel s chain []
                ≡ run ops fuel chain [] s (wind (length chain - 1) false false) false =
              rw (validate, first, enough) in
            start
            ∙ ap (λ i. run ops fuel chain [] s (wind i false false) false) (last_index rest hash)
            ∙ end.1,
      )
  validate-valid s t u (old ∷ old_chain) rest hash tip fuel first enough leaving joining fits
        steps =
      let chain : List Bytes = reverse (hash ∷ rest) in
      let left : ℕ = fuel - suc (length old_chain) in
      let mid =
        Unwinds-all chain (old ∷ old_chain) (old ∷ old_chain) old_chain old s t leaving 0 refl
          (some_of_reverse rest [] hash) left fuel (omega (arith, steps)) false false in
      let end =
        Winds-all ops (old ∷ old_chain) [] rest hash t u joining left true mid.0 mid.1
          (elim fits [ inl e ↦ cc (e) | inr l ↦ inr l ]) (omega (arith, steps)) in
      (
        end.0,
        let start : validate ops fuel s chain (old ∷ old_chain)
                ≡ run ops fuel chain (old ∷ old_chain) s (unwind 0 true (old ∷ old_chain) false)
                    false =
              rw (validate, first, enough) in
            start
            ∙ mid.2
            ∙ ap (λ i. run ops left chain (old ∷ old_chain) t (wind i true mid.0) mid.1)
                (last_index rest hash)
            ∙ end.1,
      )
