-- ===== src/Blockchain/Winding/Success.antt =====
-- A new chain whose blocks all validate: the loop of `validate` in
-- saito-core/src/core/consensus/blockchain.rs ends, and does what unwinding the old chain and then
-- winding the new one does.
use saito_rust_workspace.Prelude.{
  ℕ, zero, suc, ◌+◌, ◌<◌, ◌≡◌, ◌⊎◌, refl, ap, ◌∙◌, Bool, true, false, ◌||◌, some, inl, inr, List,
  [], ◌∷◌, arith, length,
}
use saito_rust_workspace.Bytes.{Bytes, index}
use saito_rust_workspace.Outcome.{ok, ◌>>=◌}
use saito_rust_workspace.BlockRing.{at}
use mathlib.Core.List.{reverse_aux}
use saito_rust_workspace.Blockchain.Winding.{
  Attempt, done, ChainOps, wind, wind_chain, after_wind, run,
}

-- The blocks leave one after the other, the first of the list first.
pub data Unwinds {S : Type 0} (ops : ChainOps S) : S → List Bytes → S → Type 0 where
  nothing_left : {s : S} → Unwinds ops s [] s
  leaves :
      {s t u : S} {hash : Bytes} {hashes : List Bytes} {updated : Bool}
      → ops.unwind_block s hash ≡ ok (done t updated)
      → Unwinds ops t hashes u
      → Unwinds ops s (hash ∷ hashes) u

-- The blocks join one after the other, the first of the list first.
pub data Winds {S : Type 0} (ops : ChainOps S) : S → List Bytes → S → Type 0 where
  nothing_new : {s : S} → Winds ops s [] s
  joins :
      {s t u : S} {hash : Bytes} {hashes : List Bytes} {updated : Bool}
      → ops.wind_block s hash ≡ ok (done t updated)
      → Winds ops t hashes u
      → Winds ops s (hash ∷ hashes) u

pub at-reverse_aux :
    (hashes before : List Bytes) (i : ℕ)
    → at (reverse_aux hashes before) (length hashes + i) ≡ at before i
at-reverse_aux [] before i = ap (at before) (ground arith)
at-reverse_aux (h ∷ hashes) before i =
    ap (at (reverse_aux hashes (h ∷ before))) (ground arith)
    ∙ at-reverse_aux hashes (h ∷ before) (suc i)

module _ {S : Type 0} (ops : ChainOps S) where
  -- one round of winding
  pub wind_round :
      (new_chain old_chain : List Bytes) (s : S) (index : ℕ) (hash : Bytes) (a : Attempt S)
      → at new_chain index ≡ ok hash
      → ops.wind_block s hash ≡ ok a
      → (failure : Bool)
      → wind_chain ops s new_chain old_chain index failure
        ≡ ok (after_wind ops new_chain old_chain index failure a)
  unfolding wind_chain
  wind_round [] old_chain s index hash a here attempt failure = cc (here)
  wind_round (h ∷ new_chain) old_chain s index hash a here attempt false = rw (here, attempt)
  wind_round (h ∷ new_chain) old_chain s index hash a here attempt true = rw (here, attempt)

  -- a block that joins above the tip of the old chain
  pub wind_next :
      (new_chain old_chain : List Bytes) (s t : S) (index : ℕ) (hash : Bytes) (updated : Bool)
      → at new_chain (suc index) ≡ ok hash
      → ops.wind_block s hash ≡ ok (done t updated)
      → (failure : Bool)
      → wind_chain ops s new_chain old_chain (suc index) failure ≡ ok (t, wind index false updated)
  unfolding after_wind
  wind_next new_chain old_chain s t index hash updated here e failure =
      wind_round new_chain old_chain s (suc index) hash (done t updated) here e failure
      ∙ (ground arith)

  pub Winds-all :
      (old_chain before todo : List Bytes) (hash : Bytes) (s t : S)
      → Winds ops s (hash ∷ todo) t
      → (fuel : ℕ) (failure updated status : Bool) → (failure ≡ false) ⊎ (0 < length todo)
      → length todo < fuel
      → (any_update : Bool) × (run ops fuel
            (reverse_aux todo (hash ∷ before))
            old_chain
            s
            (wind (length todo) failure updated)
            status
          ≡ ok (some (t, true, any_update)))
  unfolding run after_wind
  Winds-all old_chain before [] hash s t w zero failure updated status valid enough =
      elim enough [ ]
  Winds-all old_chain before (h ∷ todo) hash s t w zero failure updated status valid enough =
      elim enough [ ]
  Winds-all old_chain before [] hash s t (joins {updated = v} e nothing_new) (suc fuel) false
        updated status valid enough =
      (
        (status || updated) || v,
        ap
            (λ m. m >>= λ next.
              run ops fuel (hash ∷ before) old_chain next.0 next.1 (status || updated))
            (wind_round (hash ∷ before) old_chain s 0 hash (done t v) refl e false),
      )
  Winds-all old_chain before [] hash s t w (suc fuel) true updated status valid enough =
      elim valid [ inl e ↦ cc (e) | inr l ↦ elim l [ ] ]
  Winds-all old_chain before (h ∷ todo) hash s t (joins {t = u} {updated = v} e w) (suc fuel)
        failure updated status valid enough =
      let rest =
        Winds-all old_chain (hash ∷ before) todo h u t w fuel false v (status || updated) (inl refl)
          (omega (arith, enough)) in
      (
        rest.0,
        ap
              (λ m. m >>= λ next.
                run ops fuel (reverse_aux todo (h ∷ hash ∷ before)) old_chain next.0 next.1
                  (status || updated))
              (wind_next (reverse_aux todo (h ∷ hash ∷ before)) old_chain s u (length todo) hash v
                (ap (at (reverse_aux todo (h ∷ hash ∷ before))) (omega arith)
                  ∙ at-reverse_aux todo (h ∷ hash ∷ before) 1)
                e failure)
            ∙ rest.1,
      )
