-- ===== src/Blockchain/ForkId/Sample.antt =====
-- What the loop over the samples of a fork id finds, saito-core/src/core/consensus/blockchain.rs.
use saito_rust_workspace.Prelude.{
  ℕ, ◌+◌, ◌-◌, ◌<◌, ◌≡◌, ◌⊎◌, refl, sym, Bool, true, false, Option, none, some, inl, inr, List, [],
  ◌∷◌, arith, ltb, suc, ◌*◌, ◌==◌, ap, ◌∙◌, take, length, get_elem?, Option-cases,
}
use saito_rust_workspace.Bytes.{Bytes, index}
use saito_rust_workspace.Outcome.{Outcome, ok, panic, ◌>>=◌, >>=-eq-ok}
use saito_rust_workspace.BlockRing
use saito_rust_workspace.BlockRing.{BlockRing}
use saito_rust_workspace.Blockchain.ForkId.{same_sample, compare_samples}

-- two byte strings have the same byte at an index
abbrev pub SameByte : Bytes → Bytes → ℕ → Type 0
SameByte a b i = (byte : ℕ) × (get_elem? a i ≡ some byte) × (get_elem? b i ≡ some byte)

-- the weights in all
pub total : List ℕ → ℕ
total [] = 0
total (weight ∷ weights) = weight + total weights

-- the same for the weights from the one of place `i` on, counted back from `start`
pub record Hit (ring : BlockRing) (fork_id : Bytes) (weights : List ℕ) (i start id : ℕ)
    : Type 0 where
  pub back : ℕ
  pub in_range : back < length weights
  pub sampled : id ≡ start - total (take (suc back) weights)
  pub hash : Bytes
  pub longest : BlockRing.get_longest_chain_block_hash_at_block_id ring id ≡ ok (some hash)
  pub even : SameByte fork_id hash (2 * (i + back))
  pub odd : SameByte fork_id hash (2 * (i + back) + 1)

index-eq-ok : (bs : Bytes) (i : ℕ) {byte : ℕ} → index bs i ≡ ok byte → get_elem? bs i ≡ some byte
unfolding index
index-eq-ok bs i e = elim (Option-cases (get_elem? bs i)) [
  | inl nothing ↦ let fails : index bs i ≡ panic = rw (index, nothing) in absurd (cc (e, fails))
  | inr found ↦
      let reads : index bs i ≡ ok found.0 = rw (index, found.1) in found.1 ∙ ap some (cc (e, reads))
]

same_sample-SameByte :
    (fork_id hash : Bytes) (i : ℕ)
    → same_sample fork_id hash i ≡ ok true
    → SameByte fork_id hash (2 * i) × SameByte fork_id hash (2 * i + 1)
unfolding same_sample
same_sample-SameByte fork_id hash i e =
    let (theirs, theirs_is, e1) = >>=-eq-ok _ _ e in
    let (mine, mine_is, e2) = >>=-eq-ok _ _ e1 in
    let first = passed (theirs == mine) _ e2 in
    let (next_theirs, next_theirs_is, e3) = >>=-eq-ok _ _ first.1 in
    let (next_mine, next_mine_is, e4) = >>=-eq-ok _ _ e3 in
    let same : theirs ≡ mine = ground (arith, first.0) in
    let tested : (next_theirs == next_mine) ≡ true = cc (e4) in
    let next_same : next_theirs ≡ next_mine = ground (arith, tested) in
    (
      (
        theirs,
        index-eq-ok fork_id (2 * i) theirs_is,
        index-eq-ok hash (2 * i) mine_is ∙ ap some (sym same),
      ),
      (
        next_theirs,
        index-eq-ok fork_id (2 * i + 1) next_theirs_is,
        index-eq-ok hash (2 * i + 1) next_mine_is ∙ ap some (sym next_same),
      ),
    )
  where
    passed :
        (test : Bool) (rest : Outcome Bool)
        → (elim test [ false ↦ ok false | true ↦ rest ]) ≡ ok true
        → (test ≡ true) × (rest ≡ ok true)
    passed false rest h = cc
    passed true rest h = (refl, h)

Hit-here :
    (ring : BlockRing) (fork_id hash : Bytes) (weight : ℕ) (weights : List ℕ) (i start : ℕ)
    → BlockRing.get_longest_chain_block_hash_at_block_id ring (start - weight) ≡ ok (some hash)
    → same_sample fork_id hash i ≡ ok true
    → Hit ring fork_id (weight ∷ weights) i start (start - weight)
unfolding total
Hit-here ring fork_id hash weight weights i start here same =
    let place : i ≡ i + 0 = omega arith in
    let bytes = same_sample-SameByte fork_id hash i same in
    record {
      back = 0;
      in_range = omega arith;
      sampled = omega arith;
      hash = hash;
      longest = here;
      even = rw (← place) bytes.0;
      odd = rw (← place) bytes.1;
    }

Hit-later :
    (ring : BlockRing) (fork_id : Bytes) (weight : ℕ) (weights : List ℕ) (i start id : ℕ)
    → Hit ring fork_id weights (i + 1) (start - weight) id
    → Hit ring fork_id (weight ∷ weights) i start id
unfolding total
Hit-later ring fork_id weight weights i start id h =
    let place : i + 1 + h.back ≡ i + suc h.back = omega arith in
    record {
      back = suc h.back;
      in_range = omega (arith, h.in_range);
      sampled = h.sampled ∙ (omega arith);
      hash = h.hash;
      longest = h.longest;
      even = rw (← place) h.even;
      odd = rw (← place) h.odd;
    }

after_compare :
    (ring : BlockRing) (fork_id hash : Bytes) (weight : ℕ) (weights : List ℕ) (i start found : ℕ)
    (rest : Outcome (Option ℕ)) (same : Bool)
    → BlockRing.get_longest_chain_block_hash_at_block_id ring (start - weight) ≡ ok (some hash)
    → same_sample fork_id hash i ≡ ok same
    → (elim same [ true ↦ ok (some (start - weight)) | false ↦ rest ]) ≡ ok (some found)
    → (rest ≡ ok (some found)) ⊎ Hit ring fork_id (weight ∷ weights) i start found
after_compare ring fork_id hash weight weights i start found rest false here s h = inl h
after_compare ring fork_id hash weight weights i start found rest true here s h =
    let e : start - weight ≡ found = cc (h) in
    inr (rw e at (Hit-here ring fork_id hash weight weights i start here s))

not_below :
    (test : Bool) (rest : Outcome (Option ℕ)) (found : ℕ)
    → (elim test [ true ↦ ok (some 0) | false ↦ rest ]) ≡ ok (some found)
    → (found ≡ 0) ⊎ (rest ≡ ok (some found))
not_below true rest found h = inl (cc (h))
not_below false rest found h = inr h

pub compare_samples-Hit :
    (ring : BlockRing) (fork_id : Bytes) (weights : List ℕ) (i start found : ℕ)
    → compare_samples ring fork_id weights i start ≡ ok (some found)
    → (found ≡ 0) ⊎ Hit ring fork_id weights i start found
unfolding compare_samples
compare_samples-Hit ring fork_id [] i start found h = absurd (cc (h))
compare_samples-Hit ring fork_id (weight ∷ weights) i start found h =
    elim (not_below (ltb start weight) _ found h) [
      | inl none_below ↦ inl none_below
      | inr h1 ↦
          let (longest, here, h2) = >>=-eq-ok _ _ h1 in
          from (compare_samples-Hit ring fork_id weights (i + 1) (start - weight) found) longest
            here h2
    ]
  where
    lower :
        (found ≡ 0) ⊎ Hit ring fork_id weights (i + 1) (start - weight) found
        → (found ≡ 0) ⊎ Hit ring fork_id (weight ∷ weights) i start found
    lower (inl z) = inl z
    lower (inr m) = inr (Hit-later ring fork_id weight weights i start found m)

    from :
        (compare_samples ring fork_id weights (i + 1) (start - weight) ≡ ok (some found)
          → (found ≡ 0) ⊎ Hit ring fork_id weights (i + 1) (start - weight) found)
        → (longest : Option Bytes)
        → BlockRing.get_longest_chain_block_hash_at_block_id ring (start - weight) ≡ ok longest
        → (elim longest [
          | none ↦ compare_samples ring fork_id weights (i + 1) (start - weight)
          | some block_hash ↦ same_sample fork_id block_hash i >>= λ same. elim same [
            | true ↦ ok (some (start - weight))
            | false ↦ compare_samples ring fork_id weights (i + 1) (start - weight)
          ]
        ])
          ≡ ok (some found)
        → (found ≡ 0) ⊎ Hit ring fork_id (weight ∷ weights) i start found
    from rest none here g = lower (rest g)
    from rest (some hash) here g =
        let (same, s, g1) = >>=-eq-ok _ _ g in
        elim (after_compare ring fork_id hash weight weights i start found _ same here s g1) [
          | inl g2 ↦ lower (rest g2)
          | inr m ↦ inr m
        ]
