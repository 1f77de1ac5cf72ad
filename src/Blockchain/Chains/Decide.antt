-- ===== src/Blockchain/Chains/Decide.antt =====
-- `is_new_chain_the_longest_chain` of saito-core/src/core/consensus/blockchain.rs: when the new
-- chain wins.
use saito_rust_workspace.Prelude.{
  ℕ, ◌%◌, ◌^◌, ◌≤◌, ◌<◌, ◌≡◌, ◌↔◌, ◌⊎◌, refl, ap, ◌∙◌, Bool, true, false, ◌&&◌, Option, none, some,
  inl, inr, List, [], ◌∷◌, arith, ltb, leb, length, Bool-cases,
}
use saito_rust_workspace.Bytes.{Bytes}
use saito_rust_workspace.Outcome.{Outcome, ok, ◌>>=◌, unwrap, >>=-eq-ok}
use saito_rust_workspace.Eq.{bytes_key}
use saito_rust_workspace.HashMap.{get}
use saito_rust_workspace.BlockRing
use saito_rust_workspace.BlockRing.{BlockRing, at}
use saito_rust_workspace.Blockchain.{Block, Blocks}
use saito_rust_workspace.Blockchain.Chains.{
  is_new_chain_the_longest_chain, is_heavier, outweighs, sum_old, sum_new,
}
use saito_rust_workspace.Blockchain.Chains.Burned.{
  Known, no_blocks, one_more, burned, sum_old-eq, sum_new-total, sum_new-Known, length-Known,
}

-- What a new chain needs: blocks that are known, a tip with an id past the latest one, more blocks
-- than the old chain, and no smaller burn fees in all, as far as 64 bits hold them.
pub record Wins (ring : BlockRing) (blocks : Blocks) (new_chain old_chain : List Bytes)
    : Type 0 where
  pub latest : ℕ
  pub tip : Block
  pub below : List Block
  pub old_blocks : List Block
  pub latest_is : BlockRing.get_latest_block_id ring ≡ ok latest
  pub new_known : Known blocks new_chain (tip ∷ below)
  pub old_known : Known blocks old_chain old_blocks
  pub newer : latest < tip.id
  pub longer : length old_blocks < length (tip ∷ below)
  pub burns : burned old_blocks % 2 ^ 64 ≤ burned (tip ∷ below) % 2 ^ 64

-- the same with the sums of the code
record Passes (ring : BlockRing) (blocks : Blocks) (new_chain old_chain : List Bytes) : Type 0 where
  pub latest : ℕ
  pub first : Bytes
  pub tip : Block
  pub old_bf : ℕ
  pub new_bf : ℕ
  pub latest_is : BlockRing.get_latest_block_id ring ≡ ok latest
  pub first_is : at new_chain 0 ≡ ok first
  pub tip_is : get first blocks ≡ some tip
  pub newer : latest < tip.id
  pub longer : length old_chain < length new_chain
  pub old_bf_is : sum_old blocks old_chain 0 ≡ ok old_bf
  pub new_bf_is : sum_new blocks new_chain 0 ≡ some new_bf
  pub burns : old_bf ≤ new_bf

unwrap-eq-ok {ℓ} : {A : Type ℓ} (m : Option A) {a : A} → unwrap m ≡ ok a → m ≡ some a
unwrap-eq-ok none h = cc
unwrap-eq-ok (some b) h = cc

outweighs-eq-true :
    (new_chain old_chain : List Bytes) (old_bf : ℕ) (sum : Option ℕ)
    → outweighs new_chain old_chain old_bf sum ≡ ok true
    → (new_bf : ℕ) × (sum ≡ some new_bf) × (length old_chain < length new_chain) × (old_bf ≤ new_bf)
unfolding outweighs
outweighs-eq-true new_chain old_chain old_bf none h = cc
outweighs-eq-true new_chain old_chain old_bf (some new_bf) h =
    let tested : (ltb (length old_chain) (length new_chain) && leb old_bf new_bf) ≡ true = cc (h) in
    (new_bf, refl, ground (arith, tested), ground (arith, tested))

not_refused :
    (test : Bool) (rest : Outcome Bool)
    → (elim test [ true ↦ ok false | false ↦ rest ]) ≡ ok true
    → (test ≡ false) × (rest ≡ ok true)
not_refused true rest h = cc
not_refused false rest h = (refl, h)

module _ (ring : BlockRing) (blocks : Blocks) (new_chain old_chain : List Bytes)
    (some_blocks : BlockRing.is_empty ring ≡ false) where
  is_heavier-if :
      Passes ring blocks new_chain old_chain → is_heavier ring blocks new_chain old_chain ≡ ok true
  unfolding is_heavier outweighs
  is_heavier-if w =
      let past : leb w.tip.id w.latest ≡ false = ground (arith, w.newer) in
      let tip_known : unwrap (get w.first blocks) ≡ ok w.tip = rw w.tip_is in
      rw (w.latest_is, w.first_is, tip_known, ◌>>=◌, past, w.old_bf_is, w.new_bf_is)
        (ground (arith, w.longer, w.burns))

  is_heavier-only_if :
      is_heavier ring blocks new_chain old_chain ≡ ok true → Passes ring blocks new_chain old_chain
  unfolding is_heavier
  is_heavier-only_if h =
      let (latest, latest_is, h1) = >>=-eq-ok _ _ h in
      let (first, first_is, h2) = >>=-eq-ok _ _ h1 in
      let (tip, tip_is, h3) = >>=-eq-ok _ _ h2 in
      let (past, h4) = not_refused (leb tip.id latest) _ h3 in
      let (old_bf, old_bf_is, h5) = >>=-eq-ok _ _ h4 in
      let (new_bf, new_bf_is, longer, burns) = outweighs-eq-true new_chain old_chain old_bf _ h5 in
      record {
        latest = latest;
        first = first;
        tip = tip;
        old_bf = old_bf;
        new_bf = new_bf;
        latest_is = latest_is;
        first_is = first_is;
        tip_is = unwrap-eq-ok (get first blocks) tip_is;
        newer = ground (arith, past);
        longer = longer;
        old_bf_is = old_bf_is;
        new_bf_is = new_bf_is;
        burns = burns;
      }

  guarded :
      is_new_chain_the_longest_chain ring blocks new_chain old_chain ≡ ok true
      → is_heavier ring blocks new_chain old_chain ≡ ok true
  unfolding is_new_chain_the_longest_chain
  guarded h = (not_refused (ltb (length new_chain) (length old_chain)) _ (rw (← open_ring) h)).1
    where
      open_ring :
          is_new_chain_the_longest_chain ring blocks new_chain old_chain
          ≡ (elim (ltb (length new_chain) (length old_chain)) [
            | true ↦ ok false
            | false ↦ is_heavier ring blocks new_chain old_chain
          ])
      open_ring = rw (is_new_chain_the_longest_chain, some_blocks)

  Passes-if :
      Passes ring blocks new_chain old_chain
      → is_new_chain_the_longest_chain ring blocks new_chain old_chain ≡ ok true
  unfolding is_new_chain_the_longest_chain
  Passes-if w =
      let at_least : ltb (length new_chain) (length old_chain) ≡ false = ground (arith, w.longer) in
      rw (is_new_chain_the_longest_chain, some_blocks, at_least) (is_heavier-if w)

module _ (ring : BlockRing) (blocks : Blocks) where
  Wins-of :
      (new_chain old_chain : List Bytes)
      → Passes ring blocks new_chain old_chain
      → Wins ring blocks new_chain old_chain
  Wins-of new_chain old_chain p =
      let old_sum : sum_new blocks old_chain 0 ≡ some p.old_bf =
        unwrap-eq-ok (sum_new blocks old_chain 0)
          (cc (sum_old-eq blocks old_chain 0, p.old_bf_is)) in
      let old = sum_new-Known blocks old_chain 0 p.old_bf old_sum in
      let new = sum_new-Known blocks new_chain 0 p.new_bf p.new_bf_is in
      from new_chain new.0 new.1 old.0 old.1 p.first_is
        (cc (old_sum, sum_new-total blocks old_chain old.0 old.1))
        (cc (p.new_bf_is, sum_new-total blocks new_chain new.0 new.1)) p.longer
    where
      from :
          (chain : List Bytes) (bs : List Block)
          → Known blocks chain bs
          → (olds : List Block) → Known blocks old_chain olds
          → at chain 0 ≡ ok p.first
          → some p.old_bf ≡ some (burned olds % 2 ^ 64)
          → some p.new_bf ≡ some (burned bs % 2 ^ 64)
          → length old_chain < length chain
          → Wins ring blocks chain old_chain
      from [] [] no_blocks olds k first old_burned new_burned longer = elim longer [ ]
      from [] (b ∷ bs) k' olds k first old_burned new_burned longer = elim k' [ ]
      from (hash ∷ chain) [] k' olds k first old_burned new_burned longer = elim k' [ ]
      from (hash ∷ chain) (b ∷ bs) (one_more known rest) olds k first old_burned new_burned longer =
          let same : hash ≡ p.first = cc (first) in
          let is_tip : b ≡ p.tip = cc (known, same, p.tip_is) in
          let old_is : p.old_bf ≡ burned olds % 2 ^ 64 = cc (old_burned) in
          let new_is : p.new_bf ≡ burned (b ∷ bs) % 2 ^ 64 = cc (new_burned) in
          record {
            latest = p.latest;
            tip = b;
            below = bs;
            old_blocks = olds;
            latest_is = p.latest_is;
            new_known = one_more known rest;
            old_known = k;
            newer = rw is_tip p.newer;
            longer = omega (
              arith,
              longer,
              length-Known blocks old_chain olds k,
              length-Known blocks chain bs rest,
            );
            burns = rw (← old_is, ← new_is) p.burns;
          }

  Passes-of :
      (new_chain old_chain : List Bytes)
      → Wins ring blocks new_chain old_chain
      → Passes ring blocks new_chain old_chain
  Passes-of [] old_chain w = absurd (omega (arith, w.longer, length-Known blocks [] _ w.new_known))
  Passes-of (hash ∷ chain) old_chain w = record {
    latest = w.latest;
    first = hash;
    tip = w.tip;
    old_bf = burned w.old_blocks % 2 ^ 64;
    new_bf = burned (w.tip ∷ w.below) % 2 ^ 64;
    latest_is = w.latest_is;
    first_is = refl;
    tip_is = tip_known w.new_known;
    newer = w.newer;
    longer = omega (
      arith,
      w.longer,
      length-Known blocks old_chain w.old_blocks w.old_known,
      length-Known blocks (hash ∷ chain) (w.tip ∷ w.below) w.new_known,
    );
    old_bf_is =
        sum_old-eq blocks old_chain 0
        ∙ ap unwrap (sum_new-total blocks old_chain w.old_blocks w.old_known);
    new_bf_is = sum_new-total blocks (hash ∷ chain) (w.tip ∷ w.below) w.new_known;
    burns = w.burns;
  }
    where
      tip_known :
          {b : Block} {bs : List Block}
          → Known blocks (hash ∷ chain) (b ∷ bs)
          → get hash blocks ≡ some b
      tip_known (one_more known rest) = known

-- The new chain is the longest exactly if the ring is empty, or if the new chain wins: the blocks of
-- both chains are known, the id of the new tip is past the latest id, the new chain has more blocks
-- than the old one, and the sum of its burn fees is at least that of the old one, both modulo
-- `2 ^ 64`.
pub is_new_chain_the_longest_chain_lem :
    (ring : BlockRing) (blocks : Blocks) (new_chain old_chain : List Bytes)
    → (is_new_chain_the_longest_chain ring blocks new_chain old_chain ≡ ok true)
      ↔ ((ring.empty ≡ true) ⊎ Wins ring blocks new_chain old_chain)
unfolding is_new_chain_the_longest_chain BlockRing.is_empty
is_new_chain_the_longest_chain_lem ring blocks new_chain old_chain = (
  λ longest. elim (Bool-cases ring.empty) [
    | inl nothing_there ↦ inl nothing_there
    | inr h ↦ inr (
        Wins-of ring blocks new_chain old_chain (
          is_heavier-only_if ring blocks new_chain old_chain h
            (guarded ring blocks new_chain old_chain h longest)))
  ],
  λ either. elim either [
    | inl nothing_there ↦ rw (is_new_chain_the_longest_chain, nothing_there)
    | inr w ↦ elim (Bool-cases ring.empty) [
      | inl nothing_there ↦ rw (is_new_chain_the_longest_chain, nothing_there)
      | inr h ↦
          Passes-if ring blocks new_chain old_chain h (Passes-of ring blocks new_chain old_chain w)
    ]
  ],
)
