-- ===== src/Blockchain/Chains/Burned.antt =====
-- The sums of burn fees that `is_new_chain_the_longest_chain` of
-- saito-core/src/core/consensus/blockchain.rs compares: over the blocks that a chain names.
use saito_rust_workspace.Prelude.{
  ℕ, suc, ◌+◌, ◌%◌, ◌^◌, ◌<◌, ◌≡◌, refl, ap, ◌∙◌, none, some, inl, inr, List, [], ◌∷◌, arith,
  length, Option-cases,
}
use saito_rust_workspace.Bytes.{Bytes}
use saito_rust_workspace.Outcome.{◌>>=◌, unwrap}
use saito_rust_workspace.Eq.{bytes_key}
use saito_rust_workspace.HashMap.{get}
use saito_rust_workspace.Blockchain.{Block, Blocks}
use saito_rust_workspace.Blockchain.Chains.{sum_old, sum_new}

-- the blocks that the hashes of a chain name
pub data Known (blocks : Blocks) : List Bytes → List Block → Type 0 where
  no_blocks : Known blocks [] []
  one_more :
      {hash : Bytes} {hashes : List Bytes} {b : Block} {bs : List Block}
      → get hash blocks ≡ some b
      → Known blocks hashes bs
      → Known blocks (hash ∷ hashes) (b ∷ bs)

-- the burn fees of some blocks in all
pub burned : List Block → ℕ
burned [] = 0
burned (b ∷ bs) = b.burnfee + burned bs

pub sum_old-eq :
    (blocks : Blocks) (chain : List Bytes) (sum : ℕ)
    → sum_old blocks chain sum ≡ unwrap (sum_new blocks chain sum)
unfolding sum_old sum_new
sum_old-eq blocks [] sum = refl
sum_old-eq blocks (hash ∷ chain) sum =
    elim (get hash blocks)
      as (λ found.
        (unwrap found >>= λ b. sum_old blocks chain ((sum + b.burnfee) % 2 ^ 64))
        ≡ unwrap (elim found [
          | none ↦ none
          | some b ↦ sum_new blocks chain ((sum + b.burnfee) % 2 ^ 64)
        ])) [ none ↦ refl | some b ↦ sum_old-eq blocks chain ((sum + b.burnfee) % 2 ^ 64) ]

-- the sum over a chain of known blocks, and the blocks of a chain that has a sum
sum_new-burned :
    (blocks : Blocks) (chain : List Bytes) (bs : List Block) (sum : ℕ)
    → sum < 2 ^ 64
    → Known blocks chain bs
    → sum_new blocks chain sum ≡ some ((sum + burned bs) % 2 ^ 64)
unfolding sum_new burned
sum_new-burned blocks [] [] sum fits no_blocks = ap some (omega (arith, fits))
sum_new-burned blocks [] (b ∷ bs) sum fits k = elim k [ ]
sum_new-burned blocks (hash ∷ chain) [] sum fits k = elim k [ ]
sum_new-burned blocks (hash ∷ chain) (b ∷ bs) sum fits (one_more known rest) =
    rw (sum_new, known)
      (sum_new-burned blocks chain bs ((sum + b.burnfee) % 2 ^ 64) (omega arith) rest
        ∙ ap some (omega arith))

pub sum_new-total :
    (blocks : Blocks) (chain : List Bytes) (bs : List Block)
    → Known blocks chain bs
    → sum_new blocks chain 0 ≡ some (burned bs % 2 ^ 64)
sum_new-total blocks chain bs k =
    sum_new-burned blocks chain bs 0 (omega arith) k ∙ ap some (omega arith)

pub sum_new-Known :
    (blocks : Blocks) (chain : List Bytes) (sum total : ℕ)
    → sum_new blocks chain sum ≡ some total
    → (bs : List Block) × Known blocks chain bs
unfolding sum_new
sum_new-Known blocks [] sum total e = ([], no_blocks)
sum_new-Known blocks (hash ∷ chain) sum total e = elim (Option-cases (get hash blocks)) [
  | inl none_there ↦
      let nothing : sum_new blocks (hash ∷ chain) sum ≡ none = rw (sum_new, none_there) in
      absurd (cc (e, nothing))
  | inr known ↦
      let next : sum_new blocks (hash ∷ chain) sum
          ≡ sum_new blocks chain ((sum + known.0.burnfee) % 2 ^ 64) =
        rw (sum_new, known.1) in
      let rest =
        sum_new-Known blocks chain ((sum + known.0.burnfee) % 2 ^ 64) total (cc (e, next)) in
      (known.0 ∷ rest.0, one_more known.1 rest.1)
]

pub length-Known :
    (blocks : Blocks) (chain : List Bytes) (bs : List Block)
    → Known blocks chain bs
    → length bs ≡ length chain
length-Known blocks [] [] no_blocks = refl
length-Known blocks [] (b ∷ bs) k = elim k [ ]
length-Known blocks (hash ∷ chain) [] k = elim k [ ]
length-Known blocks (hash ∷ chain) (b ∷ bs) (one_more known rest) =
    ap suc (length-Known blocks chain bs rest)
