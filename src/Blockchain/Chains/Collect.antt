-- ===== src/Blockchain/Chains/Collect.antt =====
-- The walks that collect the chains to compare, saito-core/src/core/consensus/blockchain.rs: they
-- end, and what they collect is one chain.
use saito_rust_workspace.Prelude.{
  ℕ, zero, suc, ◌+◌, ◌<◌, ◌≡◌, ◌⊎◌, refl, Bool, true, false, Option, none, some, inl, inr, List, [],
  ◌∷◌, arith, Bool-cases, Option-cases,
}
use saito_rust_workspace.Bytes.{Bytes, bytes_eq, zeros}
use saito_rust_workspace.Bytes.Slices.{bytes_eq_iff}
use saito_rust_workspace.Eq.{bytes_key}
use saito_rust_workspace.HashMap.{get}
use saito_rust_workspace.Blockchain.{Block, Blocks}
use saito_rust_workspace.Blockchain.Chains.{new_chain_from}

-- a block's parent, where it is known, has a smaller id
unfoldable pub IsDescending : Blocks → Type 0
IsDescending blocks =
    (hash parent_hash : Bytes) (block parent : Block)
    → get hash blocks ≡ some block
    → block.previous_block_hash ≡ parent_hash
    → get parent_hash blocks ≡ some parent
    → parent.id < block.id

-- the blocks of a new chain: known, outside the longest chain, and each the parent of the one before
pub IsBranch : Blocks → Bytes → List Bytes → Bytes → Type 0
IsBranch blocks hash [] stop = hash ≡ stop
IsBranch blocks hash (h ∷ hs) stop =
    (h ≡ hash)
    × (block : Block) × (get hash blocks ≡ some block)
    × (block.in_longest_chain ≡ false)
    × IsBranch blocks block.previous_block_hash hs stop

-- why a walk may end at a hash
pub IsStop : Blocks → Bool → Bytes → Type 0
IsStop blocks true stop =
    (block : Block) × (get stop blocks ≡ some block) × (block.in_longest_chain ≡ true)
IsStop blocks false stop = (get stop blocks ≡ none) ⊎ (stop ≡ zeros 32)

-- what the walk from a hash gives
pub Collected : Blocks → Bytes → Option (Bool × Bytes × List Bytes) → Type 0
Collected blocks hash r =
    (shared : Bool) × (stop : Bytes) × (chain : List Bytes) × (r ≡ some (shared, stop, chain))
    × IsBranch blocks hash chain stop
    × IsStop blocks shared stop

step :
    (blocks : Blocks) (hash : Bytes) (block : Block) (rest : Option (Bool × Bytes × List Bytes))
    → get hash blocks ≡ some block
    → block.in_longest_chain ≡ false
    → Collected blocks block.previous_block_hash rest
    → Collected blocks hash (elim rest [ none ↦ none | some r ↦ some (r.0, r.1, hash ∷ r.2) ])
unfolding Collected IsBranch
step blocks hash block rest known outside (shared, stop, chain, e, branch, ends) =
    (shared, stop, hash ∷ chain, rw e, (refl, block, known, outside, branch), ends)

module _ (blocks : Blocks) (fuel : ℕ) (hash : Bytes) where
  ends_unknown :
      get hash blocks ≡ none → new_chain_from blocks (suc fuel) hash ≡ some (false, hash, [])
  unfolding new_chain_from
  ends_unknown h = rw (new_chain_from, h)

  ends_shared :
      (block : Block)
      → get hash blocks ≡ some block
      → block.in_longest_chain ≡ true
      → new_chain_from blocks (suc fuel) hash ≡ some (true, hash, [])
  unfolding new_chain_from
  ends_shared block known inside = rw (new_chain_from, known, inside)

  ends_zero :
      (block : Block)
      → get hash blocks ≡ some block
      → block.in_longest_chain ≡ false
      → bytes_eq hash (zeros 32) ≡ true
      → new_chain_from blocks (suc fuel) hash ≡ some (false, hash, [])
  unfolding new_chain_from
  ends_zero block known outside zero_hash = rw (new_chain_from, known, outside, zero_hash)

  goes_on :
      (block : Block)
      → get hash blocks ≡ some block
      → block.in_longest_chain ≡ false
      → bytes_eq hash (zeros 32) ≡ false
      → new_chain_from blocks (suc fuel) hash
        ≡ (elim (new_chain_from blocks fuel block.previous_block_hash) [
          | none ↦ none
          | some r ↦ some (r.0, r.1, hash ∷ r.2)
        ])
  unfolding new_chain_from
  goes_on block known outside not_zero = rw (new_chain_from, known, outside, not_zero)

collected :
    (blocks : Blocks)
    → IsDescending blocks
    → (fuel : ℕ) (hash : Bytes) → 0 < fuel
    → ((block : Block) → get hash blocks ≡ some block → block.id + 1 < fuel)
    → Collected blocks hash (new_chain_from blocks fuel hash)
unfolding Collected IsBranch IsStop IsDescending
collected blocks descends zero hash some_fuel room = absurd (omega (arith, some_fuel))
collected blocks descends (suc fuel) hash some_fuel room = elim (Option-cases (get hash blocks)) [
  | inl unknown ↦ (false, hash, [], ends_unknown blocks fuel hash unknown, refl, inl unknown)
  | inr (block, known) ↦ elim (Bool-cases block.in_longest_chain) [
    | inl inside ↦ (
      true,
      hash,
      [],
      ends_shared blocks fuel hash block known inside,
      refl,
      (block, known, inside),
    )
    | inr outside ↦ elim (Bool-cases (bytes_eq hash (zeros 32))) [
      | inl zero_hash ↦ (
        false,
        hash,
        [],
        ends_zero blocks fuel hash block known outside zero_hash,
        refl,
        inr ((bytes_eq_iff hash (zeros 32)).0 zero_hash),
      )
      | inr not_zero ↦ rw (goes_on blocks fuel hash block known outside not_zero) (
          step blocks hash block _ known outside (
            collected blocks descends fuel block.previous_block_hash
              (omega (arith, room block known))
              (λ parent parent_known.
                omega
                  (arith, room block known, descends hash _ block parent known refl parent_known))))
    ]
  ]
]

-- Where each known parent has a smaller id, the walk from a block with more fuel than its id and one
-- ends. What it collects are known blocks outside the longest chain, each the parent of the one
-- before, from the hash on; and it ends at a block of the longest chain, which it says, or at an
-- unknown hash or the zero hash.
pub new_chain_from-Collected :
    (blocks : Blocks)
    → IsDescending blocks
    → (hash : Bytes) (block : Block) → get hash blocks ≡ some block
    → (fuel : ℕ) → block.id + 1 < fuel
    → Collected blocks hash (new_chain_from blocks fuel hash)
new_chain_from-Collected blocks descends hash block known fuel enough =
    collected blocks descends fuel hash (omega (arith, enough))
      (λ block' known'. let same : block' ≡ block = cc (known, known') in rw same enough)
