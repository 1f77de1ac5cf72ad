-- ===== src/Blockchain/AddBlock/Keeps.antt =====
-- The steps of `add_block_success` of saito-core/src/core/consensus/blockchain.rs keep the blocks that
-- the chain has.
use saito_rust_workspace.Prelude.{
  ℕ, ◌-◌, ◌≡◌, refl, true, false, Option, none, some, arith, ltb, if◌then◌else◌,
}
use saito_rust_workspace.Bytes.{Bytes, bytes_eq, zeros}
use saito_rust_workspace.Outcome.{Outcome, ok, ◌>>=◌, unwrap}
use saito_rust_workspace.Outcome.{Gives, Gives-bind, Gives-unit}
use saito_rust_workspace.HashMap.{get-insert}
use saito_rust_workspace.Eq.{bytes_key}
use saito_rust_workspace.HashMap.{get, insert, contains_key}
use saito_rust_workspace.BlockRing
use saito_rust_workspace.BlockRing.{BlockRing}
use saito_rust_workspace.Block.{Block, BlockType, pruned}
use saito_rust_workspace.Block.Upgrade.{upgrade_block_to_block_type}
use saito_rust_workspace.Mempool
use saito_rust_workspace.Mempool.{Mempool}
use saito_rust_workspace.Blockchain.{Blockchain, Blocks, get_latest_block_id}
use saito_rust_workspace.Blockchain.Ledger.{WalletOps, Env, upgrade_at}
use saito_rust_workspace.Blockchain.Ledger.Steps.{update_fork_id, set_fork_id}
use saito_rust_workspace.Blockchain.ForkId.{generate_fork_id}
use saito_rust_workspace.Blockchain.AddBlock.{
  Setup, World, set_safe_to_prune_transaction, note_issuance,
}
use saito_rust_workspace.Blockchain.AddBlock.Run.{prune_blocks_after_add_block, add_block_success}

-- the chain has a block with the hash
abbrev pub Has : Bytes → Blockchain → Type 0
Has hash c = contains_key hash c.blocks ≡ true

Gives-unwrap : {A : Type 0} (o : Option A) → Gives (λ a. o ≡ some a) (unwrap o)
Gives-unwrap (some a) = refl
Gives-unwrap none = tt

has_inserted :
    (k h : Bytes) (b : Block) (blocks : Blocks)
    → contains_key k blocks ≡ true
    → contains_key k (insert h b blocks) ≡ true
unfolding contains_key
has_inserted k h b blocks here = ground (arith, here, get-insert h k b blocks)

fork_id-keeps :
    (k : Bytes) (c : Blockchain) (id : ℕ) → Has k c → Gives (Has k) (update_fork_id c id)
unfolding update_fork_id set_fork_id
fork_id-keeps k c id here =
    Gives-bind (λ fork_id. Unit {0}) (Has k) (generate_fork_id c.blockring id) _
      (Gives-unit (generate_fork_id c.blockring id))
      (λ fork_id p.
        elim (bytes_eq fork_id (zeros 32))
          as (λ b. Has k (if b then c else set_fork_id c fork_id)) [ true ↦ here | false ↦ here ])

safe-keeps :
    (k : Bytes) (c : Blockchain) (id : ℕ)
    → Has k c
    → Gives (Has k) (set_safe_to_prune_transaction c id)
unfolding set_safe_to_prune_transaction
safe-keeps k c id here =
    Gives-bind (λ found. Unit {0}) (Has k) (BlockRing.get_block_hash_by_block_id c.blockring id) _
      (Gives-unit (BlockRing.get_block_hash_by_block_id c.blockring id)) (λ found p. marks found)
  where
    marks :
        (found : Option Bytes)
        → Gives (Has k) (elim found [
          | none ↦ ok c
          | some hash ↦ elim (get hash c.blocks) [
            | none ↦ ok c
            | some block ↦ ok (record c {
              blocks = insert hash (record block { safe_to_prune_transactions = true }) c.blocks;
            })
          ]
        ])
    marks none = here
    marks (some hash) =
        elim (get hash c.blocks)
          as (λ o. Gives (Has k) (elim o [
            | none ↦ ok c
            | some block ↦ ok (record c {
              blocks = insert hash (record block { safe_to_prune_transactions = true }) c.blocks;
            })
          ])) [
            | none ↦ here
            | some block ↦
                has_inserted k hash (record block { safe_to_prune_transactions = true }) c.blocks
                  here
          ]

contains_of :
    (k : Bytes) (blocks : Blocks) {b : Block} → get k blocks ≡ some b → contains_key k blocks ≡ true
unfolding contains_key
contains_of k blocks e = rw (contains_key, e) refl

pub contains_none :
    (k : Bytes) (blocks : Blocks) → get k blocks ≡ none → contains_key k blocks ≡ false
unfolding contains_key
contains_none k blocks e = rw (contains_key, e) refl

module _ {W : Type 0} (ops : WalletOps W) (env : Env) (setup : Setup) where
  upgrade-keeps :
      (k hash : Bytes) (c : Blockchain) (t : BlockType)
      → Has k c
      → Gives (Has k) (upgrade_at ops env c hash t)
  unfolding upgrade_at
  upgrade-keeps k hash c t here =
      Gives-bind (λ b. Unit {0}) (Has k) (unwrap (get hash c.blocks)) _
        (Gives-unit (unwrap (get hash c.blocks)))
        (λ b p.
          Gives-bind (λ u. Unit {0}) (Has k)
            (upgrade_block_to_block_type env.hash env.load_block b t env.is_spv_mode) _
            (Gives-unit (upgrade_block_to_block_type env.hash env.load_block b t env.is_spv_mode))
            (λ u q. has_inserted k hash u.0 c.blocks here))

  prune-keeps :
      (k : Bytes) (c : Blockchain)
      → Has k c
      → Gives (Has k) (prune_blocks_after_add_block ops env setup c)
  unfolding prune_blocks_after_add_block
  prune-keeps k c here =
      Gives-bind (λ id. Unit {0}) (Has k) (get_latest_block_id c) _
        (Gives-unit (get_latest_block_id c))
        (λ id p.
          elim (ltb env.genesis_period id)
            as (λ b. Gives (Has k) (elim b [
              | false ↦ ok c
              | true ↦ found id >>= λ longest. elim longest [
                | none ↦ ok c
                | some hash ↦ upgrade_at ops env c hash pruned
              ]
            ])) [
              | false ↦ here
              | true ↦
                  Gives-bind (λ o. Unit {0}) (Has k) (found id) _ (Gives-unit (found id))
                    (λ o q.
                      elim o
                        as (λ o.
                          Gives (Has k) (elim o [
                            | none ↦ ok c
                            | some hash ↦ upgrade_at ops env c hash pruned
                          ])) [ none ↦ here | some hash ↦ upgrade-keeps k hash c pruned here ])
            ])
    where
      found : ℕ → Outcome (Option Bytes)
      found id =
          BlockRing.get_longest_chain_block_hash_at_block_id c.blockring (id - env.genesis_period)

  issuance-keeps :
      (k : Bytes) (c : Blockchain) (b : Block) → Has k c → Has k (note_issuance env setup c b)
  unfolding note_issuance
  issuance-keeps k c b here = ground (arith, here)

  pub success-Has :
      (w : World W) (hash : Bytes)
      → Gives (λ v. Has hash v.node.chain) (add_block_success ops env setup w hash)
  unfolding add_block_success contains_key
  success-Has w hash =
      let Good : World W → Type 0 = λ v. Has hash v.node.chain in
      Gives-bind (λ b. get hash w.node.chain.blocks ≡ some b) Good
        (unwrap (get hash w.node.chain.blocks)) _ (Gives-unwrap (get hash w.node.chain.blocks))
        (λ b known.
          let here : Has hash w.node.chain = contains_of hash w.node.chain.blocks known in
          let noted : Blockchain = note_issuance env setup w.node.chain b in
          Gives-bind (Has hash) Good (update_fork_id noted b.id) _
            (fork_id-keeps hash noted b.id (issuance-keeps hash w.node.chain b here))
            (λ forked p.
              Gives-bind (Has hash) Good (set_safe_to_prune_transaction forked b.id) _
                (safe-keeps hash forked b.id p)
                (λ safe q.
                  Gives-bind (λ a. Unit {0}) Good (unwrap (get hash safe.blocks)) _
                    (Gives-unit (unwrap (get hash safe.blocks)))
                    (λ a r.
                      Gives-bind (λ m. Unit {0}) Good
                        (Mempool.remove_block_transactions w.mempool safe.utxoset a.transactions) _
                        (Gives-unit
                          (Mempool.remove_block_transactions w.mempool safe.utxoset a.transactions))
                        (λ m t.
                          Gives-bind (Has hash) Good
                            (prune_blocks_after_add_block ops env setup safe) _
                            (prune-keeps hash safe q) (λ c u. u))))))
