-- ===== src/Blockchain/AddBlock/Results.antt =====
-- What each result of `add_block` of saito-core/src/core/consensus/blockchain.rs says of the blocks
-- that the chain has afterwards.
use saito_rust_workspace.Prelude.{
  ℕ, ◌-◌, min, max, ◌≡◌, refl, Bool, true, false, ◌||◌, Option, none, some, inl, inr, List, arith,
  ltb, if◌then◌else◌, Bool-cases, Option-cases, any,
}
use saito_rust_workspace.Bytes.{Bytes, bytes_eq}
use saito_rust_workspace.Bytes.Slices.{bytes_eq_refl}
use saito_rust_workspace.Outcome.{ok, ◌>>=◌, unwrap}
use saito_rust_workspace.Outcome.{Gives, Gives-bind, Gives-unit}
use saito_rust_workspace.HashMap.{get-remove}
use saito_rust_workspace.Eq.{bytes_key}
use saito_rust_workspace.HashMap.{get, contains_key}
use saito_rust_workspace.BlockRing
use saito_rust_workspace.BlockRing.{BlockRing}
use saito_rust_workspace.Block.{Block}
use saito_rust_workspace.Mempool.{Mempool}
use saito_rust_workspace.Blockchain.{Blockchain, get_latest_block_id}
use saito_rust_workspace.Blockchain.Supply.{check_total_supply}
use saito_rust_workspace.Blockchain.Winding.{validate}
use saito_rust_workspace.Blockchain.Ledger.{WalletOps, Env, Node}
use saito_rust_workspace.Blockchain.Ledger.Steps.{chain_ops}
use saito_rust_workspace.Blockchain.AddBlock.{
  AddBlockResult, block_added_successfully, block_already_exists, failed_but_retry,
  failed_not_valid, Setup, World, set_in_longest_chain, turn_away, lacks_parent, abs_diff,
}
use saito_rust_workspace.Blockchain.AddBlock.Run.{
  add_block_success, add_block_failure, insert_block, find_chains, am_i_the_longest_chain,
  after_validate, settle, accept, add_generated,
}
use saito_rust_workspace.Blockchain.AddBlock.Keeps.{Has, contains_none, success-Has}

-- What a result says: the block was there; nothing changed; the block is not in; the block is in.
abbrev pub Says : {W : Type 0} → World W → Bytes → Option (World W × AddBlockResult) → Type 0
Says w hash none = Unit {0}
Says w hash (some (v, block_already_exists)) = (v ≡ w) × Has hash w.node.chain
Says w hash (some (v, failed_but_retry block previous whole)) = v ≡ w
Says w hash (some (v, failed_not_valid)) = contains_key hash v.node.chain.blocks ≡ false
Says w hash (some (v, block_added_successfully added longest updated)) =
    (added ≡ hash) × Has hash v.node.chain

module _ {W : Type 0} (ops : WalletOps W) (env : Env) (setup : Setup) where
  failure-lacks :
      (w : World W) (hash : Bytes)
      → Gives
          (λ v. contains_key hash v.node.chain.blocks ≡ false)
          (add_block_failure ops env setup w hash)
  unfolding add_block_failure contains_key
  failure-lacks w hash = elim (Option-cases (get hash w.node.chain.blocks)) [
    | inl e ↦ rw (add_block_failure, e) (contains_none hash w.node.chain.blocks e)
    | inr known ↦
        rw (add_block_failure, known.1)
          (Gives-bind (λ r. Unit {0}) (λ v. contains_key hash v.node.chain.blocks ≡ false)
            (BlockRing.delete_block w.node.chain.blockring known.0.id known.0.hash) _
            (Gives-unit (BlockRing.delete_block w.node.chain.blockring known.0.id known.0.hash))
            (λ r p. ground (arith, get-remove hash hash w.node.chain.blocks, bytes_eq_refl hash)))
  ]

  validate-Says :
      (w : World W) (mempool : Mempool) (hash : Bytes) (end : Option (Node W × Bool × Bool))
      → Gives (Says w hash) (after_validate ops env setup mempool hash end)
  unfolding after_validate
  validate-Says w mempool hash none = tt
  validate-Says w mempool hash (some (node, true, updated)) =
      let supply =
        check_total_supply node.chain env.genesis_period (env.is_browser || env.is_spv_mode) in
      Gives-bind (λ c. Unit {0}) (Says w hash) supply _ (Gives-unit supply)
        (λ c p.
          let start : World W = record { node = record node { chain = c }; mempool = mempool } in
          Gives-bind (λ v. Has hash v.node.chain) (Says w hash)
            (add_block_success ops env setup start hash) _ (success-Has ops env setup start hash)
            (λ v q. (refl, q)))
  validate-Says w mempool hash (some (node, false, updated)) =
      Gives-bind (λ b. Unit {0}) (Says w hash) (unwrap (get hash node.chain.blocks)) _
        (Gives-unit (unwrap (get hash node.chain.blocks)))
        (λ b p.
          let chain : Blockchain = record node.chain {
            blocks = set_in_longest_chain false hash node.chain.blocks;
          } in
          let start : World W = record {
            node = record node { chain = chain };
            mempool = mempool;
          } in
          Gives-bind (λ v. contains_key hash v.node.chain.blocks ≡ false) (Says w hash)
            (add_block_failure ops env setup start hash) _ (failure-lacks start hash) (λ v q. q))

  settle-Says :
      (fuel : ℕ) (w : World W) (block : Block) (c : Blockchain) (new_chain old_chain : List Bytes)
      → (longest : Bool)
      → Gives (Says w block.hash) (settle ops env setup fuel w block c new_chain old_chain longest)
  unfolding settle
  settle-Says fuel w block c new_chain old_chain true =
      let tip : Blockchain = record c { blocks = set_in_longest_chain true block.hash c.blocks } in
      let end =
        validate (chain_ops ops env) fuel (record w.node { chain = tip }) new_chain old_chain in
      Gives-bind (λ r. Unit {0}) (Says w block.hash) end _ (Gives-unit end)
        (λ r p. validate-Says w w.mempool block.hash r)
  settle-Says fuel w block c new_chain old_chain false =
      let start : World W = record w { node = record w.node { chain = c } } in
      Gives-bind (λ v. Has block.hash v.node.chain) (Says w block.hash)
        (add_block_success ops env setup start block.hash) _
        (success-Has ops env setup start block.hash) (λ v q. (refl, q))

  accept-Says :
      (fuel : ℕ) (w : World W) (latest : Bytes) (block : Block)
      → Gives (Says w block.hash) (accept ops env setup fuel w latest block)
  unfolding accept
  accept-Says fuel w latest block =
      let inserted = insert_block ops env setup w.node.chain block in
      Gives-bind (λ c. Unit {0}) (Says w block.hash) inserted _ (Gives-unit inserted)
        (λ c p.
          let chains = find_chains ops env setup fuel c latest block in
          Gives-bind (λ f. Unit {0}) (Says w block.hash) chains _ (Gives-unit chains)
            (λ f q. each f))
    where
      each :
          (f : Option (Blockchain × List Bytes × List Bytes))
          → Gives (Says w block.hash) (elim f [
            | none ↦ ok none
            | some (c, new_chain, old_chain) ↦
                am_i_the_longest_chain ops env setup c block.id new_chain old_chain >>= λ longest.
                settle ops env setup fuel w block
                  (record c { blockring = record c.blockring { empty = false } })
                  new_chain
                  old_chain
                  longest
          ])
      each none = tt
      each (some (c, new_chain, old_chain)) =
          let longest = am_i_the_longest_chain ops env setup c block.id new_chain old_chain in
          Gives-bind (λ b. Unit {0}) (Says w block.hash) longest _ (Gives-unit longest)
            (λ b p.
              settle-Says fuel w block
                (record c { blockring = record c.blockring { empty = false } }) new_chain old_chain
                b)

  turned_away-Says :
      (w : World W) (latest_block_id : ℕ) (block : Block)
      → contains_key block.hash w.node.chain.blocks ≡ false
      → Says w block.hash (some (w, turn_away env w.mempool latest_block_id block))
  unfolding turn_away
  turned_away-Says w latest_block_id block fresh =
      picked (any (λ b. bytes_eq block.previous_block_hash b.hash) w.mempool.blocks_queue)
        (ltb (max 1 (latest_block_id - env.genesis_period)) block.id)
        (ltb (abs_diff block.id latest_block_id) (min 1000 env.genesis_period))
    where
      picked :
          (a b c : Bool)
          → Says w block.hash (
              some (
                w,
                if a
                    then failed_but_retry block false false
                    else if b
                    then (if c
                        then failed_but_retry block true false
                        else failed_but_retry block false true)
                    else failed_not_valid,
              ))
      picked true b c = refl
      picked false true true = refl
      picked false true false = refl
      picked false false c = fresh

  -- What the results of `add_block` say, for a block that knows itself, if the search for the chains and
  -- the loop of `validate` end on the fuel and nothing panics. The block already exists: it was in the
  -- map, and nothing changed. To be tried again: nothing changed. Not valid: the map does not have the
  -- block, also where the loop of `validate` gave up on it. Added: the map has the block.
  pub add_generated-Says :
      (fuel : ℕ) (w : World W) (block : Block)
      → Gives (Says w block.hash) (add_generated ops env setup fuel w block)
  unfolding add_generated
  add_generated-Says fuel w block =
      let latest = BlockRing.get_latest_block_hash w.node.chain.blockring in
      Gives-bind (λ h. Unit {0}) (Says w block.hash) latest _ (Gives-unit latest)
        (λ h p. elim (Bool-cases (contains_key block.hash w.node.chain.blocks)) [
          | inl known ↦ rw known (refl, known)
          | inr fresh ↦
              rw fresh
                (elim (lacks_parent setup w.node.chain block)
                  as (λ b. Gives (Says w block.hash) (elim b [
                    | true ↦ get_latest_block_id w.node.chain >>= λ latest_block_id.
                        ok (some (w, turn_away env w.mempool latest_block_id block))
                    | false ↦ accept ops env setup fuel w h block
                  ])) [
                    | true ↦
                        Gives-bind (λ id. Unit {0}) (Says w block.hash)
                          (get_latest_block_id w.node.chain) _
                          (Gives-unit (get_latest_block_id w.node.chain))
                          (λ id q. turned_away-Says w id block fresh)
                    | false ↦ accept-Says fuel w h block
                  ])
        ])
