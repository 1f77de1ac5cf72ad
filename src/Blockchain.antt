-- ===== src/Blockchain.antt =====
-- saito-core/src/core/consensus/blockchain.rs: the parts of the chain that decide which block is
-- accepted and which chain is the longest. Of a block (saito-core/src/core/consensus/block.rs) only
-- the fields that these functions read are kept.
pub mod Chains
pub mod Tickets
pub mod ForkId
mod Tests
pub mod Winding
pub mod Ledger
pub mod Supply
pub mod AddBlock
use saito_rust_workspace.Prelude.{
  ℕ, zero, suc, ◌+◌, ◌-◌, ◌*◌, ◌/◌, ◌%◌, ◌^◌, ◌≤◌, ◌<◌, min, max, ◌≡◌, ◌≢◌, ◌↔◌, ◌⊎◌, refl, sym, ap,
  ap₂, ◌∙◌, fun_ext, Bool, true, false, not, ◌&&◌, ◌||◌, Option, none, some, inl, inr, List, [],
  ◌∷◌, ◌++◌, map, reverse, append-nil, append_assoc, arith, dec_lt, ℕ_discrete, ltb, leb, ◌==◌,
  if◌then◌else◌, ltb→lt, lt→ltb, leb→le, ==_iff, tests, Bool-cases, Option-cases, length, get_elem?,
  set, get_or, take, drop, replicate, length-append, length-set, length-take, length-drop,
  length-map, take-append-drop, All, any, keep_if, All-append, All-append_left, All-append_right,
  get_elem?_in_range, lt_of_get_elem?, get_elem?-append_end, All-set, All-get, any-append_end,
  get_elem?-set_self, get_elem?-set_ne,
}
use saito_rust_workspace.Bytes.{
  Bytes, AreBytes, IsArray, to_be_bytes, from_be_bytes, slice, index, bytes_eq, concat, zeros,
}
use saito_rust_workspace.Bytes.Endian.{
  length-to_be_bytes, to_be_bytes-AreBytes, from_be_bytes-to_be_bytes, to_be_bytes-from_be_bytes,
  from_be_bytes-lt,
}
use saito_rust_workspace.Bytes.Slices.{
  slice-append_skip, slice-append_self, slice-eq-ok, index-append_skip, bytes_eq_iff, bytes_eq_refl,
  slice_split, index_split, slice_in_range, drop-length, slice-IsArray, index-lt, index_in_range,
}
use saito_rust_workspace.Outcome.{
  Outcome, ok, err, panic, ◌>>=◌, ◌>>◌, check, assert, ok_or, unwrap, >>=-eq-ok, ErrorKind,
  invalid_input, invalid_data, not_found,
}
use saito_rust_workspace.Eq.{bytes_key}
use saito_rust_workspace.HashMap.{HashMap, get, contains_key}
pub use saito_rust_workspace.Block.{Block}
use saito_rust_workspace.BlockRing
use saito_rust_workspace.BlockRing.{BlockRing}
use saito_rust_workspace.Slip
use saito_rust_workspace.Slip.{Slip, UtxoSet, SlipType, block_stake}

abbrev pub Blocks : Type 0
Blocks = HashMap Bytes Block

-- the wallet, which is shared, is kept beside it
pub record Blockchain : Type 0 where
  pub utxoset : UtxoSet
  pub blockring : BlockRing
  pub blocks : Blocks
  pub genesis_block_id : ℕ
  pub fork_id : Option Bytes
  pub last_block_hash : Bytes
  pub last_block_id : ℕ
  pub last_timestamp : ℕ
  pub last_burnfee : ℕ
  pub genesis_timestamp : ℕ
  pub genesis_block_hash : Bytes
  pub lowest_acceptable_timestamp : ℕ
  pub lowest_acceptable_block_hash : Bytes
  pub lowest_acceptable_block_id : ℕ
  pub social_stake_requirement : ℕ
  pub social_stake_period : ℕ
  pub genesis_period : ℕ
  pub checkpoint_found : Bool
  pub initial_token_supply : ℕ
  pub last_issuance_written_on : ℕ

unfoldable pub new : ℕ → ℕ → ℕ → Blockchain
new genesis_period social_stake social_stake_period = record {
  utxoset = [];
  blockring = BlockRing.new genesis_period;
  blocks = [];
  genesis_block_id = 0;
  fork_id = none;
  last_block_hash = zeros 32;
  last_block_id = 0;
  last_timestamp = 0;
  last_burnfee = 0;
  genesis_timestamp = 0;
  genesis_block_hash = zeros 32;
  lowest_acceptable_timestamp = 0;
  lowest_acceptable_block_hash = zeros 32;
  lowest_acceptable_block_id = 0;
  social_stake_requirement = social_stake;
  social_stake_period = social_stake_period;
  genesis_period = genesis_period;
  checkpoint_found = false;
  initial_token_supply = 0;
  last_issuance_written_on = 0;
}

unfoldable pub bit_pack : ℕ → ℕ → ℕ
bit_pack top bottom = (top * 2 ^ 32 + bottom) % 2 ^ 64

-- top, bottom
unfoldable pub bit_unpack : ℕ → ℕ × ℕ
bit_unpack packed = (packed / 2 ^ 32 % 2 ^ 32, packed % 2 ^ 32)

unfoldable pub get_latest_block_id : Blockchain → Outcome ℕ
get_latest_block_id c = BlockRing.get_latest_block_id c.blockring

unfoldable pub get_latest_block : Blockchain → Outcome (Option Block)
get_latest_block c = BlockRing.get_latest_block_hash c.blockring >>= λ hash. ok (get hash c.blocks)

unfoldable pub is_block_indexed : Blockchain → Bytes → Bool
is_block_indexed c hash = contains_key hash c.blocks

-- `u64` arithmetic: the id comes from the ring, and the sum is below 2 ^ 64 for any id that a chain
-- reaches; it wraps otherwise.
unfoldable pub get_latest_unlocked_stake_block_id : Blockchain → Outcome ℕ
unfolding get_latest_block_id
get_latest_unlocked_stake_block_id c = do
  latest ← get_latest_block_id c
  ok (if ltb c.social_stake_period latest then (latest + 1) % 2 ^ 64 - c.social_stake_period else 0)

-- A key that does not parse, is not there, or is not spendable is locked; so is a stake whose block
-- is too young.
unfoldable pub is_slip_unlocked : Blockchain → Bytes → Outcome Bool
unfolding get_latest_unlocked_stake_block_id
is_slip_unlocked c utxo_key = do
  latest_unlocked_block_id ← get_latest_unlocked_stake_block_id c
  elim (Slip.parse_slip_from_utxokey utxo_key) [
    | panic ↦ panic
    | err e ↦ ok false
    | ok slip ↦ elim (get utxo_key c.utxoset) [
      | none ↦ ok false
      | some spendable ↦ elim spendable [
        | false ↦ ok false
        | true ↦ elim slip.slip_type [
          | block_stake ↦ ok (not (ltb latest_unlocked_block_id slip.block_id))
          | _ ↦ ok true
        ]
      ]
    ]
  ]

abbrev is_some {ℓ} : {A : Type ℓ} → Option A → Bool
is_some none = false
is_some (some x) = true

unfoldable pub has_total_supply_loaded : Blockchain → ℕ → Outcome Bool
has_total_supply_loaded c genesis_period = do
  first ← BlockRing.get_longest_chain_block_hash_at_block_id c.blockring 1
  latest_block_id ← get_latest_block_id c
  elim (ltb genesis_period latest_block_id) [
    | false ↦ ok (is_some first)
    | true ↦
        BlockRing.get_longest_chain_block_hash_at_block_id c.blockring
          (latest_block_id - genesis_period)
        >>= λ result. ok (is_some first || is_some result)
  ]
