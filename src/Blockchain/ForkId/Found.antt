-- ===== src/Blockchain/ForkId/Found.antt =====
-- What is read from the fork id of a peer on the same chain,
-- saito-core/src/core/consensus/blockchain.rs.
use saito_rust_workspace.Prelude.{
  ℕ, ◌+◌, ◌-◌, ◌*◌, ◌%◌, ◌≤◌, ◌<◌, ◌≡◌, ◌≢◌, ◌⊎◌, sym, ap, ◌∙◌, Bool, true, false, Option, none,
  some, inl, inr, List, [], ◌∷◌, arith, ltb, leb, ◌==◌, leb→le, Bool-cases, length, get_elem?, set,
  drop, get_elem?_in_range, get_elem?-set_ne,
}
use saito_rust_workspace.Bytes.{Bytes, index, zeros}
use saito_rust_workspace.Outcome.{Outcome, ok, ◌>>=◌, unwrap, >>=-eq-ok}
use saito_rust_workspace.BlockRing
use saito_rust_workspace.BlockRing.{BlockRing}
use saito_rust_workspace.Blockchain.ForkId.{
  sample, generate_fork_id, same_sample, compare_samples, generate_last_shared_ancestor,
  fork_id_weights, find_shared, generate_last_shared_ancestor_when_peer_behind,
  generate_last_shared_ancestor_when_peer_ahead,
}

-- the step with a known hash
abbrev two_bytes : BlockRing → List ℕ → ℕ → ℕ → Bytes → Bytes → Outcome Bytes
two_bytes ring weights i id fork_id hash = do
  byte ← index hash (2 * i)
  next_byte ← index hash (2 * i + 1)
  sample ring weights (i + 1) id (set (set fork_id (2 * i) byte) (2 * i + 1) next_byte)

stopped :
    (test : Bool) (fork_id : Bytes) (rest : Outcome Bytes) (result : Bytes)
    → (elim test [ true ↦ ok fork_id | false ↦ rest ]) ≡ ok result
    → (fork_id ≡ result) ⊎ (rest ≡ ok result)
stopped true fork_id rest result h = inl (cc (h))
stopped false fork_id rest result h = inr h

-- what the later samples leave as it is
sample-get :
    (ring : BlockRing) (weights : List ℕ) (i id : ℕ) (fork_id result : Bytes) (j : ℕ)
    → sample ring weights i id fork_id ≡ ok result
    → j < 2 * i
    → get_elem? result j ≡ get_elem? fork_id j
unfolding sample
sample-get ring [] i id fork_id result j h below = ap (λ bs. get_elem? bs j) (cc (h))
sample-get ring (weight ∷ weights) i id fork_id result j h below =
    elim (stopped (leb id weight) fork_id _ result h) [
      | inl e ↦ ap (λ bs. get_elem? bs j) (sym e)
      | inr h1 ↦
          let (longest, here, h2) =
            >>=-eq-ok (BlockRing.get_longest_chain_block_hash_at_block_id ring (id - weight)) _
              h1 in
          from (sample-get ring weights (i + 1) (id - weight)) longest h2
    ]
  where
    from :
        ((f r : Bytes) (k : ℕ)
          → sample ring weights (i + 1) (id - weight) f ≡ ok r
          → k < 2 * (i + 1)
          → get_elem? r k ≡ get_elem? f k)
        → (longest : Option Bytes)
        → (elim longest [
          | none ↦ ok fork_id
          | some block_hash ↦ two_bytes ring weights i (id - weight) fork_id block_hash
        ])
          ≡ ok result
        → get_elem? result j ≡ get_elem? fork_id j
    from rest none g = ap (λ bs. get_elem? bs j) (cc (g))
    from rest (some hash) g =
        let (byte, byte_is, g1) = >>=-eq-ok (index hash (2 * i)) _ g in
        let (next, next_is, g2) = >>=-eq-ok (index hash (2 * i + 1)) _ g1 in
        let past : 2 * i + 1 ≢ j = λ e. omega (arith, below, e) in
        let past' : 2 * i ≢ j = λ e. omega (arith, below, e) in
        rest _ result j g2 (omega (arith, below))
        ∙ get_elem?-set_ne (set fork_id (2 * i) byte) next past
        ∙ get_elem?-set_ne fork_id byte past'

minus_zero : (n : ℕ) → n - 0 ≡ n
minus_zero n = omega arith

-- the two bytes of the first sample
first_bytes :
    (ring : BlockRing) (weights : List ℕ) (start : ℕ) (hash fork_id : Bytes) (a b : ℕ)
    → 0 < start
    → BlockRing.get_longest_chain_block_hash_at_block_id ring start ≡ ok (some hash)
    → get_elem? hash 0 ≡ some a
    → get_elem? hash 1 ≡ some b
    → sample ring (0 ∷ weights) 0 start (zeros 32) ≡ ok fork_id
    → (get_elem? fork_id 0 ≡ some a) × (get_elem? fork_id 1 ≡ some b)
unfolding sample index zeros
first_bytes ring weights start hash fork_id a b pos here first second h =
    let above : leb start 0 ≡ false = ground (arith, pos) in
    let here' : BlockRing.get_longest_chain_block_hash_at_block_id ring (start - 0)
        ≡ ok (some hash) =
      rw (minus_zero start) here in
    let opened : sample ring (0 ∷ weights) 0 start (zeros 32)
        ≡ sample ring weights 1 (start - 0) (set (set (zeros 32) 0 a) 1 b) =
      rw (sample, above, here', first, unwrap, ◌>>=◌, second) in
    let rest : sample ring weights 1 (start - 0) (set (set (zeros 32) 0 a) 1 b) ≡ ok fork_id =
      sym opened ∙ h in
    (
      sample-get ring weights 1 (start - 0) _ fork_id 0 rest (omega arith),
      sample-get ring weights 1 (start - 0) _ fork_id 1 rest (omega arith),
    )

same_first :
    (hash fork_id : Bytes) (a b : ℕ)
    → get_elem? hash 0 ≡ some a
    → get_elem? hash 1 ≡ some b
    → get_elem? fork_id 0 ≡ some a
    → get_elem? fork_id 1 ≡ some b
    → same_sample fork_id hash 0 ≡ ok true
unfolding same_sample index
same_first hash fork_id a b h0 h1 f0 f1 =
    let same : (a == a) ≡ true = ground arith in
    let same' : (b == b) ≡ true = ground arith in
    rw (f0, h0, unwrap, ◌>>=◌, same, f1, h1, unwrap, ◌>>=◌, same')

found_first :
    (ring : BlockRing) (weights : List ℕ) (start : ℕ) (hash fork_id : Bytes)
    → BlockRing.get_longest_chain_block_hash_at_block_id ring start ≡ ok (some hash)
    → same_sample fork_id hash 0 ≡ ok true
    → compare_samples ring fork_id (0 ∷ weights) 0 start ≡ ok (some start)
unfolding compare_samples
found_first ring weights start hash fork_id here same =
    let above : ltb start 0 ≡ false = ground arith in
    let here' : BlockRing.get_longest_chain_block_hash_at_block_id ring (start - 0)
        ≡ ok (some hash) =
      rw (minus_zero start) here in
    rw (compare_samples, above, here', same, minus_zero start)

-- both cases start at the same id
find_shared-eq :
    (ring : BlockRing) (block_id latest : ℕ) (fork_id : Bytes)
    → block_id ≤ latest
    → find_shared ring block_id fork_id latest
      ≡ compare_samples ring fork_id fork_id_weights 0 (block_id - block_id % 10)
unfolding find_shared generate_last_shared_ancestor_when_peer_behind
    generate_last_shared_ancestor_when_peer_ahead
find_shared-eq ring block_id latest fork_id le = elim (Bool-cases (leb latest block_id)) [
  | inl ahead ↦
      let equal : latest ≡ block_id = omega (arith, le, leb→le latest block_id ahead) in
      rw (find_shared, ahead)
        (ap (λ n. compare_samples ring fork_id fork_id_weights 0 (n - n % 10)) equal)
  | inr behind ↦ rw (find_shared, behind)
]

-- What one node samples at a block id of at least 10, another reads as that id rolled back to a
-- multiple of 10, where both have one block of 32 bytes of hash in their longest chains there and
-- the reader's latest id is no smaller.
pub generate_last_shared_ancestor-generate_fork_id :
    (theirs mine : BlockRing) (block_id latest : ℕ) (hash fork_id : Bytes)
    → 10 ≤ block_id
    → block_id ≤ latest
    → length hash ≡ 32
    → BlockRing.get_longest_chain_block_hash_at_block_id theirs (block_id - block_id % 10)
      ≡ ok (some hash)
    → BlockRing.get_longest_chain_block_hash_at_block_id mine (block_id - block_id % 10)
      ≡ ok (some hash)
    → BlockRing.get_latest_block_id mine ≡ ok latest
    → generate_fork_id theirs block_id ≡ ok fork_id
    → generate_last_shared_ancestor mine block_id fork_id ≡ ok (block_id - block_id % 10)
unfolding generate_last_shared_ancestor generate_fork_id
generate_last_shared_ancestor-generate_fork_id theirs mine block_id latest hash fork_id ten le size
      there here latest_is h =
    let (a, first) = get_elem?_in_range hash 0 (omega (arith, size)) in
    let (b, second) = get_elem?_in_range hash 1 (omega (arith, size)) in
    let (f0, f1) =
      first_bytes theirs (drop 1 fork_id_weights) (block_id - block_id % 10) hash fork_id a b
        (omega (arith, ten)) there first second h in
    let found =
      found_first mine (drop 1 fork_id_weights) (block_id - block_id % 10) hash fork_id here
        (same_first hash fork_id a b first second f0 f1) in
    let shared : find_shared mine block_id fork_id latest ≡ ok (some (block_id - block_id % 10)) =
      find_shared-eq mine block_id latest fork_id le ∙ found in
    rw (latest_is, shared)
