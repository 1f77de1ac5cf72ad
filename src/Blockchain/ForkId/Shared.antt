-- ===== src/Blockchain/ForkId/Shared.antt =====
-- What a fork id says, saito-core/src/core/consensus/blockchain.rs.
use saito_rust_workspace.Prelude.{
  ℕ, ◌+◌, ◌-◌, ◌%◌, ◌≤◌, ◌<◌, min, ◌≡◌, ◌⊎◌, refl, sym, Bool, true, false, Option, none, some, inl,
  inr, arith, leb, suc, ◌*◌, take, length,
}
use saito_rust_workspace.Bytes.{Bytes}
use saito_rust_workspace.Outcome.{ok, ◌>>=◌, >>=-eq-ok}
use saito_rust_workspace.BlockRing
use saito_rust_workspace.BlockRing.{BlockRing}
use saito_rust_workspace.Blockchain.ForkId.{
  compare_samples, generate_last_shared_ancestor, fork_id_weights, find_shared, value_or_0,
  generate_last_shared_ancestor_when_peer_behind, generate_last_shared_ancestor_when_peer_ahead,
}
use saito_rust_workspace.Blockchain.ForkId.Sample.{SameByte, total, compare_samples-Hit}

-- An id that a fork id samples, counted back from the newest id rounded down: the longest chain has a
-- block there, and its hash has the two bytes that the fork id has at the place of the sample.
pub record IsMatch (ring : BlockRing) (fork_id : Bytes) (newest id : ℕ) : Type 0 where
  pub place : ℕ
  pub in_range : place < length fork_id_weights
  pub sampled : id ≡ newest - newest % 10 - total (take (suc place) fork_id_weights)
  pub hash : Bytes
  pub longest : BlockRing.get_longest_chain_block_hash_at_block_id ring id ≡ ok (some hash)
  pub even : SameByte fork_id hash (2 * place)
  pub odd : SameByte fork_id hash (2 * place + 1)

ancestor-eq :
    (ring : BlockRing) (fork_id : Bytes) (newest id : ℕ) (found : Option ℕ)
    → ((f : ℕ) → found ≡ some f → (f ≡ 0) ⊎ IsMatch ring fork_id newest f)
    → value_or_0 found ≡ id
    → (id ≡ 0) ⊎ IsMatch ring fork_id newest id
ancestor-eq ring fork_id newest id none matches h = inl (sym h)
ancestor-eq ring fork_id newest id (some f) matches h = rw (← h) (matches f refl)

compared :
    (ring : BlockRing) (fork_id : Bytes) (newest : ℕ) (found : Option ℕ)
    → compare_samples ring fork_id fork_id_weights 0 (newest - newest % 10) ≡ ok found
    → (f : ℕ) → found ≡ some f
    → (f ≡ 0) ⊎ IsMatch ring fork_id newest f
compared ring fork_id newest found h f e =
    elim (compare_samples-Hit ring fork_id fork_id_weights 0 (newest - newest % 10) f (cc (h, e))) [
      | inl z ↦ inl z
      | inr m ↦
          let place : 0 + m.back ≡ m.back = omega arith in
          inr (record {
            place = m.back;
            in_range = m.in_range;
            sampled = m.sampled;
            hash = m.hash;
            longest = m.longest;
            even = rw place at m.even;
            odd = rw place at m.odd;
          })
    ]

find_shared-IsMatch :
    (ring : BlockRing) (peer latest : ℕ) (fork_id : Bytes) (found : Option ℕ)
    → find_shared ring peer fork_id latest ≡ ok found
    → (f : ℕ) → found ≡ some f
    → (f ≡ 0) ⊎ IsMatch ring fork_id (min latest peer) f
unfolding find_shared generate_last_shared_ancestor_when_peer_behind
    generate_last_shared_ancestor_when_peer_ahead
find_shared-IsMatch ring peer latest fork_id found = by_case (leb latest peer) refl
  where
    by_case :
        (ahead : Bool)
        → leb latest peer ≡ ahead
        → (elim ahead [
          | true ↦ compare_samples ring fork_id fork_id_weights 0 (latest - latest % 10)
          | false ↦ compare_samples ring fork_id fork_id_weights 0 (peer - peer % 10)
        ])
          ≡ ok found
        → (f : ℕ) → found ≡ some f
        → (f ≡ 0) ⊎ IsMatch ring fork_id (min latest peer) f
    by_case true t =
        let le : latest ≤ peer = ground (arith, t) in
        let newest : latest ≡ min latest peer = omega (arith, le) in
        rw (← newest) (compared ring fork_id latest found)
    by_case false t =
        let less : peer < latest = ground (arith, t) in
        let newest : peer ≡ min latest peer = omega (arith, less) in
        rw (← newest) (compared ring fork_id peer found)

-- The ancestor that is read from a peer's fork id is 0, or an id that the fork id samples, counted back
-- from the smaller of the two latest ids, rounded down to a multiple of 10: the own longest chain has
-- a block there whose hash has both bytes that the fork id has at the place of that sample.
pub generate_last_shared_ancestor-IsMatch :
    (ring : BlockRing) (peer latest id : ℕ) (fork_id : Bytes)
    → BlockRing.get_latest_block_id ring ≡ ok latest
    → generate_last_shared_ancestor ring peer fork_id ≡ ok id
    → (id ≡ 0) ⊎ IsMatch ring fork_id (min latest peer) id
unfolding generate_last_shared_ancestor
generate_last_shared_ancestor-IsMatch ring peer latest id fork_id here h =
    let (latest', e, h1) =
      >>=-eq-ok (BlockRing.get_latest_block_id ring)
        (λ my. find_shared ring peer fork_id my >>= λ found. ok (value_or_0 found)) h in
    let same : latest' ≡ latest = cc (here, e) in
    let (found, ran, h2) = >>=-eq-ok _ _ h1 in
    rw (← same) (
      ancestor-eq ring fork_id _ id found (find_shared-IsMatch ring peer latest' fork_id found ran)
        (cc (h2)))
