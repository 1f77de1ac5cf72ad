-- ===== src/Blockchain/Tickets.antt =====
-- `is_golden_ticket_count_valid_` of saito-core/src/core/consensus/blockchain.rs: a block needs
-- enough golden tickets among its ancestors and itself.
use saito_rust_workspace.Prelude.{
  ℕ, zero, suc, ◌+◌, ◌-◌, ◌≡◌, Bool, true, ◌||◌, Option, none, some, List, [], ◌∷◌, arith, ltb, leb,
  if◌then◌else◌, length,
}
use saito_rust_workspace.Bytes.{Bytes}
use saito_rust_workspace.Blockchain.{Block}

abbrev pub min_golden_tickets_numerator : ℕ
min_golden_tickets_numerator = 2

abbrev pub min_golden_tickets_denominator : ℕ
min_golden_tickets_denominator = 6

-- The search through the ancestors, `rounds` of them at most: tickets found and depth reached.
unfoldable pub search_tickets : (Bytes → Option Block) → ℕ → Bytes → ℕ → ℕ → ℕ × ℕ
search_tickets get_block zero hash found depth = (found, depth)
search_tickets get_block (suc rounds) hash found depth = elim (get_block hash) [
  | none ↦ (found, depth)
  | some block ↦
      search_tickets get_block rounds block.previous_block_hash
        (if block.has_golden_ticket then found + 1 else found) (depth + 1)
]

unfoldable pub is_golden_ticket_count_valid : Bytes → Bool → Bool → (Bytes → Option Block) → Bool
unfolding search_tickets
is_golden_ticket_count_valid previous_block_hash current_block_has_golden_ticket bypass get_block =
    let (found, depth) =
      search_tickets get_block (min_golden_tickets_denominator - 1) previous_block_hash 0 0 in
    let required = min_golden_tickets_numerator - (min_golden_tickets_denominator - (depth + 1)) in
    let golden_tickets_found = if current_block_has_golden_ticket then found + 1 else found in
    if ltb depth (min_golden_tickets_denominator - min_golden_tickets_numerator)
    then true
    else if ltb golden_tickets_found required
    then bypass
    else true

-- the ancestors of a block, the nearest first, `n` of them at most
pub ancestors : (Bytes → Option Block) → ℕ → Bytes → List Block
ancestors get_block zero hash = []
ancestors get_block (suc n) hash = elim (get_block hash) [
  | none ↦ []
  | some block ↦ block ∷ ancestors get_block n block.previous_block_hash
]

pub count_tickets : List Block → ℕ
count_tickets [] = 0
count_tickets (b ∷ bs) = (if b.has_golden_ticket then 1 else 0) + count_tickets bs

search_tickets-eq :
    (get_block : Bytes → Option Block) (n : ℕ) (hash : Bytes) (found depth : ℕ)
    → let bs = ancestors get_block n hash in
      search_tickets get_block n hash found depth ≡ (found + count_tickets bs, depth + length bs)
unfolding search_tickets ancestors count_tickets
search_tickets-eq get_block zero hash found depth = ground arith
search_tickets-eq get_block (suc n) hash found depth =
    from (get_block hash) (search_tickets-eq get_block n)
  where
    from :
        (known : Option Block)
        → ((h : Bytes) (f d : ℕ)
            → search_tickets get_block n h f d
              ≡ (f + count_tickets (ancestors get_block n h), d + length (ancestors get_block n h)))
        → let bs : List Block = elim known [
          | none ↦ []
          | some block ↦ block ∷ ancestors get_block n block.previous_block_hash
        ] in
          let found_from : ℕ × ℕ = elim known [
            | none ↦ (found, depth)
            | some block ↦
                search_tickets get_block n block.previous_block_hash
                  (if block.has_golden_ticket then found + 1 else found)
                  (depth + 1)
          ] in
          found_from ≡ (found + count_tickets bs, depth + length bs)
    from none rest = ground arith
    from (some b) rest = ground (
      arith,
      rest b.previous_block_hash (if b.has_golden_ticket then found + 1 else found) (depth + 1),
    )

-- A block is accepted if fewer than 4 of its ancestors are known; or if the check is bypassed; or
-- if the tickets of its nearest 5 known ancestors and its own are at least 2 where 5 ancestors are
-- known, at least 1 where 4 are. Otherwise it is refused.
pub is_golden_ticket_count_valid_lem :
    (get_block : Bytes → Option Block) (hash : Bytes) (current bypass : Bool)
    → let bs = ancestors get_block 5 hash in
      let tickets = count_tickets bs + (if current then 1 else 0) in
      is_golden_ticket_count_valid hash current bypass get_block
      ≡ (ltb (length bs) 4 || (bypass || leb (length bs - 3) tickets))
unfolding is_golden_ticket_count_valid
is_golden_ticket_count_valid_lem get_block hash current bypass =
    ground (arith, search_tickets-eq get_block 5 hash 0 0)
