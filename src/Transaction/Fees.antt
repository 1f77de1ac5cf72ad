-- ===== src/Transaction/Fees.antt =====
-- `generate_total_fees` and `generate_cumulative_fees` of
-- saito-core/src/core/consensus/transaction.rs. Sums of `u64` wrap, as in a release build.
use saito_rust_workspace.Prelude.{
  ℕ, zero, suc, ◌+◌, ◌-◌, ◌%◌, ◌^◌, ◌<◌, ◌≡◌, refl, ap, ap₂, ◌∙◌, Bool, true, not, ◌||◌, some, List,
  [], ◌∷◌, map, arith, ltb, ◌==◌, if◌then◌else◌, get_elem?,
}
use saito_rust_workspace.Slip.{
  Slip, SlipType, atr, bound, to_u8, get_utxoset_key, generate_utxoset_key,
}
use saito_rust_workspace.Transaction.{Transaction}

-- the derived `PartialEq` of the slip types
unfoldable pub slip_type_eq : SlipType → SlipType → Bool
slip_type_eq a b = to_u8 a == to_u8 b

-- what a slip counts for: nothing if it is bound
unfoldable pub counted_amount : Slip → ℕ
unfolding slip_type_eq
counted_amount s = if slip_type_eq s.slip_type bound then 0 else s.amount

-- `.sum::<Currency>()`
unfoldable pub sum_u64 : List ℕ → ℕ
sum_u64 [] = 0
sum_u64 (n ∷ ns) = (n + sum_u64 ns) % 2 ^ 64

-- the closure over the outputs, at position `index`
unfoldable pub place_output : ℕ → ℕ → ℕ → Slip → Slip
unfolding slip_type_eq
place_output tx_index block_id index s = generate_utxoset_key (
    if not (slip_type_eq s.slip_type atr) || not (slip_type_eq s.slip_type bound)
    then record s { block_id = block_id; tx_ordinal = tx_index; slip_index = index % 256 }
    else s)

unfoldable pub place_outputs : ℕ → ℕ → ℕ → List Slip → List Slip
place_outputs tx_index block_id index [] = []
place_outputs tx_index block_id index (s ∷ ss) =
    place_output tx_index block_id index s ∷ place_outputs tx_index block_id (index + 1) ss

unfoldable pub generate_total_fees : Transaction → ℕ → ℕ → Transaction
unfolding place_outputs sum_u64 counted_amount
generate_total_fees tx tx_index block_id =
    let from = map generate_utxoset_key tx.from in
    let to = place_outputs tx_index block_id 0 tx.to in
    let nolan_in = sum_u64 (map counted_amount from) in
    let nolan_out = sum_u64 (map counted_amount to) in
    record tx {
      from = from;
      to = to;
      total_in = nolan_in;
      total_out = nolan_out;
      total_fees = if ltb nolan_out nolan_in then nolan_in - nolan_out else 0;
    }

-- The new total is stored and returned.
unfoldable pub generate_cumulative_fees : Transaction → ℕ → Transaction × ℕ
generate_cumulative_fees tx cumulative_fees =
    let total = (cumulative_fees + tx.total_fees) % 2 ^ 64 in
    (record tx { cumulative_fees = total }, total)

-- what a slip of some type and amount is worth: its amount, and nothing if it is bound
unfoldable pub worth : SlipType → ℕ → ℕ
worth bound amount = 0
worth _ amount = amount

-- the value of some slips, with no wrap
unfoldable pub value : List Slip → ℕ
unfolding worth
value [] = 0
value (s ∷ ss) = worth s.slip_type s.amount + value ss

counted_amount-worth : (s : Slip) → counted_amount s ≡ worth s.slip_type s.amount
unfolding counted_amount worth slip_type_eq to_u8
counted_amount-worth s =
    elim s.slip_type as (λ t. (if slip_type_eq t bound then 0 else s.amount) ≡ worth t s.amount) [
      | bound ↦ refl
      | _ ↦ refl
    ]

sum_u64-value : (ss : List Slip) → value ss < 2 ^ 64 → sum_u64 (map counted_amount ss) ≡ value ss
unfolding sum_u64 value
sum_u64-value [] h = refl
sum_u64-value (s ∷ ss) h = omega (arith, counted_amount-worth s, sum_u64-value ss (omega arith))

worth-place_output :
    (x b i : ℕ) (s : Slip)
    → worth (place_output x b i s).slip_type (place_output x b i s).amount
      ≡ worth s.slip_type s.amount
unfolding place_output generate_utxoset_key
worth-place_output x b i s = ground arith

value-place_outputs : (x b i : ℕ) (ss : List Slip) → value (place_outputs x b i ss) ≡ value ss
unfolding value place_outputs
value-place_outputs x b i [] = refl
value-place_outputs x b i (s ∷ ss) =
    ap₂ ◌+◌ (worth-place_output x b i s) (value-place_outputs x b (i + 1) ss)

value-keyed : (ss : List Slip) → value (map generate_utxoset_key ss) ≡ value ss
unfolding value generate_utxoset_key
value-keyed [] = refl
value-keyed (s ∷ ss) = ap (λ n. worth s.slip_type s.amount + n) (value-keyed ss)

-- While the values fit 64 bits: the totals are the values of the inputs and of the outputs, bound
-- slips left out, and the fees are what the inputs have over the outputs, or 0.
pub generate_total_fees_totals :
    (tx : Transaction) (tx_index block_id : ℕ)
    → value tx.from < 2 ^ 64
    → value tx.to < 2 ^ 64
    → let t = generate_total_fees tx tx_index block_id in
      (t.total_in ≡ value tx.from)
      × (t.total_out ≡ value tx.to)
      × (t.total_fees ≡ value tx.from - value tx.to)
unfolding generate_total_fees
generate_total_fees_totals tx x b hi ho = (ins, outs, fees)
  where
    ins : sum_u64 (map counted_amount (map generate_utxoset_key tx.from)) ≡ value tx.from
    ins =
        let e = value-keyed tx.from in
        sum_u64-value (map generate_utxoset_key tx.from) (omega arith) ∙ e

    outs : sum_u64 (map counted_amount (place_outputs x b 0 tx.to)) ≡ value tx.to
    outs =
        let e = value-place_outputs x b 0 tx.to in
        sum_u64-value (place_outputs x b 0 tx.to) (omega arith) ∙ e

    fees : (generate_total_fees tx x b).total_fees ≡ value tx.from - value tx.to
    fees = ground (arith, ins, outs)

-- where an output of a transaction lies on the chain
abbrev pub IsPlaced : ℕ → ℕ → ℕ → Slip → Slip → Type 0
IsPlaced tx_index block_id i old new =
    (new.block_id ≡ block_id)
    × (new.tx_ordinal ≡ tx_index)
    × (new.slip_index ≡ i % 256)
    × (new.amount ≡ old.amount)
    × (new.public_key ≡ old.public_key)
    × (new.slip_type ≡ old.slip_type)
    × (new.utxoset_key ≡ get_utxoset_key new)

-- No type is both `ATR` and `Bound`.
always_placed : (t : SlipType) → (not (slip_type_eq t atr) || not (slip_type_eq t bound)) ≡ true
unfolding slip_type_eq to_u8
always_placed t = ground arith

place_output-IsPlaced : (x b i : ℕ) (s : Slip) → IsPlaced x b i s (place_output x b i s)
unfolding place_output generate_utxoset_key get_utxoset_key
place_output-IsPlaced x b i s =
    rw (always_placed s.slip_type) (refl, refl, refl, refl, refl, refl, refl)

place_outputs-IsPlaced :
    (x b start i : ℕ) (ss : List Slip) {s : Slip}
    → get_elem? ss i ≡ some s
    → (s' : Slip) × (get_elem? (place_outputs x b start ss) i ≡ some s')
      × IsPlaced x b (start + i) s s'
unfolding place_outputs
place_outputs-IsPlaced x b start i [] h = cc
place_outputs-IsPlaced x b start zero (t ∷ ss) {s} h =
    let same : t ≡ s = cc in
    let here : start ≡ start + 0 = omega arith in
    (place_output x b start t, refl, rw (← here, ← same) (place_output-IsPlaced x b start t))
place_outputs-IsPlaced x b start (suc i) (t ∷ ss) {s} h =
    let there : start + 1 + i ≡ start + suc i = omega arith in
    rw (← there) (place_outputs-IsPlaced x b (start + 1) i ss h)

-- Every output, of whatever type, is given its place in the block and the key of that place; owner,
-- amount and type stay.
pub generate_total_fees_places :
    (tx : Transaction) (tx_index block_id i : ℕ) {s : Slip}
    → get_elem? tx.to i ≡ some s
    → (s' : Slip) × (get_elem? (generate_total_fees tx tx_index block_id).to i ≡ some s')
      × IsPlaced tx_index block_id i s s'
unfolding generate_total_fees
generate_total_fees_places tx x b i {s} h =
    let start : 0 + i ≡ i = omega arith in rw start at (place_outputs-IsPlaced x b 0 i tx.to h)
