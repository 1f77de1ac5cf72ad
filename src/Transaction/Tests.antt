-- ===== src/Transaction/Tests.antt =====
-- Examples of transactions.
use saito_rust_workspace.Prelude.{
  ◌+◌, ◌-◌, ◌/◌, ◌^◌, ◌<◌, ◌≡◌, refl, true, some, List, [], ◌∷◌, ◌++◌, arith, get_elem?, replicate,
}
use saito_rust_workspace.Bytes.{Bytes, from_be_bytes, slice, index, zeros}
use saito_rust_workspace.Bytes.Slices.{zeros-IsArray}
use saito_rust_workspace.Outcome.{ok, panic}
use saito_rust_workspace.Bytes.{from_le}
use saito_rust_workspace.Eq.{bytes_key}
use saito_rust_workspace.Slip
use saito_rust_workspace.Slip.{Slip, UtxoSet, slip_size}
use saito_rust_workspace.Hop
use saito_rust_workspace.Hop.{Hop}
use saito_rust_workspace.Transaction
use saito_rust_workspace.Transaction.{Transaction}
use saito_rust_workspace.Transaction.Wire.{
  serialize_for_net_with_hop, deserialize_from_net, from_u8,
}
use saito_rust_workspace.Transaction.Wire.Loops.{IsWellSized}
use saito_rust_workspace.Transaction.Wire.Parts.{received}
use saito_rust_workspace.Transaction.Wire.RoundTrip.{
  deserialize_from_net-serialize_for_net_with_hop,
}
use saito_rust_workspace.Transaction.Wire.Truncated.{deserialize_from_net-panic}
use saito_rust_workspace.Transaction.Fees.{
  generate_total_fees, generate_total_fees_totals, generate_total_fees_places, IsPlaced, value,
}
use saito_rust_workspace.Transaction.Work.{
  generate_total_work, generate_total_work_linked, generate_total_work_pos, IsLinked, last_hop,
}
use saito_rust_workspace.Transaction.Winner.{
  get_winning_routing_node, get_winning_routing_node_total, EndsHop,
}

abbrev pub coin : Slip
coin = record {
  public_key = zeros 33;
  amount = 900;
  slip_index = 0;
  block_id = 7;
  tx_ordinal = 3;
  slip_type = Slip.normal;
  utxoset_key = 1 ∷ [];
  is_utxoset_key_set = true;
}

abbrev pub change : Slip
change = record coin { amount = 600; utxoset_key = 2 ∷ [] }

abbrev pub hop : Hop
hop = record { from = zeros 33; to = zeros 33; sig = zeros 64 }

abbrev pub payment : Transaction
payment = record Transaction.default {
  from = coin ∷ [];
  to = change ∷ [];
  message = 1 ∷ 2 ∷ 3 ∷ [];
  path = hop ∷ hop ∷ [];
  total_fees = 301;
}

pub coin-IsWellSized : Slip.IsWellSized coin
coin-IsWellSized = record {
  public_key_size = zeros-IsArray 33;
  amount_fits = omega arith;
  slip_index_fits = omega arith;
  block_id_fits = omega arith;
  tx_ordinal_fits = omega arith;
}

change-IsWellSized : Slip.IsWellSized change
change-IsWellSized = record {
  public_key_size = zeros-IsArray 33;
  amount_fits = omega arith;
  slip_index_fits = omega arith;
  block_id_fits = omega arith;
  tx_ordinal_fits = omega arith;
}

hop-IsWellSized : Hop.IsWellSized hop
hop-IsWellSized = record {
  from_size = zeros-IsArray 33;
  to_size = zeros-IsArray 33;
  sig_size = zeros-IsArray 64;
}

pub payment-IsWellSized : IsWellSized payment
unfolding Transaction.default
payment-IsWellSized = record {
  timestamp_fits = omega arith;
  from_sized = (coin-IsWellSized, tt);
  to_sized = (change-IsWellSized, tt);
  from_count = omega arith;
  to_count = omega arith;
  message_fits = omega arith;
  replacements_fit = omega arith;
  signature_size = zeros-IsArray 64;
  path_sized = (hop-IsWellSized, (hop-IsWellSized, tt));
  path_fits = omega arith;
}

round_trip_example :
    deserialize_from_net (serialize_for_net_with_hop payment (some hop))
    ≡ ok (received payment (some hop))
round_trip_example =
    deserialize_from_net-serialize_for_net_with_hop payment (some hop) payment-IsWellSized some_hop
  where
    some_hop : (h : Hop) → some hop ≡ some h → Hop.IsWellSized h
    some_hop h e = let same : hop ≡ h = cc (e) in rw (← same) hop-IsWellSized

-- a header of one input and nothing after it
abbrev short : Bytes
short = (0 ∷ 0 ∷ 0 ∷ 1 ∷ []) ++ replicate 96 0

panic_example : deserialize_from_net short ≡ panic
unfolding slice index from_be_bytes from_le from_u8
panic_example =
    deserialize_from_net-panic short {inputs = 0 ∷ 0 ∷ 0 ∷ 1 ∷ []} {outputs = 0 ∷ 0 ∷ 0 ∷ 0 ∷ []}
      {v = 0} {t = Transaction.normal} (omega arith) (omega arith) refl (λ e. omega (arith, e))
      (omega arith) refl (omega arith) refl refl

totals_example :
    let t = generate_total_fees payment 5 9 in
    (t.total_in ≡ value payment.from)
    × (t.total_out ≡ value payment.to)
    × (t.total_fees ≡ value payment.from - value payment.to)
unfolding value Slip.to_u8
totals_example = generate_total_fees_totals payment 5 9 (omega arith) (omega arith)

places_example :
    (s : Slip) × (get_elem? (generate_total_fees payment 5 9).to 0 ≡ some s)
    × IsPlaced 5 9 0 change s
places_example = generate_total_fees_places payment 5 9 0 {s = change} refl

linked_example :
    (generate_total_work payment (zeros 33)).total_work_for_me
    ≡ (payment.total_fees + (2 ^ 1 - 1)) / 2 ^ 1
unfolding last_hop
linked_example = generate_total_work_linked payment hop (hop ∷ []) (zeros 33) refl (refl, tt) refl

some_work : 0 < (generate_total_work payment (zeros 33)).total_work_for_me
some_work = rw linked_example (omega arith)

work_example :
    (0 < payment.total_fees)
    × ((h : Hop) × (hs : List Hop) × (payment.path ≡ h ∷ hs) × IsLinked h hs)
    × ((before : List Hop) × (last : Hop) × (payment.path ≡ before ++ last ∷ [])
        × (last.to ≡ zeros 33))
work_example = generate_total_work_pos payment (zeros 33) some_work

winner_example :
    (key : Bytes) × (get_winning_routing_node payment (zeros 32) ≡ ok key)
    × EndsHop key payment.path
winner_example =
    get_winning_routing_node_total payment (zeros 32) hop (hop ∷ []) refl (omega arith)
      (omega arith)

abbrev pub utxos : UtxoSet
utxos = (1 ∷ [], true) ∷ []
