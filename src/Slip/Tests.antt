-- ===== src/Slip/Tests.antt =====
-- Examples of slips.
use saito_rust_workspace.Prelude.{ℕ, ◌≤◌, ◌<◌, ◌≡◌, ◌≢◌, ◌⊎◌, refl, false, arith, length}
use saito_rust_workspace.Bytes.{from_be_bytes, slice, index, zeros}
use saito_rust_workspace.Bytes.Slices.{zeros-IsArray}
use saito_rust_workspace.Outcome.{ok, err, invalid_input, invalid_data}
use saito_rust_workspace.Bytes.{from_le}
use saito_rust_workspace.Eq.{bytes_key}
use saito_rust_workspace.Slip.{
  Slip, IsWellSized, default, serialize_for_net, deserialize_from_net, get_utxoset_key,
  generate_utxoset_key, parse_slip_from_utxokey, atr, from_u8,
}
use saito_rust_workspace.Slip.Codec.{without_key}
use saito_rust_workspace.Slip.Reader.{
  serialize_for_net-deserialize_from_net, deserialize_from_net_cases,
}
use saito_rust_workspace.Slip.Key.{parse_slip_from_utxokey-get_utxoset_key}

abbrev coin : Slip
coin = record {
  public_key = zeros 33;
  amount = 1000000;
  slip_index = 2;
  block_id = 7;
  tx_ordinal = 3;
  slip_type = atr;
  utxoset_key = zeros 59;
  is_utxoset_key_set = false;
}

coin-IsWellSized : IsWellSized coin
coin-IsWellSized = record {
  public_key_size = zeros-IsArray 33;
  amount_fits = omega arith;
  slip_index_fits = omega arith;
  block_id_fits = omega arith;
  tx_ordinal_fits = omega arith;
}

parse_example : parse_slip_from_utxokey (get_utxoset_key coin) ≡ ok (generate_utxoset_key coin)
parse_example = parse_slip_from_utxokey-get_utxoset_key coin coin-IsWellSized

abbrev zero_slip : Slip
zero_slip = without_key default

zero_bytes : deserialize_from_net (zeros 59) ≡ ok zero_slip
unfolding deserialize_from_net zeros slice index default from_u8 from_be_bytes from_le
zero_bytes = refl

writes_back_example : IsWellSized zero_slip × (serialize_for_net zero_slip ≡ zeros 59)
writes_back_example =
    serialize_for_net-deserialize_from_net (zeros 59) (zeros-IsArray 59).1 zero_bytes

cases_example :
    ((length (zeros 59) ≢ 59) × (deserialize_from_net (zeros 59) ≡ err invalid_input))
    ⊎ ((length (zeros 59) ≡ 59)
        × ((v : ℕ) × (index (zeros 59) 58 ≡ ok v)
            × (((10 ≤ v) × (deserialize_from_net (zeros 59) ≡ err invalid_data))
                ⊎ ((v < 10) × ((s : Slip) × (deserialize_from_net (zeros 59) ≡ ok s))))))
cases_example = deserialize_from_net_cases (zeros 59)
