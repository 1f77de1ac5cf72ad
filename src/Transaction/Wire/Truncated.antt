-- ===== src/Transaction/Wire/Truncated.antt =====
-- A buffer shorter than its header promises: `deserialize_from_net` of
-- saito-core/src/core/consensus/transaction.rs slices it with no check.
use saito_rust_workspace.Prelude.{
  ℕ, zero, suc, ◌+◌, ◌≤◌, ◌<◌, ◌≡◌, ◌≢◌, true, not, some, arith, ltb, length,
}
use saito_rust_workspace.Bytes.{Bytes, from_be_bytes, slice, index}
use saito_rust_workspace.Bytes.Slices.{slice_in_range}
use saito_rust_workspace.Outcome.{ok, panic}
use saito_rust_workspace.Slip.{slip_size}
use saito_rust_workspace.Transaction.{TransactionType}
use saito_rust_workspace.Transaction.Wire.{
  from_u8, transaction_size, read_slips, deserialize_from_net,
}

read_slips-panic :
    (bs : Bytes) (start count : ℕ)
    → count ≢ 0
    → length bs < start + slip_size
    → read_slips bs start count ≡ panic
unfolding read_slips slice
read_slips-panic bs start zero ne h = absurd (omega arith)
read_slips-panic bs start (suc count) ne h = ground arith

-- A buffer that holds a whole valid header with between 1 and 255 inputs, and then less than one
-- slip, is neither read nor refused: the reader panics.
pub deserialize_from_net-panic :
    (bs : Bytes) {inputs outputs : Bytes} {v : ℕ} {t : TransactionType}
    → transaction_size ≤ length bs
    → length bs < transaction_size + slip_size
    → slice bs 0 4 ≡ ok inputs
    → from_be_bytes inputs ≢ 0
    → from_be_bytes inputs ≤ 255
    → slice bs 4 8 ≡ ok outputs
    → from_be_bytes outputs ≤ 255
    → index bs 92 ≡ ok v
    → from_u8 v ≡ some t
    → deserialize_from_net bs ≡ panic
unfolding deserialize_from_net
deserialize_from_net-panic bs {inputs} {outputs} long short hi some_inputs few_in ho few_out hv ht =
    rw (
      long_enough,
      hi,
      in_limit,
      ho,
      out_limit,
      slice_in_range bs 8 12 (omega arith) (omega arith),
      slice_in_range bs 12 16 (omega arith) (omega arith),
      slice_in_range bs 16 80 (omega arith) (omega arith),
      slice_in_range bs 80 88 (omega arith) (omega arith),
      slice_in_range bs 88 92 (omega arith) (omega arith),
      hv,
      ht,
      read_slips-panic bs transaction_size (from_be_bytes inputs) some_inputs short,
    )
  where
    long_enough : not (ltb (length bs) transaction_size) ≡ true
    long_enough = ground arith

    in_limit : not (ltb 255 (from_be_bytes inputs)) ≡ true
    in_limit = ground arith

    out_limit : not (ltb 255 (from_be_bytes outputs)) ≡ true
    out_limit = ground arith
