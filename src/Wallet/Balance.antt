-- ===== src/Wallet/Balance.antt =====
-- The balance of saito-core/src/core/consensus/wallet.rs is what the unspent slips add up to.
pub mod Loops
pub mod Blocks
pub mod Moves
use saito_rust_workspace.Prelude.{
  ℕ, zero, suc, ◌+◌, ◌-◌, ◌*◌, ◌/◌, ◌%◌, ◌^◌, ◌≤◌, ◌<◌, min, max, ◌≡◌, ◌≢◌, ◌↔◌, ◌⊎◌, refl, sym, ap,
  ap₂, ◌∙◌, fun_ext, Bool, true, false, not, ◌&&◌, ◌||◌, Option, none, some, inl, inr, List, [],
  ◌∷◌, ◌++◌, map, reverse, append-nil, append_assoc, arith, dec_lt, ℕ_discrete, ltb, leb, ◌==◌,
  if◌then◌else◌, ltb→lt, lt→ltb, leb→le, ==_iff, tests, Bool-cases, Option-cases, length, get_elem?,
  set, get_or, take, drop, replicate, length-append, length-set, length-take, length-drop,
  length-map, take-append-drop, All, any, keep_if, All-append, All-append_left, All-append_right,
  get_elem?_in_range, lt_of_get_elem?, get_elem?-append_end, All-set, All-get, any-append_end,
  get_elem?-set_self, get_elem?-set_ne, length-replicate, length-reverse,
}
use saito_rust_workspace.Bytes.{
  Bytes, AreBytes, IsArray, to_be_bytes, from_be_bytes, slice, index, bytes_eq, concat, zeros,
}
use saito_rust_workspace.Bytes.Endian.{
  length-to_be_bytes, to_be_bytes-AreBytes, from_be_bytes-to_be_bytes, to_be_bytes-from_be_bytes,
  from_be_bytes-lt,
}
use saito_rust_workspace.Bytes.Slices.{
  slice-append_skip, slice-append_self, slice-eq-ok, index-append_skip, bytes_eq_iff, bytes_eq_refl,
  slice_split, index_split, slice_in_range, drop-length, slice-IsArray, index-lt, zeros-IsArray,
  index_in_range,
}
use saito_rust_workspace.Outcome.{
  Outcome, ok, err, panic, ◌>>=◌, ◌>>◌, check, assert, ok_or, unwrap, >>=-eq-ok, ErrorKind,
  invalid_input, invalid_data, not_found,
}
use saito_rust_workspace.Eq.{bytes_key}
use saito_rust_workspace.HashMap.{
  HashMap, get, insert, remove, contains_key, get-insert, get-remove,
}
use saito_rust_workspace.Slip
use saito_rust_workspace.Slip.{Slip, SlipType}
use saito_rust_workspace.Wallet.{
  Wallet, WalletSlip, has_key, insert_key, remove_key, file_slip, add_slip, delete_key, delete_slip,
  delete_keys, remove_old_slips, delete_pending_transaction,
}

-- what the slip under a key is worth
pub amount_at : HashMap Bytes WalletSlip → Bytes → ℕ
amount_at slips k = elim (get k slips) [ none ↦ 0 | some s ↦ s.amount ]

-- what the slips under some keys add up to, with no wrap
unfoldable pub total : HashMap Bytes WalletSlip → List Bytes → ℕ
unfolding amount_at
total slips [] = 0
total slips (k ∷ ks) = amount_at slips k + total slips ks

-- no key twice
unfoldable pub IsDistinct : List Bytes → Type 0
IsDistinct [] = Unit {0}
IsDistinct (k ∷ ks) = (has_key k ks ≡ false) × IsDistinct ks

pub record IsBalanced (balance : ℕ) (slips : HashMap Bytes WalletSlip) (unspent : List Bytes)
    : Type 0 where
  pub balance_sum : balance ≡ total slips unspent % 2 ^ 64
  pub unspent_known : (k : Bytes) → has_key k unspent ≡ true → contains_key k slips ≡ true
  pub distinct : IsDistinct unspent

-- The balance of a wallet is what its unspent slips add up to, which are slips of it, none twice.
abbrev pub HasBalance : Wallet → Type 0
HasBalance w = IsBalanced w.available_balance w.slips w.unspent_slips

pub has_key-remove_key :
    (j k : Bytes) (ks : List Bytes)
    → has_key j (remove_key k ks) ≡ (has_key j ks && not (bytes_eq k j))
unfolding has_key remove_key
has_key-remove_key j k [] = ground arith
has_key-remove_key j k (i ∷ ks) =
    ground (arith, has_key-remove_key j k ks, bytes_eq_iff i k, bytes_eq_iff i j, bytes_eq_iff k j)

remove_key-IsDistinct : (k : Bytes) (ks : List Bytes) → IsDistinct ks → IsDistinct (remove_key k ks)
unfolding IsDistinct remove_key
remove_key-IsDistinct k [] d = tt
remove_key-IsDistinct k (i ∷ ks) d =
    let below : IsDistinct (remove_key k ks) = remove_key-IsDistinct k ks d.1 in
    elim (bytes_eq i k) as (λ b. IsDistinct (if b then remove_key k ks else i ∷ remove_key k ks)) [
      | true ↦ below
      | false ↦ (has_key-remove_key i k ks ∙ rw (d.0) refl, below)
    ]

total-insert :
    (slips : HashMap Bytes WalletSlip) (k : Bytes) (s : WalletSlip) (ks : List Bytes)
    → has_key k ks ≡ false
    → total (insert k s slips) ks ≡ total slips ks
unfolding total amount_at has_key
total-insert slips k s [] fresh = refl
total-insert slips k s (j ∷ ks) fresh = ground (
  arith,
  fresh,
  get-insert k j s slips,
  bytes_eq_iff j k,
  bytes_eq_iff k j,
  total-insert slips k s ks (ground (arith, fresh)),
)

total-remove :
    (slips : HashMap Bytes WalletSlip) (k : Bytes) (ks : List Bytes)
    → has_key k ks ≡ false
    → total (remove k slips) ks ≡ total slips ks
unfolding total amount_at has_key
total-remove slips k [] fresh = refl
total-remove slips k (j ∷ ks) fresh = ground (
  arith,
  fresh,
  get-remove k j slips,
  bytes_eq_iff j k,
  bytes_eq_iff k j,
  total-remove slips k ks (ground (arith, fresh)),
)

absent_same : (k : Bytes) (ks : List Bytes) → has_key k ks ≡ false → remove_key k ks ≡ ks
unfolding has_key remove_key
absent_same k [] fresh = refl
absent_same k (j ∷ ks) fresh = ground (arith, fresh, absent_same k ks (ground (arith, fresh)))

total-remove_key :
    (slips : HashMap Bytes WalletSlip) (k : Bytes) (ks : List Bytes)
    → IsDistinct ks
    → has_key k ks ≡ true
    → total slips ks ≡ total slips (remove_key k ks) + amount_at slips k
unfolding total amount_at has_key remove_key IsDistinct
total-remove_key slips k [] d here = cc (here)
total-remove_key slips k (j ∷ ks) d here = elim (Bool-cases (bytes_eq j k)) [
  | inl same ↦
      let e : j ≡ k = (bytes_eq_iff j k).0 same in
      let fresh : has_key k ks ≡ false = ap (λ i. has_key i ks) (sym e) ∙ d.0 in
      ground (arith, same, e, absent_same k ks fresh)
  | inr other ↦
      ground (arith, other, here, total-remove_key slips k ks d.1 (ground (arith, other, here)))
]

removed_spent :
    (b : ℕ) (slips : HashMap Bytes WalletSlip) (unspent : List Bytes) (k : Bytes)
    → IsBalanced b slips unspent
    → has_key k unspent ≡ false
    → IsBalanced b (remove k slips) unspent
unfolding contains_key
removed_spent b slips unspent k h spent = record {
  balance_sum = ground (arith, h.balance_sum, total-remove slips k unspent spent);
  unspent_known = λ j here.
      ground (arith, h.unspent_known j here, here, spent, get-remove k j slips, bytes_eq_iff k j);
  distinct = h.distinct;
}

removed_unspent :
    (b : ℕ) (slips : HashMap Bytes WalletSlip) (unspent : List Bytes) (k : Bytes) (s : WalletSlip)
    → IsBalanced b slips unspent
    → get k slips ≡ some s
    → has_key k unspent ≡ true
    → IsBalanced
        ((b + (2 ^ 64 - s.amount % 2 ^ 64)) % 2 ^ 64)
        (remove k slips)
        (remove_key k unspent)
unfolding contains_key amount_at
removed_unspent b slips unspent k s h known here =
    let gone : has_key k (remove_key k unspent) ≡ false =
      ground (arith, has_key-remove_key k k unspent, bytes_eq_refl k) in
    record {
      balance_sum = ground (
        arith,
        h.balance_sum,
        known,
        total-remove_key slips k unspent h.distinct here,
        total-remove slips k (remove_key k unspent) gone,
      );
      unspent_known = λ j there. ground (
        arith,
        h.unspent_known j,
        there,
        has_key-remove_key j k unspent,
        get-remove k j slips,
        bytes_eq_iff k j,
      );
      distinct = remove_key-IsDistinct k unspent h.distinct;
    }

-- The slip under a key that is deleted leaves the sum, where it is unspent.
pub delete_key-HasBalance : (w : Wallet) (k : Bytes) → HasBalance w → HasBalance (delete_key w k)
unfolding delete_key
delete_key-HasBalance w k h = elim (Option-cases (get k w.slips)) [
  | inl e ↦ rw (delete_key, e) h
  | inr known ↦ elim (Bool-cases (has_key k w.unspent_slips)) [
    | inl here ↦
        rw (delete_key, known.1, here)
          (removed_unspent w.available_balance w.slips w.unspent_slips k known.0 h known.1 here)
    | inr spent ↦
        rw (delete_key, known.1, spent)
          (removed_spent w.available_balance w.slips w.unspent_slips k h spent)
  ]
]

pub added :
    (b : ℕ) (slips : HashMap Bytes WalletSlip) (unspent : List Bytes) (k : Bytes) (s : WalletSlip)
    → IsBalanced b slips unspent
    → contains_key k slips ≡ false
    → IsBalanced ((b + s.amount) % 2 ^ 64) (insert k s slips) (insert_key k unspent)
      × IsBalanced b (insert k s slips) unspent
unfolding contains_key amount_at insert_key total IsDistinct has_key
added b slips unspent k s h fresh =
    let absent : has_key k unspent ≡ false = ground (arith, h.unspent_known k, fresh) in
    let same : insert_key k unspent ≡ k ∷ unspent = ground (arith, absent) in
    (
      rw same (record {
        balance_sum = ground (
          arith,
          h.balance_sum,
          get-insert k k s slips,
          bytes_eq_refl k,
          total-insert slips k s unspent absent,
        );
        unspent_known = λ j there.
            ground (arith, h.unspent_known j, there, get-insert k j s slips, bytes_eq_iff k j);
        distinct = (absent, h.distinct);
      }),
      record {
        balance_sum = ground (arith, h.balance_sum, total-insert slips k s unspent absent);
        unspent_known = λ j there.
            ground (arith, h.unspent_known j, there, get-insert k j s slips, bytes_eq_iff k j);
        distinct = h.distinct;
      },
    )
