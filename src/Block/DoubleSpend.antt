-- ===== src/Block/DoubleSpend.antt =====
-- Which slips `generate` of saito-core/src/core/consensus/block.rs compares when it looks for one that
-- the block spends twice.
use saito_rust_workspace.Prelude.{
  ℕ, ◌+◌, ◌%◌, ◌^◌, ◌≡◌, refl, ap, ◌∙◌, Bool, true, false, not, ◌&&◌, ◌||◌, Option, none, some,
  List, [], ◌∷◌, arith, if◌then◌else◌, any, inl, inr, ltb, ◌==◌, Bool-cases, Option-cases,
}
use saito_rust_workspace.Bytes.{Bytes, bytes_eq}
use saito_rust_workspace.Slip.{Slip, get_utxoset_key}
use saito_rust_workspace.Outcome.{ok, ◌>>=◌}
use saito_rust_workspace.Eq.{bytes_key}
use saito_rust_workspace.HashMap.{HashMap, get, insert, get-insert}
use saito_rust_workspace.Transaction.{fee, golden_ticket, atr, issuance, block_stake, Transaction}
use saito_rust_workspace.Transaction.Generate.{type_eq}
use saito_rust_workspace.Transaction.Fees.{generate_cumulative_fees}
use saito_rust_workspace.Block.{Block}
use saito_rust_workspace.Block.Generate.{
  count_spent, Sweep, note_type, sweep, sweep_start, swept, generate_header, generate,
}

-- the first transaction that is not a fee transaction
pub first_spender : List Transaction → Option Transaction
first_spender [] = none
first_spender (tx ∷ txs) = if type_eq tx.transaction_type fee then first_spender txs else some tx

-- the keys of the slips of value
pub valued_keys : List Slip → List Bytes
valued_keys [] = []
valued_keys (s ∷ ss) = if s.amount == 0 then valued_keys ss else get_utxoset_key s ∷ valued_keys ss

-- some key stands twice in a list
pub repeats : List Bytes → Bool
repeats [] = false
repeats (k ∷ ks) = any (bytes_eq k) ks || repeats ks

-- a count above 0 is noted for the key
pub is_counted : HashMap Bytes ℕ → Bytes → Bool
is_counted spent k = elim (get k spent) [ none ↦ false | some n ↦ ltb 0 n ]

-- no slip of value is twice among the inputs of that one transaction, nor counted before
pub spends_once : Option Transaction → HashMap Bytes ℕ → Bool
spends_once none spent = true
spends_once (some tx) spent =
    not (repeats (valued_keys tx.from)) && not (any (is_counted spent) (valued_keys tx.from))

is_counted-insert :
    (k : Bytes) (n : ℕ) (spent : HashMap Bytes ℕ) (j : Bytes)
    → is_counted (insert k (n + 1) spent) j ≡ (bytes_eq k j || is_counted spent j)
unfolding is_counted
is_counted-insert k n spent j =
    rw (is_counted, get-insert k j (n + 1) spent)
      (elim (bytes_eq k j)
        as (λ b.
          (elim (if b then some (n + 1) else get j spent) [ none ↦ false | some m ↦ ltb 0 m ])
          ≡ (b || is_counted spent j)) [ true ↦ ground arith | false ↦ refl ])

any-is_counted :
    (k : Bytes) (n : ℕ) (spent : HashMap Bytes ℕ) (ks : List Bytes)
    → any (is_counted (insert k (n + 1) spent)) ks
      ≡ (any (bytes_eq k) ks || any (is_counted spent) ks)
any-is_counted k n spent [] = refl
any-is_counted k n spent (j ∷ ks) =
    ground (arith, is_counted-insert k n spent j, any-is_counted k n spent ks)

-- The loop over the inputs reaches its end exactly if no key of value repeats or was counted before.
count_spent-repeats :
    (ss : List Slip) (spent : HashMap Bytes ℕ)
    → (count_spent ss spent).1
      ≡ (not (repeats (valued_keys ss)) && not (any (is_counted spent) (valued_keys ss)))
unfolding count_spent valued_keys repeats is_counted
count_spent-repeats [] spent = refl
count_spent-repeats (s ∷ ss) spent = elim (Bool-cases (s.amount == 0)) [
  | inl worthless ↦ rw (count_spent, valued_keys, worthless) (count_spent-repeats ss spent)
  | inr valued ↦
      let k : Bytes = get_utxoset_key s in
      let ks : List Bytes = valued_keys ss in
      elim (Option-cases (get k spent)) [
        | inl fresh ↦
            let uncounted : is_counted spent k ≡ false = rw (is_counted, fresh) refl in
            let rest = count_spent-repeats ss (insert k 1 spent) in
            rw (count_spent, valued_keys, valued, fresh)
              (ground (arith, rest, any-is_counted k 0 spent ks, uncounted))
        | inr seen ↦ elim (Bool-cases (ltb 0 seen.0)) [
          | inl again ↦
              let more : ltb 1 (seen.0 + 1) ≡ true = ground (arith, again) in
              let counted : is_counted spent k ≡ true = rw (is_counted, seen.1) again in
              rw (count_spent, valued_keys, valued, seen.1, more) (ground (arith, counted))
          | inr zero_times ↦
              let once : ltb 1 (seen.0 + 1) ≡ false = ground (arith, zero_times) in
              let uncounted : is_counted spent k ≡ false = rw (is_counted, seen.1) zero_times in
              let rest = count_spent-repeats ss (insert k (seen.0 + 1) spent) in
              rw (count_spent, valued_keys, valued, seen.1, once)
                (ground (arith, rest, any-is_counted k seen.0 spent ks, uncounted))
        ]
      ]
]

type_keeps :
    (hash : Bytes → Bytes) (i : ℕ) (tx : Transaction) (s : Sweep)
    → ((note_type hash i tx s).created_hashmap ≡ s.created_hashmap)
      × ((note_type hash i tx s).spent ≡ s.spent)
unfolding note_type
type_keeps hash i tx s =
    elim tx.transaction_type
      as (λ t.
        let noted : Sweep = note_type hash i (record tx { transaction_type = t }) s in
        (noted.created_hashmap ≡ s.created_hashmap) × (noted.spent ≡ s.spent)) [
          | issuance ↦ (refl, refl)
          | fee ↦ (refl, refl)
          | golden_ticket ↦ (refl, refl)
          | atr ↦ (refl, refl)
          | block_stake ↦ (refl, refl)
          | _ ↦ (refl, refl)
        ]

-- the sweep at a transaction, one step in terms of the next
sweep_step :
    (hash : Bytes → Bytes) (i : ℕ) (tx : Transaction) (txs : List Transaction) (s : Sweep)
    → let checks : Bool = not s.created_hashmap && not (type_eq tx.transaction_type fee) in
      (t : Sweep) × (t.created_hashmap ≡ s.created_hashmap || checks)
      × ((sweep hash i (tx ∷ txs) s).2 ≡ (
          if (if checks then (count_spent tx.from s.spent).1 else true)
          then (sweep hash (i + 1) txs t).2
          else false))
      × (t.spent ≡ (if checks then (count_spent tx.from s.spent).0 else s.spent))
unfolding sweep
sweep_step hash i tx txs s =
    let checks : Bool = not s.created_hashmap && not (type_eq tx.transaction_type fee) in
    let counted = generate_cumulative_fees tx s.cumulative_fees in
    let before : Sweep = record s {
      cumulative_fees = counted.1;
      total_work = (s.total_work + tx.total_work_for_me) % 2 ^ 64;
      spent = (if checks then count_spent tx.from s.spent else (s.spent, true)).0;
      created_hashmap = s.created_hashmap || checks;
    } in
    let kept = type_keeps hash i counted.0 before in
    (note_type hash i counted.0 before, kept.0, ground arith, kept.1 ∙ (ground arith))

-- The sweep ends well if the list was made before, or if the first transaction that is not a fee
-- transaction has no input twice.
sweep-first_spender :
    (hash : Bytes → Bytes) (i : ℕ) (txs : List Transaction) (s : Sweep)
    → (sweep hash i txs s).2 ≡ (s.created_hashmap || spends_once (first_spender txs) s.spent)
unfolding sweep first_spender spends_once
sweep-first_spender hash i [] s = ground arith
sweep-first_spender hash i (tx ∷ txs) s =
    let step = sweep_step hash i tx txs s in
    ground (
      arith,
      step.1,
      step.2,
      step.3,
      count_spent-repeats tx.from s.spent,
      sweep-first_spender hash (i + 1) txs step.0,
    )

-- When what comes before the sweep gives the block `g`, `generate` gives a block and says that no slip
-- is spent twice exactly if the list of spent slips was made before, or if the first transaction of `g`
-- that is not a fee transaction has no slip of value twice among its own inputs, and none that was
-- counted before. The inputs of the transactions after it are compared with nothing.
pub generate-first_spender :
    (hash : Bytes → Bytes) (b g : Block)
    → generate_header hash b ≡ ok g
    → (r : Block) × (generate hash b
        ≡ ok (
          r,
          g.created_hashmap_of_slips_spent_this_block
              || spends_once (first_spender g.transactions) g.slips_spent_this_block,
        ))
unfolding generate
generate-first_spender hash b g e =
    let end = sweep hash 0 g.transactions (sweep_start g) in
    (
      swept g end,
      ap
            (λ m. m >>= λ h. ok (
              swept h (sweep hash 0 h.transactions (sweep_start h)),
              (sweep hash 0 h.transactions (sweep_start h)).2,
            ))
            e
          ∙ ap (λ t. ok (swept g end, t))
              (sweep-first_spender hash 0 g.transactions (sweep_start g)),
    )
