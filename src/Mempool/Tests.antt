-- ===== src/Mempool/Tests.antt =====
-- The theorems on the mempool at a payment.
use saito_rust_workspace.Prelude.{◌≡◌, refl, false, ◌||◌, [], ◌∷◌}
use saito_rust_workspace.Bytes.{bytes_eq}
use saito_rust_workspace.Outcome.{Outcome, ok}
use saito_rust_workspace.Eq.{bytes_key}
use saito_rust_workspace.HashMap.{contains_key}
use saito_rust_workspace.Outcome.{Gives}
use saito_rust_workspace.Transaction.{Transaction}
use saito_rust_workspace.Transaction.Tests.{payment}
use saito_rust_workspace.Mempool.{Mempool, new, spends_known, add_transaction, delete_transactions}
use saito_rust_workspace.Mempool.Work.{
  HasWork, delete_transactions-HasWork, delete_transactions-blocked,
}

abbrev outcome_of : Outcome Mempool → Mempool
outcome_of (ok m) = m
outcome_of _ = new

-- the mempool with the payment, and after it is deleted
abbrev with_payment : Mempool
with_payment = outcome_of (add_transaction new payment)

abbrev without_payment : Mempool
without_payment = outcome_of (delete_transactions with_payment (payment ∷ []))

-- another payment of the same coin
abbrev again : Transaction
again = record payment { message = 7 ∷ [] }

adds : add_transaction new payment ≡ ok with_payment
unfolding add_transaction contains_key new saito_rust_workspace.Transaction.Generate.type_eq
    saito_rust_workspace.Transaction.Wire.to_u8 saito_rust_workspace.Transaction.default
adds = refl

deletes : delete_transactions with_payment (payment ∷ []) ≡ ok without_payment
unfolding delete_transactions add_transaction saito_rust_workspace.Transaction.Generate.type_eq
    saito_rust_workspace.Transaction.Wire.to_u8 saito_rust_workspace.Transaction.default
deletes = refl

mempool_work_example :
    HasWork without_payment
    × ((tx : Transaction) → Gives HasWork (add_transaction without_payment tx))
mempool_work_example =
    delete_transactions-HasWork with_payment without_payment (payment ∷ []) deletes

nothing_known :
    spends_known payment.from new.utxo_map || contains_key payment.signature new.transactions
    ≡ false
unfolding spends_known contains_key new
nothing_known = refl

blocked_example : add_transaction without_payment again ≡ ok without_payment
unfolding bytes_eq
blocked_example =
    delete_transactions-blocked new with_payment without_payment payment again (payment ∷ [])
      (1 ∷ []) nothing_known refl adds deletes refl
