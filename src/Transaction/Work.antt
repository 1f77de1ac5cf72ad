-- ===== src/Transaction/Work.antt =====
-- `generate_total_work` of saito-core/src/core/consensus/transaction.rs: the routing work that a
-- transaction has for the node at the end of its path.
use saito_rust_workspace.Prelude.{
  ℕ, zero, suc, ◌+◌, ◌-◌, ◌*◌, ◌/◌, ◌^◌, ◌<◌, ◌≡◌, refl, sym, ap, ◌∙◌, List, [], ◌∷◌, ◌++◌, true,
  arith, if◌then◌else◌, length,
}
use saito_rust_workspace.Bytes.{Bytes, bytes_eq}
use saito_rust_workspace.Bytes.Slices.{bytes_eq_iff}
use native.Mathlib.Nat.{pow-suc, mul_comm, div-div-eq-div-mul}
use saito_rust_workspace.Hop.{Hop}
use saito_rust_workspace.Transaction.{Transaction}

-- `path[path.len() - 1]` of the path `h ∷ hs`
unfoldable pub last_hop : Hop → List Hop → Hop
last_hop h [] = h
last_hop h (g ∷ gs) = last_hop g gs

-- The loop from the second hop on, after the hop `prev`: 0 where two hops do not meet.
unfoldable pub work_along : Hop → List Hop → ℕ → ℕ
work_along prev [] work = work
work_along prev (h ∷ hs) work =
    if bytes_eq h.from prev.to then work_along h hs (work - work / 2) else 0

unfoldable pub path_work : List Hop → Bytes → ℕ → ℕ
path_work [] public_key fees = 0
path_work (h ∷ hs) public_key fees =
    if bytes_eq (last_hop h hs).to public_key then work_along h hs fees else 0

unfoldable pub generate_total_work : Transaction → Bytes → Transaction
unfolding path_work
generate_total_work tx public_key = record tx {
  total_work_for_me = path_work tx.path public_key tx.total_fees;
}

-- each hop starts where the one before it ends
abbrev pub IsLinked : Hop → List Hop → Type 0
IsLinked prev [] = Unit
IsLinked prev (h ∷ hs) = (h.from ≡ prev.to) × IsLinked h hs

-- the work that is left after `n` halvings, each rounded up
pub halved : ℕ → ℕ → ℕ
halved zero work = work
halved (suc n) work = halved n (work - work / 2)

work_along-linked :
    (h : Hop) (hs : List Hop) (work : ℕ)
    → IsLinked h hs
    → work_along h hs work ≡ halved (length hs) work
unfolding work_along halved
work_along-linked h [] work l = refl
work_along-linked h (g ∷ gs) work l =
    rw ((bytes_eq_iff g.from h.to).1 l.0) (work_along-linked g gs (work - work / 2) l.1)

pow_pos : (n : ℕ) → 0 < 2 ^ n
pow_pos zero = omega arith
pow_pos (suc n) = omega (arith, pow_pos n, pow-suc 2 n)

-- halving and rounding up, in one division
halved-eq : (n work : ℕ) → halved n work ≡ (work + (2 ^ n - 1)) / 2 ^ n
unfolding halved
halved-eq zero work = omega arith
halved-eq (suc n) work =
    halved-eq n (work - work / 2)
    ∙ ap (λ x. x / 2 ^ n) one_step
    ∙ div-div-eq-div-mul (work + (2 * 2 ^ n - 1)) 2 (2 ^ n)
    ∙ ap (λ x. (work + (x - 1)) / x) (sym (pow-suc 2 n ∙ mul_comm (2 ^ n) 2))
  where
    one_step : work - work / 2 + (2 ^ n - 1) ≡ (work + (2 * 2 ^ n - 1)) / 2
    one_step = omega (arith, pow_pos n)

-- With a path whose hops meet and that ends at the node, the work is the fees halved once for each
-- hop after the first, rounded up.
pub generate_total_work_linked :
    (tx : Transaction) (h : Hop) (hs : List Hop) (public_key : Bytes)
    → tx.path ≡ h ∷ hs
    → IsLinked h hs
    → (last_hop h hs).to ≡ public_key
    → (generate_total_work tx public_key).total_work_for_me
      ≡ (tx.total_fees + (2 ^ length hs - 1)) / 2 ^ length hs
unfolding generate_total_work
generate_total_work_linked tx h hs public_key e l last =
    rw (e, (bytes_eq_iff (last_hop h hs).to public_key).1 last)
      (work_along-linked h hs tx.total_fees l ∙ halved-eq (length hs) tx.total_fees)

work_along-fees : (h : Hop) (hs : List Hop) (work : ℕ) → 0 < work_along h hs work → 0 < work
unfolding work_along
work_along-fees h [] work p = p
work_along-fees h (g ∷ gs) work p = ground (arith, work_along-fees g gs (work - work / 2))

-- the hops of a path before its last one
before_last : Hop → List Hop → List Hop
before_last h [] = []
before_last h (g ∷ gs) = h ∷ before_last g gs

before_last-append : (h : Hop) (hs : List Hop) → h ∷ hs ≡ before_last h hs ++ last_hop h hs ∷ []
unfolding before_last last_hop
before_last-append h [] = refl
before_last-append h (g ∷ gs) = ap (λ p. h ∷ p) (before_last-append g gs)

work_along-pos : (h : Hop) (hs : List Hop) (work : ℕ) → 0 < work_along h hs work → IsLinked h hs
unfolding work_along
work_along-pos h [] work p = tt
work_along-pos h (g ∷ gs) work p =
    ground (arith, bytes_eq_iff g.from h.to, work_along-pos g gs (work - work / 2))

-- A transaction has work for a node only if it has fees and a path, each hop of which starts where
-- the one before it ends, and the last of which ends at the node.
pub generate_total_work_pos :
    (tx : Transaction) (public_key : Bytes)
    → 0 < (generate_total_work tx public_key).total_work_for_me
    → (0 < tx.total_fees)
      × ((h : Hop) × (hs : List Hop) × (tx.path ≡ h ∷ hs) × IsLinked h hs)
      × ((before : List Hop) × (last : Hop) × (tx.path ≡ before ++ last ∷ [])
          × (last.to ≡ public_key))
unfolding generate_total_work
generate_total_work_pos tx public_key p = from_path tx.path refl p
  where
    from_path :
        (path : List Hop)
        → tx.path ≡ path
        → 0 < path_work path public_key tx.total_fees
        → (0 < tx.total_fees)
          × ((h : Hop) × (hs : List Hop) × (tx.path ≡ h ∷ hs) × IsLinked h hs)
          × ((before : List Hop) × (last : Hop) × (tx.path ≡ before ++ last ∷ [])
              × (last.to ≡ public_key))
    from_path [] e q = absurd (omega arith)
    from_path (h ∷ hs) e q =
        let ends : bytes_eq (last_hop h hs).to public_key ≡ true = ground arith in
        let works : 0 < work_along h hs tx.total_fees = ground arith in
        (
          work_along-fees h hs tx.total_fees works,
          (h, hs, e, work_along-pos h hs tx.total_fees works),
          (
            before_last h hs,
            last_hop h hs,
            e ∙ before_last-append h hs,
            ground (arith, ends, bytes_eq_iff (last_hop h hs).to public_key),
          ),
        )
