-- ===== src/Prelude/Elems.antt =====
-- A predicate on every element of a list, by recursion, and Boolean searches in a list.
use mathlib.Core.Path.{◌≡◌}
use mathlib.Core.Bool.{Bool, true, false, ◌||◌}
use mathlib.Core.List.{List, [], ◌∷◌, ◌++◌, reverse, reverse_aux}
use mathlib.Core.Option.{some}
use Prim.Native.Nat.{ℕ, zero, suc, ◌+◌}
use native.Mathlib.Omega.{arith}
use saito_rust_workspace.Prelude.Lists.{length, set, get_elem?}

abbrev pub All {ℓ κ} : {A : Type ℓ} → (A → Type κ) → List A → Type κ
All P [] = Unit
All P (x ∷ xs) = P x × All P xs

module _ {ℓ} {A : Type ℓ} where
  -- `iter().any(..)`
  abbrev pub any : (A → Bool) → List A → Bool
  any p [] = false
  any p (x ∷ xs) = p x || any p xs

  -- `retain(..)` and `filter(..)` of a Boolean test
  abbrev pub keep_if : (A → Bool) → List A → List A
  keep_if p [] = []
  keep_if p (x ∷ xs) = elim (p x) [ true ↦ x ∷ keep_if p xs | false ↦ keep_if p xs ]

  pub All-append {κ} : (P : A → Type κ) (xs ys : List A) → All P xs → All P ys → All P (xs ++ ys)
  All-append P [] ys front back = back
  All-append P (x ∷ xs) ys front back = (front.0, All-append P xs ys front.1 back)

  pub All-append_left {κ} : (P : A → Type κ) (xs ys : List A) → All P (xs ++ ys) → All P xs
  All-append_left P [] ys h = tt
  All-append_left P (x ∷ xs) ys h = (h.0, All-append_left P xs ys h.1)

  pub All-append_right {κ} : (P : A → Type κ) (xs ys : List A) → All P (xs ++ ys) → All P ys
  All-append_right P [] ys h = h
  All-append_right P (x ∷ xs) ys h = All-append_right P xs ys h.1

  All-reverse_aux {κ} :
      (P : A → Type κ) (xs ys : List A) → All P xs → All P ys → All P (reverse_aux xs ys)
  All-reverse_aux P [] ys hx hy = hy
  All-reverse_aux P (x ∷ xs) ys hx hy = All-reverse_aux P xs (x ∷ ys) hx.1 (hx.0, hy)

  pub All-reverse {κ} : (P : A → Type κ) (xs : List A) → All P xs → All P (reverse xs)
  All-reverse P xs h = All-reverse_aux P xs [] h tt

  length-reverse_aux : (xs ys : List A) → length (reverse_aux xs ys) ≡ length xs + length ys
  length-reverse_aux [] ys = omega arith
  length-reverse_aux (x ∷ xs) ys = omega (arith, length-reverse_aux xs (x ∷ ys))

  pub length-reverse : (xs : List A) → length (reverse xs) ≡ length xs
  length-reverse xs = omega (arith, length-reverse_aux xs [])

  pub All-set {κ} :
      (P : A → Type κ) (xs : List A) (i : ℕ) (v : A) → All P xs → P v → All P (set xs i v)
  All-set P [] i v h p = tt
  All-set P (x ∷ xs) zero v h p = (p, h.1)
  All-set P (x ∷ xs) (suc i) v h p = (h.0, All-set P xs i v h.1 p)

  pub All-get {κ} :
      (P : A → Type κ) (xs : List A) (i : ℕ) {x : A} → All P xs → get_elem? xs i ≡ some x → P x
  All-get P [] i h e = cc
  All-get P (y ∷ xs) zero {x} h e = let same : y ≡ x = cc in rw (← same) h.0
  All-get P (y ∷ xs) (suc i) h e = All-get P xs i h.1 e

  pub any-append_end :
      (p : A → Bool) (xs : List A) (y : A) → any p (xs ++ y ∷ []) ≡ (any p xs || p y)
  any-append_end p [] y = ground arith
  any-append_end p (x ∷ xs) y = ground (arith, any-append_end p xs y)
