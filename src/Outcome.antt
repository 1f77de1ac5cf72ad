-- ===== src/Outcome.antt =====
-- What a fallible Rust function gives: a value, an `io::Error` of some kind, or a panic (a slice
-- out of range, a failed `assert!`, `unwrap()` of nothing).
use saito_rust_workspace.Prelude.{◌≡◌, refl, Bool, true, false, Option, none, some}

-- `std::io::ErrorKind`, the kinds that the crate uses
pub data ErrorKind : Type 0 where
  invalid_input invalid_data not_found : ErrorKind

pub data Outcome {ℓ} (A : Type ℓ) : Type ℓ where
  ok : A → Outcome A
  err : ErrorKind → Outcome A
  panic : Outcome A

-- the `?` operator, through which a panic passes too
infixl 5 ◌>>=◌ ◌>>◌
abbrev pub ◌>>=◌ {ℓ κ} : {A : Type ℓ} {B : Type κ} → Outcome A → (A → Outcome B) → Outcome B
ok a >>= f = f a
err e >>= f = err e
panic >>= f = panic

abbrev pub ◌>>◌ {ℓ} : {B : Type ℓ} → Outcome (Unit {0}) → Outcome B → Outcome B
m >> k = m >>= λ _. k

-- `if !test { return Err(kind) }`
abbrev pub check : Bool → ErrorKind → Outcome (Unit {0})
check true e = ok tt
check false e = err e

-- `assert!(test)`
abbrev pub assert : Bool → Outcome (Unit {0})
assert true = ok tt
assert false = panic

-- `.ok_or(kind)?`
abbrev pub ok_or {ℓ} : {A : Type ℓ} → Option A → ErrorKind → Outcome A
ok_or (some a) e = ok a
ok_or none e = err e

-- `.unwrap()`
abbrev pub unwrap {ℓ} : {A : Type ℓ} → Option A → Outcome A
unwrap (some a) = ok a
unwrap none = panic

-- A successful bind comes from a successful first step.
pub >>=-eq-ok {ℓ κ} :
    {A : Type ℓ} {B : Type κ} (step : Outcome A) (next : A → Outcome B) {last : B}
    → (step >>= next) ≡ ok last
    → (first : A) × (step ≡ ok first) × (next first ≡ ok last)
>>=-eq-ok panic next e = cc
>>=-eq-ok (err kind) next e = cc
>>=-eq-ok (ok first) next e = (first, refl, e)

-- What an outcome gives has a property, if it gives something.
abbrev pub Gives {ℓ} : {A : Type ℓ} → (A → Type 0) → Outcome A → Type 0
Gives P (ok a) = P a
Gives P (err e) = Unit {0}
Gives P panic = Unit {0}

pub Gives-bind {ℓ κ} :
    {A : Type ℓ} {B : Type κ} (P : A → Type 0) (Q : B → Type 0) (m : Outcome A) (f : A → Outcome B)
    → Gives P m
    → ((a : A) → P a → Gives Q (f a))
    → Gives Q (m >>= f)
Gives-bind P Q (ok a) f p q = q a p
Gives-bind P Q (err e) f p q = tt
Gives-bind P Q panic f p q = tt

pub Gives-unit {ℓ} : {A : Type ℓ} (m : Outcome A) → Gives (λ a. Unit {0}) m
Gives-unit (ok a) = tt
Gives-unit (err e) = tt
Gives-unit panic = tt

pub given {ℓ} : {A : Type ℓ} (P : A → Type 0) {a : A} (m : Outcome A) → m ≡ ok a → Gives P m → P a
given P {a} (ok b) e p = let same : a ≡ b = cc (e) in rw same p
given P (err k) e p = cc (e)
given P panic e p = cc (e)
