-- ===== src/Bytes/Slices.antt =====
-- Slices of a concatenation, and byte-string equality.
use saito_rust_workspace.Prelude.{
  ℕ, zero, suc, ◌+◌, ◌-◌, ◌≤◌, ◌<◌, ◌≡◌, ◌↔◌, refl, sym, take-append-drop, ap, ap₂, ap₂, ◌∙◌, true,
  [], ◌∷◌, ◌++◌, length, take, drop, length-append, length-take, length-drop, get_elem?, arith,
}
use saito_rust_workspace.Outcome.{ok, unwrap}
use saito_rust_workspace.Bytes.{zeros, Bytes, AreBytes, IsArray, slice, index, bytes_eq}

drop-append :
    (xs ys : Bytes) (a k : ℕ) → length xs ≡ k → k ≤ a → drop a (xs ++ ys) ≡ drop (a - k) ys
drop-append [] ys a k e h = ap (λ n. drop n ys) (omega arith)
drop-append (x ∷ xs) ys zero k e h = absurd (omega arith)
drop-append (x ∷ xs) ys (suc a) k e h =
    drop-append xs ys a (k - 1) (omega arith) (omega arith) ∙ ap (λ n. drop n ys) (omega arith)

take-append_self : (xs ys : Bytes) → take (length xs) (xs ++ ys) ≡ xs
take-append_self [] ys = refl
take-append_self (x ∷ xs) ys = ap (λ l. x ∷ l) (take-append_self xs ys)

-- A slice past the first part is a slice of the rest.
pub slice-append_skip :
    (xs ys : Bytes) (a b k : ℕ)
    → length xs ≡ k
    → k ≤ a
    → a ≤ b
    → slice (xs ++ ys) a b ≡ slice ys (a - k) (b - k)
unfolding slice
slice-append_skip xs ys a b k e h g =
    rw (drop-append xs ys a k e h) (ground (arith, length-append xs ys, bk))
  where
    bk : b - k - (a - k) ≡ b - a
    bk = omega arith

-- The slice that is the first part.
pub slice-append_self : (xs ys : Bytes) (k : ℕ) → length xs ≡ k → slice (xs ++ ys) 0 k ≡ ok xs
unfolding slice
slice-append_self xs ys k e = rw (← e) (ground (arith, length-append xs ys, take-append_self xs ys))

-- An index past the first part is an index of the rest.
pub index-append_skip :
    (xs ys : Bytes) (i k : ℕ) → length xs ≡ k → k ≤ i → index (xs ++ ys) i ≡ index ys (i - k)
unfolding index
index-append_skip [] ys i k e h = ap (λ n. unwrap (get_elem? ys n)) (omega arith)
index-append_skip (x ∷ xs) ys zero k e h = absurd (omega arith)
index-append_skip (x ∷ xs) ys (suc i) k e h =
    index-append_skip xs ys i (k - 1) (omega arith) (omega arith)
    ∙ ap (λ n. unwrap (get_elem? ys n)) (omega arith)

-- Equality of byte strings is decided.
pub bytes_eq_iff : (a b : Bytes) → (bytes_eq a b ≡ true) ↔ (a ≡ b)
unfolding bytes_eq
bytes_eq_iff [] [] = ((λ _. refl), (λ _. refl))
bytes_eq_iff [] (x ∷ b) = ((λ h. cc), (λ h. cc))
bytes_eq_iff (x ∷ a) [] = ((λ h. cc), (λ h. cc))
bytes_eq_iff (x ∷ a) (y ∷ b) = ground (arith, bytes_eq_iff a b)

pub bytes_eq_refl : (a : Bytes) → bytes_eq a a ≡ true
bytes_eq_refl a = (bytes_eq_iff a a).1 refl

-- A slice that is taken lies in the string, and is its part.
pub slice-eq-ok :
    (bs : Bytes) (a b : ℕ) {r : Bytes}
    → slice bs a b ≡ ok r
    → (a ≤ b) × (b ≤ length bs) × (length r ≡ b - a) × (r ≡ take (b - a) (drop a bs))
unfolding slice
slice-eq-ok bs a b h = ground (arith, length-take (b - a) (drop a bs), length-drop a bs)

-- A slice with its ends in range is taken.
pub slice_in_range :
    (bs : Bytes) (a b : ℕ) → a ≤ b → b ≤ length bs → slice bs a b ≡ ok (take (b - a) (drop a bs))
unfolding slice
slice_in_range bs a b h g = ground arith

drop-nil : (n : ℕ) → drop {A = ℕ} n [] ≡ []
drop-nil zero = refl
drop-nil (suc n) = refl

drop-drop : (bs : Bytes) (a k : ℕ) → drop k (drop a bs) ≡ drop (a + k) bs
drop-drop bs zero k = ap (λ n. drop n bs) (omega arith)
drop-drop [] (suc a) k = drop-nil k ∙ sym (drop-nil (suc a + k))
drop-drop (x ∷ bs) (suc a) k =
    let e : suc (a + k) ≡ suc a + k = omega arith in drop-drop bs a k ∙ ap (λ n. drop n (x ∷ bs)) e

-- The part between two ends, with what follows, is what follows the first end.
pub slice_split :
    (bs : Bytes) (a b : ℕ) {r : Bytes} → slice bs a b ≡ ok r → r ++ drop b bs ≡ drop a bs
slice_split bs a b {r} h =
    ap₂ ◌++◌ (slice-eq-ok bs a b h).3 rest ∙ take-append-drop (b - a) (drop a bs)
  where
    e : b ≡ a + (b - a)
    e = omega (arith, (slice-eq-ok bs a b h).0)

    rest : drop b bs ≡ drop (b - a) (drop a bs)
    rest = ap (λ n. drop n bs) e ∙ sym (drop-drop bs a (b - a))

pub index_split : (bs : Bytes) (i : ℕ) {v : ℕ} → index bs i ≡ ok v → v ∷ drop (suc i) bs ≡ drop i bs
unfolding index
index_split [] i h = cc
index_split (x ∷ bs) zero h = ground arith
index_split (x ∷ bs) (suc i) h = index_split bs i h

pub drop-length : (bs : Bytes) → drop (length bs) bs ≡ []
drop-length [] = refl
drop-length (x ∷ bs) = drop-length bs

AreBytes-drop : (n : ℕ) (bs : Bytes) → AreBytes bs → AreBytes (drop n bs)
AreBytes-drop zero bs h = h
AreBytes-drop (suc n) [] h = tt
AreBytes-drop (suc n) (x ∷ bs) h = AreBytes-drop n bs h.1

AreBytes-take : (n : ℕ) (bs : Bytes) → AreBytes bs → AreBytes (take n bs)
AreBytes-take zero bs h = tt
AreBytes-take (suc n) [] h = tt
AreBytes-take (suc n) (x ∷ bs) h = (h.0, AreBytes-take n bs h.1)

-- A slice of bytes is an array of bytes.
pub slice-IsArray :
    (bs : Bytes) (a b : ℕ) {r : Bytes} → AreBytes bs → slice bs a b ≡ ok r → IsArray (b - a) r
slice-IsArray bs a b h e = (
  (slice-eq-ok bs a b e).2,
  rw ((slice-eq-ok bs a b e).3) (AreBytes-take (b - a) (drop a bs) (AreBytes-drop a bs h)),
)

pub index-lt : (bs : Bytes) (i : ℕ) {v : ℕ} → AreBytes bs → index bs i ≡ ok v → v < 256
unfolding index
index-lt [] i h e = cc
index-lt (x ∷ bs) zero h e = ground arith
index-lt (x ∷ bs) (suc i) h e = index-lt bs i h.1 e

pub index_in_range : (bs : Bytes) (i : ℕ) → i < length bs → (v : ℕ) × (index bs i ≡ ok v)
unfolding index
index_in_range [] i h = absurd (omega arith)
index_in_range (x ∷ bs) zero h = (x, refl)
index_in_range (x ∷ bs) (suc i) h = index_in_range bs i (omega arith)

-- Zeros are bytes.
pub zeros-IsArray : (n : ℕ) → IsArray n (zeros n)
unfolding zeros
zeros-IsArray zero = (refl, tt)
zeros-IsArray (suc n) = let (size, bytes) = zeros-IsArray n in (ap suc size, (omega arith, bytes))
