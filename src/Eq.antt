-- ===== src/Eq.antt =====
-- Types whose equality is a Boolean test, as the keys of a hash map are.
use saito_rust_workspace.Prelude.{ℕ, ◌≡◌, ◌↔◌, refl, Bool, true, ◌==◌, ==_iff}
use saito_rust_workspace.Bytes.{Bytes, bytes_eq}
use saito_rust_workspace.Bytes.Slices.{bytes_eq_iff}

pub record Eq {ℓ} (A : Type ℓ) : Type ℓ where
  pub beq : A → A → Bool
  pub beq_iff : (x y : A) → (beq x y ≡ true) ↔ (x ≡ y)

abbrev pub nat_beq : ℕ → ℕ → Bool
nat_beq a b = a == b

instance abbrev pub nat_key : Eq ℕ
nat_key = record { beq = nat_beq; beq_iff = ==_iff }

instance abbrev pub bytes_key : Eq Bytes
bytes_key = record { beq = bytes_eq; beq_iff = bytes_eq_iff }

pub beq_refl {ℓ} : {A : Type ℓ} ⦃e : Eq A⦄ (a : A) → e.beq a a ≡ true
beq_refl ⦃e⦄ a = (e.beq_iff a a).1 refl
