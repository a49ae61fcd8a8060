-- ===== src/Prelude/Equality.antt =====
-- `PartialEq` of a type whose equality is decided.
use mathlib.Core.Path.{◌≡◌, refl}
use mathlib.Core.Logic.{◌↔◌}
use mathlib.Core.Bool.{Bool, true, false}
use mathlib.Core.Option.{Option, none, some}

pub record Eq {ℓ} (A : Type ℓ) : Type ℓ where
  pub eq : A → A → Bool
  pub eq_iff : (a b : A) → (eq a b ≡ true) ↔ (a ≡ b)

module _ {ℓ} {A : Type ℓ} (e : Eq A) where
  pub eq_refl : (a : A) → e.eq a a ≡ true
  eq_refl a = (e.eq_iff a a).1 refl

  abbrev pub option_eq : Option A → Option A → Bool
  option_eq none none = true
  option_eq none (some b) = false
  option_eq (some a) none = false
  option_eq (some a) (some b) = e.eq a b

  pub option_eq_refl : (o : Option A) → option_eq o o ≡ true
  option_eq_refl none = refl
  option_eq_refl (some a) = eq_refl a
