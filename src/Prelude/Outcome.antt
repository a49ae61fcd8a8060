-- ===== src/Prelude/Outcome.antt =====
-- A Rust computation that may panic (`unwrap`, `expect`, `assert!`, an index out of bounds).
use mathlib.Core.Path.{◌≡◌, refl}
use mathlib.Core.Bool.{Bool, true, false}
use mathlib.Core.Option.{Option, none, some}

pub data Outcome {ℓ} (A : Type ℓ) : Type ℓ where
  returns : A → Outcome A
  panics : Outcome A

infixl 5 ◌>>◌
module _ {ℓ κ} {A : Type ℓ} {B : Type κ} where
  infixl 5 ◌>>=◌
  abbrev pub ◌>>=◌ : Outcome A → (A → Outcome B) → Outcome B
  panics >>= next = panics
  returns x >>= next = next x

-- A statement before another computation.
abbrev pub ◌>>◌ {κ} : {B : Type κ} → Outcome (Unit {0}) → Outcome B → Outcome B
panics >> later = panics
returns u >> later = later

abbrev pub unwrap {ℓ} : {A : Type ℓ} → Option A → Outcome A
unwrap none = panics
unwrap (some a) = returns a

-- `assert!`
abbrev pub ensure : Bool → Outcome (Unit {0})
ensure true = returns tt
ensure false = panics

module _ {ℓ κ} {A : Type ℓ} {B : Type κ} where
  -- Inversion of a bind that returns.
  pub >>=-eq-returns :
      (first : Outcome A) (next : A → Outcome B) {y : B}
      → (first >>= next) ≡ returns y
      → (x : A) × (first ≡ returns x) × (next x ≡ returns y)
  >>=-eq-returns panics next h = absurd (cc)
  >>=-eq-returns (returns x) next h = (x, refl, h)

-- A computation that returns does so with one value.
pub returns-injective {ℓ} : {A : Type ℓ} {a b : A} → returns a ≡ returns b → a ≡ b
returns-injective h = cc

-- A bind returns where its first part does and its second part always does.
pub >>=-total {ℓ κ} :
    {A : Type ℓ} {B : Type κ} (m : Outcome A) (f : A → Outcome B) {a : A}
    → m ≡ returns a
    → ((x : A) → (b : B) × (f x ≡ returns b))
    → (b : B) × ((m >>= f) ≡ returns b)
>>=-total (returns a) f h g = g a
>>=-total panics f h g = absurd (cc)

-- The same, where only the value that is there matters.
pub >>=-at {ℓ κ} :
    {A : Type ℓ} {B : Type κ} (m : Outcome A) (f : A → Outcome B) {a : A}
    → m ≡ returns a
    → ((b : B) × (f a ≡ returns b))
    → (b : B) × ((m >>= f) ≡ returns b)
>>=-at m f e (b, h) = (b, rw e h)

pub unwrap-eq-returns {ℓ} : {A : Type ℓ} (o : Option A) {a : A} → unwrap o ≡ returns a → o ≡ some a
unwrap-eq-returns none e = absurd (cc)
unwrap-eq-returns (some b) e = cc e
