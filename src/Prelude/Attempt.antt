-- ===== src/Prelude/Attempt.antt =====
-- A Rust computation that returns a `Result` and may also panic.
use mathlib.Core.Path.{◌≡◌, refl}
use mathlib.Core.Bool.{Bool, true, false}
use mathlib.Core.List.{List, [], ◌∷◌}
use mathlib.Core.Option.{Option, none, some}

pub data Attempt {ℓ κ} (E : Type ℓ) (A : Type κ) : Type (ℓ ⊔ κ) where
  ok : A → Attempt E A
  err : E → Attempt E A
  panicked : Attempt E A

infixl 5 ◌>>◌
module _ {ℓ κ ι} {E : Type ℓ} {A : Type κ} {B : Type ι} where
  infixl 5 ◌>>=◌
  abbrev pub ◌>>=◌ : Attempt E A → (A → Attempt E B) → Attempt E B
  panicked >>= next = panicked
  err e >>= next = err e
  ok x >>= next = next x

-- A statement before another computation.
abbrev pub ◌>>◌ {ℓ κ} : {E : Type ℓ} {B : Type κ} → Attempt E (Unit {0}) → Attempt E B → Attempt E B
panicked >> later = panicked
err e >> later = err e
ok u >> later = later

-- `map_err`
abbrev pub map_err {ℓ κ ι} :
    {E : Type ℓ} {F : Type κ} {A : Type ι} → (E → F) → Attempt E A → Attempt F A
map_err f (ok a) = ok a
map_err f (err e) = err (f e)
map_err f panicked = panicked

-- `unwrap` and `expect`
abbrev pub unwrap {ℓ κ} : {E : Type ℓ} {A : Type κ} → Option A → Attempt E A
unwrap none = panicked
unwrap (some a) = ok a

abbrev pub or_err {ℓ κ} : {E : Type ℓ} {A : Type κ} → Option A → E → Attempt E A
or_err none e = err e
or_err (some a) e = ok a

-- `collect::<Result<Vec<_>, _>>`: the first failure is the result.
abbrev pub traverse {ℓ κ ι} :
    {E : Type ℓ} {A : Type κ} {B : Type ι} → (A → Attempt E B) → List A → Attempt E (List B)
traverse f [] = ok []
traverse f (a ∷ xs) = f a >>= λ b. traverse f xs >>= λ bs. ok (b ∷ bs)

-- `any`, which stops at the first element that passes.
abbrev pub any {ℓ κ} : {E : Type ℓ} {A : Type κ} → (A → Attempt E Bool) → List A → Attempt E Bool
any f [] = ok false
any f (a ∷ xs) = let rest = any f xs in f a >>= λ b. elim b [ true ↦ ok true | false ↦ rest ]

module _ {ℓ κ ι} {E : Type ℓ} {A : Type κ} {B : Type ι} where
  -- Inversion of a bind that succeeds.
  pub >>=-eq-ok :
      (first : Attempt E A) (next : A → Attempt E B) {y : B}
      → (first >>= next) ≡ ok y
      → (x : A) × (first ≡ ok x) × (next x ≡ ok y)
  >>=-eq-ok panicked next h = absurd (cc)
  >>=-eq-ok (err e) next h = absurd (cc)
  >>=-eq-ok (ok x) next h = (x, refl, h)

pub ok-injective {ℓ κ} :
    {E : Type ℓ} {A : Type κ} {a b : A} → ◌≡◌ {A = Attempt E A} (ok a) (ok b) → a ≡ b
ok-injective h = cc
