-- ===== src/Prelude/Result.antt =====
-- `Result`, and the operator `?` as a chain.
use mathlib.Core.Logic.{◌⊎◌, inl, inr}
use mathlib.Core.Path.{◌≡◌, refl, ap}

pub data Result (A E : Type 0) : Type 0 where
  success : A → Result A E
  failure : E → Result A E

infixl 5 ◌>>=◌
abbrev pub ◌>>=◌ : {A B E : Type 0} → Result A E → (A → Result B E) → Result B E
success a >>= f = f a
failure e >>= f = failure e

-- A chain that succeeds has a first step that does.
pub success_inv :
    {A B E : Type 0} (m : Result A E) (f : A → Result B E) {b : B}
    → (m >>= f) ≡ success b
    → (a : A) × (m ≡ success a) × (f a ≡ success b)
success_inv (success a) f h = (a, refl, h)
success_inv (failure e) f h = cc

abbrev failure_or : {A E : Type 0} → E → Result A E → E
failure_or other (success a) = other
failure_or other (failure e) = e

pub failure_inj : {A E : Type 0} {d e : E} → Path (Result A E) (failure d) (failure e) → d ≡ e
failure_inj {d = d} p = ap (failure_or d) p

-- A chain that fails has a step that does.
pub failure_inv :
    {A B E : Type 0} (m : Result A E) (f : A → Result B E) {e : E}
    → (m >>= f) ≡ failure e
    → (m ≡ failure e) ⊎ ((a : A) × (m ≡ success a) × (f a ≡ failure e))
failure_inv (success a) f h = inr (a, refl, h)
failure_inv (failure e) f h = inl (ap failure (failure_inj h))

pub Result-cases :
    {A E : Type 0} (r : Result A E) → ((a : A) × (r ≡ success a)) ⊎ ((e : E) × (r ≡ failure e))
Result-cases (success a) = inl (a, refl)
Result-cases (failure e) = inr (e, refl)

pub never-success : {A E : Type 0} {a : A} {e : E} → failure e ≡ success a → ⊥
never-success h = cc

abbrev success_or : {A E : Type 0} → A → Result A E → A
success_or other (success a) = a
success_or other (failure e) = other

pub success_inj : {A E : Type 0} {a b : A} → Path (Result A E) (success a) (success b) → a ≡ b
success_inj {a = a} e = ap (success_or a) e
