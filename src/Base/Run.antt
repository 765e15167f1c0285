-- ===== src/Base/Run.antt =====
-- How a call ends, and the rules for calls that return.
use mathlib.Core.Path.{◌≡◌, refl}
use mathlib.Core.Bool.{Bool, true, false}
use mathlib.Core.Option.{Option, none, some}

-- A value; a panic (a failed assertion, an index out of bounds, an `expect` on nothing); or the
-- fuel of the model used up.
pub data Run {ℓ} (A : Type ℓ) : Type ℓ where
  ok : A → Run A
  panic : Run A
  out_of_fuel : Run A

-- `Returns P r`: the run `r` gives a value for which `P` holds.
pub data Returns {ℓ κ} {A : Type ℓ} (P : A → Type κ) : Run A → Type (ℓ ⊔ κ) where
  returns : {a : A} → P a → Returns P (ok a)

pub Returns-inv {ℓ κ} :
    {A : Type ℓ} {P : A → Type κ} {r : Run A} → Returns P r → (a : A) × (r ≡ ok a) × P a
Returns-inv (returns {a} holds) = (a, refl, holds)

-- The value satisfies what follows from `P`.
pub Returns-map {ℓ κ μ} :
    {A : Type ℓ} {P : A → Type κ} {P' : A → Type μ} {r : Run A}
    → Returns P r
    → ((a : A) → P a → P' a)
    → Returns P' r
Returns-map (returns {a} holds) weaker = returns (weaker a holds)

infixl 5 ◌>>=◌ ◌>>◌
abbrev pub ◌>>=◌ {ℓ κ} : {A : Type ℓ} {B : Type κ} → Run A → (A → Run B) → Run B
panic >>= rest = panic
out_of_fuel >>= rest = out_of_fuel
ok a >>= rest = rest a

abbrev pub ◌>>◌ {ℓ} : {B : Type ℓ} → Run (Unit {0}) → Run B → Run B
m >> rest = m >>= λ _. rest

pub Returns-bind {ℓ κ ℓ' κ'} :
    {A : Type ℓ} {B : Type ℓ'} {P : A → Type κ} {Q : B → Type κ'} {r : Run A} {rest : A → Run B}
    → Returns P r
    → ((a : A) → P a → Returns Q (rest a))
    → Returns Q (r >>= rest)
Returns-bind (returns {a} holds) after = after a holds

-- `assert!(b)`
abbrev pub assert : Bool → Run (Unit {0})
assert true = ok tt
assert false = panic

-- An index expression, or `expect`.
abbrev pub expect {ℓ} : {A : Type ℓ} → Option A → Run A
expect none = panic
expect (some a) = ok a

-- A call, then what follows, then what follows that.
pub Returns-then {ℓ κ ℓ' ℓ''} :
    {A : Type ℓ} {B : Type ℓ'} {C : Type ℓ''} {P : C → Type κ} (r : Run A) (f : A → Run B)
    (g : B → Run C)
    → Returns P ((r >>= f) >>= g)
    → Returns P (r >>= λ a. f a >>= g)
Returns-then (ok a) f g h = h
Returns-then panic f g h = h
Returns-then out_of_fuel f g h = h

pub Returns-nested {ℓ κ ℓ' ℓ''} :
    {A : Type ℓ} {B : Type ℓ'} {C : Type ℓ''} {P : C → Type κ} (r : Run A) (f : A → Run B)
    (g : B → Run C)
    → Returns P (r >>= λ a. f a >>= g)
    → Returns P ((r >>= f) >>= g)
Returns-nested (ok a) f g h = h
Returns-nested panic f g h = h
Returns-nested out_of_fuel f g h = h
