-- ===== src/Errors.antt =====
-- The exceptions that the service raises or meets, and computations that may raise.
use mathlib.Core.List.{List, [], ◌∷◌}
use sta_generation_service.Prelude.{
  ℕ, zero, suc, String, Bool, Option, none, some, ◌≡◌, refl, ◌⊎◌, inl, inr,
}

pub data Error : Type 0 where
  -- fastapi's HTTPException; with no detail the framework writes the status's own phrase
  http : (status : ℕ) → (detail : Option String) → Error
  index_error key_error type_error value_error : Error
  -- a unique column would hold a value twice
  integrity_error : Error
  -- a file or a folder is missing, or is the other one of the two
  os_error : Error
  -- a query met a table that the migrations have not made
  programming_error : Error
  -- What the SPARQL store raised: whether its `__context__` is a URLError, and whether it is
  -- itself a ValueError.
  store_error : (url_context : Bool) → (value_error : Bool) → Error

-- What a computation gives: a value, or the exception that it raised.
pub data Result {ℓ} (Value : Type ℓ) : Type ℓ where
  ok : Value → Result Value
  err : Error → Result Value

-- xs[i]
abbrev pub item {ℓ} : {A : Type ℓ} → List A → ℕ → Result A
item [] i = err index_error
item (x ∷ xs) zero = ok x
item (x ∷ xs) (suc i) = item xs i

-- The next step, unless the first one raised.
infixl 5 ◌>>=◌
abbrev pub ◌>>=◌ {ℓ κ} :
    {A : Type ℓ} {B : Type κ} → (first : Result A) → (next : A → Result B) → Result B
err raised >>= next = err raised
ok value >>= next = next value

-- An optional value whose absence raises `e`.
abbrev pub or_raise {ℓ} : {A : Type ℓ} → Error → Option A → Result A
or_raise e none = err e
or_raise e (some a) = ok a

pub >>=-eq-ok {ℓ κ} :
    {A : Type ℓ} {B : Type κ} (first : Result A) (next : A → Result B) {answer : B}
    → (first >>= next) ≡ ok answer
    → (value : A) × (first ≡ ok value) × (next value ≡ ok answer)
>>=-eq-ok (err raised) next done = cc
>>=-eq-ok (ok value) next done = (value, refl, done)

pub >>=_assoc {ℓ κ μ} :
    {A : Type ℓ} {B : Type κ} {C : Type μ} (m : Result A) (f : A → Result B) (g : B → Result C)
    → (m >>= f >>= g) ≡ (m >>= λ a. f a >>= g)
>>=_assoc (ok a) f g = refl
>>=_assoc (err e) f g = refl

-- What a computation did, with the equation.
pub Result-cases {ℓ} :
    {A : Type ℓ} (r : Result A) → ((a : A) × (r ≡ ok a)) ⊎ ((e : Error) × (r ≡ err e))
Result-cases (ok a) = inl (a, refl)
Result-cases (err e) = inr (e, refl)

pub or_raise-eq-ok {ℓ} :
    {A : Type ℓ} (e : Error) (o : Option A) {a : A} → or_raise e o ≡ ok a → o ≡ some a
or_raise-eq-ok e none h = cc
or_raise-eq-ok e (some b) h = cc
