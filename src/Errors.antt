-- ===== src/Errors.antt =====
-- The errors of python/app/http.py, and code that may raise them as a result type.
use python_vs_go_pos_benchma.Prelude.{
  false, true, ℕ, ◌≡◌, refl, ◌⊎◌, inl, inr, Bool, Option, none, some, String, if◌then◌else◌,
}
use python_vs_go_pos_benchma.Schema.Money.{PaymentStatus}

-- The `details` that the code passes to AppError; `empty` is the empty dict.
pub data Details : Type 0 where
  empty : Details
  current_price : ℕ → Details
  payment : ℕ → PaymentStatus → Details

-- The exceptions that leave a handler: AppError; IntegrityError of the database driver with the
-- table whose constraint refuses the row; any other exception of SQLAlchemy, by its name; and the
-- RequestValidationError that FastAPI raises for a parameter outside its declared bounds.
pub data Error : Type 0 where
  app_error : ℕ → String → String → Details → Error
  integrity_error : String → Error
  driver_error : String → Error
  validation_error : Error

pub data Result (A : Type 0) : Type 0 where
  ok : A → Result A
  err : Error → Result A

-- raise AppError(status_code, code, message)
abbrev pub failure : ℕ → String → String → Error
failure status_code code message = app_error status_code code message Details.empty

infixl 5 ◌>>=◌ ◌>>◌
abbrev pub ◌>>=◌ : {A B : Type 0} → Result A → (A → Result B) → Result B
ok a >>= f = f a
err e >>= f = err e

abbrev pub ◌>>◌ : {B : Type 0} → Result (Unit {0}) → Result B → Result B
m >> k = m >>= λ _. k

-- if c: raise e
abbrev pub raise_if : Bool → Error → Result (Unit {0})
raise_if c e = if c then err e else ok tt

-- if x is None: raise e
abbrev pub or_raise : {A : Type 0} → Option A → Error → Result A
or_raise none e = err e
or_raise (some a) e = ok a

pub Result-cases :
    {A : Type 0} (r : Result A) → ((a : A) × (r ≡ ok a)) ⊎ ((e : Error) × (r ≡ err e))
Result-cases (ok a) = inl (a, refl)
Result-cases (err e) = inr (e, refl)

-- What a success says of its first step.
pub passes :
    {B : Type 0} (c : Bool) (e : Error) (r : Result B) (b : B)
    → (raise_if c e >> r) ≡ ok b
    → (c ≡ false) × (r ≡ ok b)
passes true e r b h = cc
passes false e r b h = (refl, h)

pub holds :
    {A B : Type 0} (o : Option A) (e : Error) (f : A → Result B) (b : B)
    → (or_raise o e >>= f) ≡ ok b
    → (a : A) × (o ≡ some a) × (f a ≡ ok b)
holds none e f b h = cc
holds (some a) e f b h = (a, refl, h)

pub first_step :
    {A B : Type 0} (r : Result A) (f : A → Result B) (b : B)
    → (r >>= f) ≡ ok b
    → (a : A) × (r ≡ ok a) × (f a ≡ ok b)
first_step (ok a) f b h = (a, refl, h)
first_step (err e) f b h = cc
