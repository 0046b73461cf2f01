-- ===== src/Prelude/Outcome.antt =====
-- Python's exceptions as values: `shared/exceptions.py` and the built-in classes that the code
-- raises. A message is kept apart from its class, and holds what the source interpolates.
use Prim.Native.String.{String}
use mathlib.Core.Path.{◌≡◌, refl}
use mathlib.Core.Bool.{Bool, true, false}

pub data ErrorKind : Type 0 where
  configuration_error policy_error storage_error execution_error delivery_error : ErrorKind
  approval_error value_error runtime_error attribute_error type_error os_error : ErrorKind

pub record Error : Type 0 where
  pub kind : ErrorKind
  pub message : String

pub data Result {ℓ} (Value : Type ℓ) : Type ℓ where
  ok : Value → Result Value
  err : Error → Result Value

abbrev pub raise {ℓ} : {Value : Type ℓ} → ErrorKind → String → Result Value
raise kind message = err (record { kind = kind; message = message })

-- `if test: raise …`
abbrev pub raise_if : Bool → ErrorKind → String → Result (Unit {0})
raise_if true kind message = raise kind message
raise_if false kind message = ok tt

infixl 5 ◌>>◌ ◌>>=◌
-- A statement and the rest of the body.
abbrev pub ◌>>=◌ {ℓ κ} :
    {Value : Type ℓ} {Other : Type κ} → Result Value → (Value → Result Other) → Result Other
err e >>= rest = err e
ok value >>= rest = rest value

abbrev pub ◌>>◌ {ℓ} : {Other : Type ℓ} → Result (Unit {0}) → Result Other → Result Other
first >> rest = first >>= λ _. rest

-- A body that returns has a first statement that returned.
pub ok_parts {ℓ κ} :
    {Value : Type ℓ} {Other : Type κ} (first : Result Value) (rest : Value → Result Other)
    {end : Other}
    → (first >>= rest) ≡ ok end
    → (value : Value) × (first ≡ ok value) × (rest value ≡ ok end)
ok_parts (err e) rest done = cc
ok_parts (ok value) rest done = (value, refl, done)

pub ok_injective {ℓ} : {A : Type ℓ} {a b : A} → ok a ≡ ok b → a ≡ b
ok_injective h = cc
