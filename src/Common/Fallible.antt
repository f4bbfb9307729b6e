-- ===== src/Common/Fallible.antt =====
-- What a kernel function does: it returns a value, or it stops the machine by `panic`.
use mathlib.Core.Path.{◌≡◌, refl}
use mathlib.Core.Bool.{Bool, true, false}
use mathlib.Core.Logic.{◌⊎◌, inl, inr}
use Prim.Native.String.{String}

pub data Outcome {ℓ} (A : Type ℓ) : Type ℓ where
  panic : String → Outcome A
  ok : A → Outcome A

-- A call, and what the kernel does with its value.
infixl 5 ◌>>=◌
abbrev pub ◌>>=◌ {ℓ ℓ'} : {X : Type ℓ} {Y : Type ℓ'} → Outcome X → (X → Outcome Y) → Outcome Y
panic message >>= next = panic message
ok x >>= next = next x

-- `if (bad) panic(message);`
abbrev pub panic_if : Bool → String → Outcome (Unit {0})
panic_if bad message = elim bad [ false ↦ ok tt | true ↦ panic message ]

-- A call for its effect alone.
infixl 5 ◌>>◌
abbrev pub ◌>>◌ {ℓ} : {Y : Type ℓ} → Outcome (Unit {0}) → Outcome Y → Outcome Y
panic message >> next = panic message
ok _ >> next = next

-- Where the whole call returns, each of its parts has returned.
pub >>=-eq-ok {ℓ ℓ'} :
    {X : Type ℓ} {Y : Type ℓ'} (o : Outcome X) (next : X → Outcome Y) {y : Y}
    → (o >>= next) ≡ ok y
    → (x : X) × (o ≡ ok x) × (next x ≡ ok y)
>>=-eq-ok (panic message) next e = cc
>>=-eq-ok (ok x) next e = (x, refl, e)

pub Outcome-cases {ℓ} :
    {X : Type ℓ} (o : Outcome X)
    → ((x : X) × (o ≡ ok x)) ⊎ ((message : String) × (o ≡ panic message))
Outcome-cases (panic message) = inr (message, refl)
Outcome-cases (ok x) = inl (x, refl)
