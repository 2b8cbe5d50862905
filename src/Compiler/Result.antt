-- ===== src/Compiler/Result.antt =====
-- Outcomes of the compiler's functions, and conditions on them.
use turning_machine_operatin.Base.{◌≡◌, refl, Bool, true, false, if◌then◌else◌}
use mathlib.Core.Logic.{◌≢◌}

-- `err` is the return value -1; `starved` has no counterpart in the program: the fuel ran out.
pub data Result {ℓ} (A : Type ℓ) : Type ℓ where
  ok : A → Result A
  err starved : Result A

abbrev pub bind {ℓ κ} : {A : Type ℓ} {B : Type κ} → Result A → (A → Result B) → Result B
bind (ok a) next = next a
bind err next = err
bind starved next = starved

-- The call kept within its fuel, and what it returned, if not -1, satisfies `Good`.
pub data Yields {ℓ} {A : Type ℓ} (Good : A → Type 0) : Result A → Type ℓ where
  gives : {a : A} → Good a → Yields Good (ok a)
  refused : Yields Good err

module _ {ℓ} {A : Type ℓ} where
  pub Yields-starved : {Good : A → Type 0} {r : Result A} → Yields Good r → r ≢ starved
  Yields-starved (gives h) = cc
  Yields-starved refused = cc

  pub Yields-then {κ} :
      {B : Type κ} {Good : A → Type 0} {Fine : B → Type 0} {r : Result A} {next : A → Result B}
      → Yields Good r
      → ((a : A) → Good a → Yields Fine (next a))
      → Yields Fine (bind r next)
  Yields-then (gives {a} h) k = k a h
  Yields-then refused k = refused

  pub Yields-weaken :
      {Good Fine : A → Type 0} {r : Result A}
      → Yields Good r
      → ((a : A) → Good a → Fine a)
      → Yields Fine r
  Yields-weaken (gives {a} h) k = gives (k a h)
  Yields-weaken refused k = refused

  pub Yields-split :
      {Good : A → Type 0} (test : Bool) {x y : Result A}
      → (test ≡ true → Yields Good x)
      → (test ≡ false → Yields Good y)
      → Yields Good (if test then x else y)
  Yields-split true on_true on_false = on_true refl
  Yields-split false on_true on_false = on_false refl

  -- Where what is known depends on the test.
  pub Yields-when {κ} :
      {Good : A → Type 0} (Known : Bool → Type κ) (test : Bool) {x y : Result A}
      → Known test
      → (Known true → Yields Good x)
      → (Known false → Yields Good y)
      → Yields Good (if test then x else y)
  Yields-when Known true known on_true on_false = on_true known
  Yields-when Known false known on_true on_false = on_false known

  -- A check that fails with -1.
  pub Yields-guard {κ} :
      {B : Type κ} {Good : B → Type 0} (test : Bool) (a : A) (next : A → Result B)
      → (test ≡ true → Yields Good (next a))
      → Yields Good (bind (if test then ok a else err) next)
  Yields-guard true a next h = h refl
  Yields-guard false a next h = refused
