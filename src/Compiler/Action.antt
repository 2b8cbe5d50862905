-- ===== src/Compiler/Action.antt =====
-- The compiler's functions on a state that they change, written in sequence.
use turning_machine_operatin.Base.{Bool, if◌then◌else◌}
use turning_machine_operatin.Compiler.Result.{Result, ok, err, starved, bind}

-- Every -1 is passed on to the outermost caller, so that the state after it is not read.
abbrev pub Action {ℓ κ} : Type κ → Type ℓ → Type (ℓ ⊔ κ)
Action S A = S → Result (A × S)

module _ {κ} {S : Type κ} where
  infixl 5 ◌>>=◌ ◌>>◌
  abbrev pub ◌>>=◌ {ℓ μ} : {A : Type ℓ} {B : Type μ} → Action S A → (A → Action S B) → Action S B
  ◌>>=◌ m next s = bind (m s) (λ r. next r.0 r.1)

  abbrev pub ◌>>◌ {ℓ} : {B : Type ℓ} → Action S (Unit {0}) → Action S B → Action S B
  m >> k = m >>= λ _. k

  abbrev pub pure {ℓ} : {A : Type ℓ} → A → Action S A
  pure a s = ok (a, s)

  abbrev pub fail {ℓ} : {A : Type ℓ} → Action S A
  fail s = err

  abbrev pub hungry {ℓ} : {A : Type ℓ} → Action S A
  hungry s = starved

  abbrev pub when_else {ℓ} : {A : Type ℓ} → Bool → Action S A → Action S A → Action S A
  when_else test x y s = if test then x s else y s
