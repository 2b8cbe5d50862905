-- ===== src/Base/Tests.antt =====
-- C's comparisons on unsigned values as Boolean tests, and the conditional.
use Prim.Native.Nat.{ℕ, zero, suc, ◌≤◌, ◌<◌, compare, Ordering}
use mathlib.Core.Path.{◌≡◌, refl}
use mathlib.Core.Logic.{◌↔◌, ◌⊎◌, inl, inr}
use mathlib.Core.Bool.{Bool, true, false, ◌&&◌}
use mathlib.Core.Option.{Option, none, some}
use native.Mathlib.Omega.{arith}

abbrev pub ltb : ℕ → ℕ → Bool
ltb a b = elim (compare a b) [ Ordering.lt ↦ true | _ ↦ false ]

abbrev pub leb : ℕ → ℕ → Bool
leb a b = elim (compare a b) [ Ordering.gt ↦ false | _ ↦ true ]

infix 50 ◌==◌
abbrev pub ◌==◌ : ℕ → ℕ → Bool
a == b = elim (compare a b) [ Ordering.eq ↦ true | _ ↦ false ]

infix 1 if◌then◌else◌
abbrev pub if◌then◌else◌ {ℓ} : {A : Type ℓ} → Bool → A → A → A
if true then x else y = x
if false then x else y = y

-- C's conversion of a condition to a number.
abbrev pub to_bit : Bool → ℕ
to_bit true = 1
to_bit false = 0

pub ==_iff : (a b : ℕ) → ((a == b) ≡ true) ↔ (a ≡ b)
==_iff a b = ground arith

pub leb→le : (a b : ℕ) → leb a b ≡ true → a ≤ b
leb→le a b h = ground arith

pub Bool-cases : (b : Bool) → (b ≡ true) ⊎ (b ≡ false)
Bool-cases true = inl refl
Bool-cases false = inr refl

pub Option-cases {ℓ} : {A : Type ℓ} (o : Option A) → (o ≡ none) ⊎ ((a : A) × (o ≡ some a))
Option-cases none = inl refl
Option-cases (some a) = inr (a, refl)

pub to_bit-le : (b : Bool) → to_bit b ≤ 1
to_bit-le true = omega arith
to_bit-le false = omega arith

-- A check of every value below a bound, by evaluation.
unfoldable pub all_below : (ℕ → Bool) → ℕ → Bool
all_below test zero = true
all_below test (suc bound) = all_below test bound && test bound

pub all_below_sound :
    (test : ℕ → Bool) (bound : ℕ)
    → all_below test bound ≡ true
    → (k : ℕ) → k < bound
    → test k ≡ true
unfolding all_below
all_below_sound test zero passed k lt = absurd (omega arith)
all_below_sound test (suc bound) passed k lt =
    let both : (all_below test bound ≡ true) × (test bound ≡ true) = ground arith in
    let below : k < bound → test k ≡ true = all_below_sound test bound both.0 k in
    ground (arith, both, below)

-- What both branches of a conditional have, the conditional has.
pub if_intro {ℓ κ} :
    {A : Type ℓ} (Has : A → Type κ) (test : Bool) {x y : A}
    → Has x
    → Has y
    → Has (if test then x else y)
if_intro Has true on_true on_false = on_true
if_intro Has false on_true on_false = on_false

-- The same, where each branch knows the outcome of the test.
pub if_either {ℓ κ} :
    {A : Type ℓ} (Has : A → Type κ) (test : Bool) {x y : A}
    → (test ≡ true → Has x)
    → (test ≡ false → Has y)
    → Has (if test then x else y)
if_either Has true on_true on_false = on_true refl
if_either Has false on_true on_false = on_false refl

pub option_either {ℓ κ μ} :
    {A : Type ℓ} {B : Type μ} (Has : B → Type κ) (o : Option A) {x : B} {f : A → B}
    → (o ≡ none → Has x)
    → ((a : A) → o ≡ some a → Has (f a))
    → Has (elim o [ none ↦ x | some a ↦ f a ])
option_either Has none on_none on_some = on_none refl
option_either Has (some a) on_none on_some = on_some a refl
