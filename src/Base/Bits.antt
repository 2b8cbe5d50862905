-- ===== src/Base/Bits.antt =====
-- Laws of `&`, `|` and `^` at variables: a low mask is a remainder, disjoint fields add up, and
-- a result fits the width of its arguments.
use Prim.Native.Nat.{ℕ, zero, suc, ◌+◌, ◌*◌, ◌/◌, ◌-◌, ◌%◌, ◌^◌, ◌≤◌, ◌<◌, min, max}
use Prim.Native.Nat.{
  bit_and, bit_or, bit_xor, digits, bit_and-bitwise, bit_or-bitwise, bit_xor-bitwise, differ,
}
use mathlib.Core.Path.{◌≡◌, refl, ap, ◌∙◌}
use native.Mathlib.Nat.{
  pow-suc, one-le-pow, mul-add-mod_self_left, mod-eq_of_lt, mod-lt, div-add-mod, div-div-eq-div-mul,
}
use native.Mathlib.Omega.{arith}

zero-differ : (d : ℕ) → d < 2 → differ 0 d ≡ d
zero-differ zero h = refl
zero-differ (suc zero) h = refl
zero-differ (suc (suc d)) h = absurd (omega arith)

differ-lt : (c d : ℕ) → c < 2 → d < 2 → differ c d < 2
differ-lt zero d p q = rw (zero-differ d q) q
differ-lt (suc zero) zero p q = omega arith
differ-lt (suc zero) (suc zero) p q = omega arith
differ-lt (suc zero) (suc (suc d)) p q = absurd (omega arith)
differ-lt (suc (suc c)) d p q = absurd (omega arith)

-- The operations are defined digit by digit with the first argument for fuel: `z` is what is left
-- of the second number when the first one has run out, and `f` joins two digits.
module _ (z : ℕ → ℕ) (f : ℕ → ℕ → ℕ) (z-halves : (y : ℕ) → z y ≡ z (y / 2) * 2 + f 0 (y % 2)) where
  no_digit : (fuel y : ℕ) → digits z f fuel 0 y ≡ z y
  no_digit zero y = refl
  no_digit (suc fuel) y = refl

  more_fuel :
      (x y small large : ℕ)
      → x ≤ small
      → small ≤ large
      → digits z f large x y ≡ digits z f small x y
  more_fuel zero y small large le more = rw (no_digit large y, no_digit small y) refl
  more_fuel (suc x) y (suc small) (suc large) le more =
      rw (more_fuel (suc x / 2) (y / 2) small large (omega arith) (omega arith))
  more_fuel (suc x) y zero large le more = absurd (omega arith)
  more_fuel (suc x) y (suc small) zero le more = absurd (omega arith)

  digits-halves :
      (x y : ℕ) → digits z f x x y ≡ digits z f (x / 2) (x / 2) (y / 2) * 2 + f (x % 2) (y % 2)
  digits-halves zero y = z-halves y
  digits-halves (suc x) y =
      rw (more_fuel (suc x / 2) (y / 2) (suc x / 2) x (omega arith) (omega arith))

pub bit_and-halves : (a b : ℕ) → bit_and a b ≡ bit_and (a / 2) (b / 2) * 2 + min (a % 2) (b % 2)
bit_and-halves a b =
    let step = digits-halves (λ y. 0) min (λ y. omega arith) a b in
    omega (arith, bit_and-bitwise a b, bit_and-bitwise (a / 2) (b / 2), step)

pub bit_or-halves : (a b : ℕ) → bit_or a b ≡ bit_or (a / 2) (b / 2) * 2 + max (a % 2) (b % 2)
bit_or-halves a b =
    let step = digits-halves (λ y. y) max (λ y. omega arith) a b in
    omega (arith, bit_or-bitwise a b, bit_or-bitwise (a / 2) (b / 2), step)

pub bit_xor-halves : (a b : ℕ) → bit_xor a b ≡ bit_xor (a / 2) (b / 2) * 2 + differ (a % 2) (b % 2)
bit_xor-halves a b =
    let last : (y : ℕ) → y ≡ y / 2 * 2 + differ 0 (y % 2) =
      λ y. omega (arith, zero-differ (y % 2) (omega arith)) in
    let step = digits-halves (λ y. y) differ last a b in
    omega (arith, bit_xor-bitwise a b, bit_xor-bitwise (a / 2) (b / 2), step)

-- One more bit doubles a shifted value.
mul-pow-suc : (q k : ℕ) → q * 2 ^ suc k ≡ q * 2 ^ k * 2
mul-pow-suc q k = omega (arith, ap (λ (t : ℕ). q * t) (pow-suc 2 k))

bit_or-zero_enough : (n a : ℕ) → a ≤ n → bit_or a 0 ≡ a
bit_or-zero_enough n zero h = refl
bit_or-zero_enough zero (suc a) h = absurd (omega arith)
bit_or-zero_enough (suc n) (suc a) h =
    omega (arith, bit_or-halves (suc a) 0, bit_or-zero_enough n (suc a / 2) (omega arith))

-- `(hi << k) | lo` is a sum where `lo` fits in `k` bits.
pub bit_or_disjoint : (k hi lo : ℕ) → lo < 2 ^ k → bit_or (hi * 2 ^ k) lo ≡ hi * 2 ^ k + lo
bit_or_disjoint zero hi lo h =
    let none_left : lo ≡ 0 = omega arith in rw none_left (ground (arith, bit_or-zero_enough hi hi))
bit_or_disjoint (suc k) hi lo h = ground (
  arith,
  bit_or-halves (hi * 2 ^ suc k) lo,
  mul-pow-suc hi k,
  pow-suc 2 k,
  bit_or_disjoint k hi (lo / 2),
)

bit_and-zero_enough : (n a : ℕ) → a ≤ n → bit_and a 0 ≡ 0
bit_and-zero_enough n zero h = refl
bit_and-zero_enough zero (suc a) h = absurd (omega arith)
bit_and-zero_enough (suc n) (suc a) h =
    omega (arith, bit_and-halves (suc a) 0, bit_and-zero_enough n (suc a / 2) (omega arith))

double_mod : (a m : ℕ) → 0 < m → a % (2 * m) ≡ a / 2 % m * 2 + a % 2
double_mod a m pos =
    ap (λ (t : ℕ). t % (2 * m)) split
    ∙ mul-add-mod_self_left (2 * m) (a / 2 / m) low
    ∙ mod-eq_of_lt fits
  where
    low : ℕ
    low = a / 2 % m * 2 + a % 2

    fits : low < 2 * m
    fits = omega (arith, mod-lt (a / 2) pos)

    split : a ≡ 2 * m * (a / 2 / m) + low
    split = omega (arith, div-add-mod (a / 2) m)

bit_or_comm_enough : (n a b : ℕ) → a ≤ n → b ≤ n → bit_or a b ≡ bit_or b a
bit_or_comm_enough zero a b p q = let e : a ≡ b = omega arith in rw e
bit_or_comm_enough (suc n) a b p q =
    ground (arith, bit_or-halves a b, bit_or-halves b a, bit_or_comm_enough n (a / 2) (b / 2))

pub bit_or_comm : (a b : ℕ) → bit_or a b ≡ bit_or b a
bit_or_comm a b = bit_or_comm_enough (a + b) a b (omega arith) (omega arith)

-- A mask of `k` ones takes a remainder.
pub bit_and_low : (k a : ℕ) → bit_and a (2 ^ k - 1) ≡ a % 2 ^ k
bit_and_low zero a = omega (arith, bit_and-zero_enough a a)
bit_and_low (suc k) a = ground (
  arith,
  bit_and-halves a (2 ^ suc k - 1),
  pow-suc 2 k,
  one-le-pow k 2,
  double_mod a (2 ^ k),
  bit_and_low k (a / 2),
)

pub bit_and_byte : (a : ℕ) → bit_and a 0xff ≡ a % 256
bit_and_byte a = bit_and_low 8 a

-- The operations stay within the width of their arguments.
pub bit_and-lt : (k a b : ℕ) → a < 2 ^ k → bit_and a b < 2 ^ k
bit_and-lt zero a b h = let e : a ≡ 0 = omega arith in rw e (omega (arith, bit_and-bitwise 0 b))
bit_and-lt (suc k) a b h =
    ground (arith, bit_and-halves a b, pow-suc 2 k, bit_and-lt k (a / 2) (b / 2))

pub bit_or-lt : (k a b : ℕ) → a < 2 ^ k → b < 2 ^ k → bit_or a b < 2 ^ k
bit_or-lt zero a b h g = let e : a ≡ 0 = omega arith in rw e (omega (arith, bit_or-bitwise 0 b))
bit_or-lt (suc k) a b h g =
    ground (arith, bit_or-halves a b, pow-suc 2 k, bit_or-lt k (a / 2) (b / 2))

pub bit_xor-lt : (k a b : ℕ) → a < 2 ^ k → b < 2 ^ k → bit_xor a b < 2 ^ k
bit_xor-lt zero a b h g = let e : a ≡ 0 = omega arith in rw e (omega (arith, bit_xor-bitwise 0 b))
bit_xor-lt (suc k) a b h g = ground (
  arith,
  bit_xor-halves a b,
  differ-lt (a % 2) (b % 2),
  pow-suc 2 k,
  bit_xor-lt k (a / 2) (b / 2),
)

-- A mask of one bit.
pub bit_and_single : (k a : ℕ) → bit_and a (2 ^ k) ≡ a / 2 ^ k % 2 * 2 ^ k
bit_and_single zero a =
    omega (arith, bit_and-halves a 1, bit_and-zero_enough (a / 2) (a / 2) (omega arith))
bit_and_single (suc k) a = ground (
  arith,
  bit_and-halves a (2 ^ suc k),
  pow-suc 2 k,
  div-div-eq-div-mul a 2 (2 ^ k),
  mul-pow-suc (a / 2 ^ suc k % 2) k,
  bit_and_single k (a / 2),
)
