-- ===== src/Base/Words.antt =====
-- The machine's integer types: casts and shifts of unsigned values.
use Prim.Native.Nat.{ℕ, ◌+◌, ◌-◌, ◌*◌, ◌/◌, ◌%◌, ◌^◌}

abbrev pub u8 : ℕ → ℕ
u8 n = n % 256

abbrev pub u16 : ℕ → ℕ
u16 n = n % 65536

abbrev pub u64 : ℕ → ℕ
u64 n = n % 2 ^ 64

infixl 75 ◌<<◌ ◌>>>◌
abbrev pub ◌<<◌ : ℕ → ℕ → ℕ
x << k = x * 2 ^ k

abbrev pub ◌>>>◌ : ℕ → ℕ → ℕ
x >>> k = x / 2 ^ k

-- `x - y` cast to 16 or to 8 bits, for a `y` within the width.
abbrev pub sub16 : ℕ → ℕ → ℕ
sub16 x y = (x + 65536 - y) % 65536

abbrev pub sub8 : ℕ → ℕ → ℕ
sub8 x y = (x + 256 - y) % 256
