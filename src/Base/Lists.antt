-- ===== src/Base/Lists.antt =====
-- C arrays: lists indexed by native numbers, and arrays as functions from their indices.
use Prim.Native.Nat.{ℕ, zero, suc, ◌+◌, ◌≤◌, ◌<◌}
use mathlib.Core.Path.{◌≡◌, refl, ap, ap₂}
use mathlib.Core.Logic.{inl, inr}
use mathlib.Core.Bool.{Bool, true, false, ◌&&◌}
use mathlib.Core.List.{List, [], ◌∷◌, ◌++◌}
use mathlib.Core.Option.{Option, none, some}
use native.Mathlib.Omega.{arith}
use turning_machine_operatin.Base.Tests.{◌==◌, leb, ltb, if◌then◌else◌, Bool-cases}

module _ {ℓ} {A : Type ℓ} where
  abbrev pub length : List A → ℕ
  length [] = 0
  length (x ∷ xs) = suc (length xs)

  abbrev pub take : ℕ → List A → List A
  take zero xs = []
  take (suc n) [] = []
  take (suc n) (x ∷ xs) = x ∷ take n xs

  abbrev pub drop : ℕ → List A → List A
  drop zero xs = xs
  drop (suc n) [] = []
  drop (suc n) (x ∷ xs) = drop n xs

  abbrev pub replicate : ℕ → A → List A
  replicate zero a = []
  replicate (suc n) a = a ∷ replicate n a

  pub length-append : (xs ys : List A) → length (xs ++ ys) ≡ length xs + length ys
  length-append [] ys = omega arith
  length-append (x ∷ xs) ys = omega (arith, length-append xs ys)

-- `f[off .. off + n)`
unfoldable pub cells : (ℕ → ℕ) → ℕ → ℕ → List ℕ
cells f off zero = []
cells f off (suc n) = f off ∷ cells f (off + 1) n

-- `memcpy(&f[off], bytes, ...)`
unfoldable pub overlay : (ℕ → ℕ) → ℕ → List ℕ → ℕ → ℕ
overlay f off [] = f
overlay f off (b ∷ bs) = overlay (λ x. if x == off then b else f x) (off + 1) bs

-- `memset(&f[off], val, n)`
unfoldable pub fill : (ℕ → ℕ) → ℕ → ℕ → ℕ → ℕ → ℕ
fill f off n val = λ x. if leb off x && ltb x (off + n) then val else f x

-- `f[i] = val`
unfoldable pub put : (ℕ → ℕ) → ℕ → ℕ → ℕ → ℕ
put f i val = λ x. if x == i then val else f x

-- `memcmp(xs, ys, n) == 0` for arrays of one length.
unfoldable pub same_bytes : List ℕ → List ℕ → Bool
same_bytes [] [] = true
same_bytes [] (y ∷ ys) = false
same_bytes (x ∷ xs) [] = false
same_bytes (x ∷ xs) (y ∷ ys) = x == y && same_bytes xs ys

-- `for (i = from; i < from + left; ++i) if (test(i)) return i;`
unfoldable pub first_from : (ℕ → Bool) → ℕ → ℕ → Option ℕ
first_from test zero i = none
first_from test (suc left) i =
    let rest = first_from test left (i + 1) in if test i then some i else rest

pub length-cells : (f : ℕ → ℕ) (off n : ℕ) → length (cells f off n) ≡ n
unfolding cells
length-cells f off zero = refl
length-cells f off (suc n) = ap suc (length-cells f (off + 1) n)

-- The first index found is in range, passes, and no index before it does.
pub first_from-some :
    (test : ℕ → Bool) (left i j : ℕ)
    → first_from test left i ≡ some j
    → (i ≤ j) × (j < i + left) × (test j ≡ true) × ((k : ℕ) → i ≤ k → k < j → test k ≡ false)
unfolding first_from
first_from-some test zero i j h = ground arith
first_from-some test (suc left) i j h = elim (Bool-cases (test i)) [
  | inl e ↦
      let same : i ≡ j = ground arith in
      (omega arith, omega arith, ground arith, λ k p q. absurd (omega arith))
  | inr e ↦
      let later = first_from-some test left (i + 1) j (ground arith) in
      (omega arith, omega arith, later.2, λ k p q. ground (arith, later.3 k))
]

-- Where none is found, every index fails.
pub first_from-none :
    (test : ℕ → Bool) (left i k : ℕ)
    → first_from test left i ≡ none
    → i ≤ k
    → k < i + left
    → test k ≡ false
unfolding first_from
first_from-none test zero i k h p q = absurd (omega arith)
first_from-none test (suc left) i k h p q = ground (arith, first_from-none test left (i + 1) k)

pub overlay_before :
    (f : ℕ → ℕ) (off : ℕ) (bs : List ℕ) (x : ℕ) → x < off → overlay f off bs x ≡ f x
unfolding overlay
overlay_before f off [] x h = refl
overlay_before f off (b ∷ bs) x h =
    ground (arith, overlay_before (λ x. if x == off then b else f x) (off + 1) bs x)

pub overlay_after :
    (f : ℕ → ℕ) (off : ℕ) (bs : List ℕ) (x : ℕ) → off + length bs ≤ x → overlay f off bs x ≡ f x
unfolding overlay
overlay_after f off [] x h = refl
overlay_after f off (b ∷ bs) x h =
    ground (arith, overlay_after (λ x. if x == off then b else f x) (off + 1) bs x)

-- What was copied in is read back.
pub cells-overlay :
    (f : ℕ → ℕ) (off : ℕ) (bs : List ℕ) → cells (overlay f off bs) off (length bs) ≡ bs
unfolding cells overlay
cells-overlay f off [] = refl
cells-overlay f off (b ∷ bs) =
    let g = λ (x : ℕ). if x == off then b else f x in
    ap₂ ◌∷◌ (ground (arith, overlay_before g (off + 1) bs off)) (cells-overlay g (off + 1) bs)

pub cells_ext :
    (f g : ℕ → ℕ) (off n : ℕ)
    → ((x : ℕ) → off ≤ x → x < off + n → f x ≡ g x)
    → cells f off n ≡ cells g off n
unfolding cells
cells_ext f g off zero h = refl
cells_ext f g off (suc n) h =
    ap₂ ◌∷◌ (h off (omega arith) (omega arith))
      (cells_ext f g (off + 1) n (λ x p q. h x (omega arith) (omega arith)))

pub same_bytes_iff : (xs ys : List ℕ) → same_bytes xs ys ≡ true → xs ≡ ys
unfolding same_bytes
same_bytes_iff [] [] h = refl
same_bytes_iff [] (y ∷ ys) h = ground arith
same_bytes_iff (x ∷ xs) [] h = ground arith
same_bytes_iff (x ∷ xs) (y ∷ ys) h = ground (arith, same_bytes_iff xs ys)

pub same_bytes_self : (xs : List ℕ) → same_bytes xs xs ≡ true
unfolding same_bytes
same_bytes_self [] = refl
same_bytes_self (x ∷ xs) = ground (arith, same_bytes_self xs)

-- Where the bytes copied in are all the same.
pub overlay-replicate :
    (f : ℕ → ℕ) (off n val x : ℕ) → off ≤ x → x < off + n → overlay f off (replicate n val) x ≡ val
unfolding overlay
overlay-replicate f off zero val x h p = absurd (omega arith)
overlay-replicate f off (suc n) val x h p =
    let g = λ (y : ℕ). if y == off then val else f y in
    ground
      (arith, overlay_before g (off + 1) (replicate n val) x, overlay-replicate g (off + 1) n val x)

-- Copied from another array.
pub overlay-cells :
    (f g : ℕ → ℕ) (off n x : ℕ) → off ≤ x → x < off + n → overlay f off (cells g off n) x ≡ g x
unfolding overlay cells
overlay-cells f g off zero x h p = absurd (omega arith)
overlay-cells f g off (suc n) x h p =
    let f₁ = λ (y : ℕ). if y == off then g off else f y in
    ground
      (arith, overlay_before f₁ (off + 1) (cells g (off + 1) n) x, overlay-cells f₁ g (off + 1) n x)

pub length-replicate : (n val : ℕ) → length (replicate n val) ≡ n
length-replicate zero val = refl
length-replicate (suc n) val = ap suc (length-replicate n val)

pub take_all : (buf : List ℕ) → take (length buf) buf ≡ buf
take_all [] = refl
take_all (b ∷ bs) = ap (λ t. b ∷ t) (take_all bs)

take-cells : (f : ℕ → ℕ) (off n m : ℕ) → n ≤ m → take n (cells f off m) ≡ cells f off n
unfolding cells
take-cells f off zero m h = refl
take-cells f off (suc n) zero h = absurd (omega arith)
take-cells f off (suc n) (suc m) h = ap (λ t. f off ∷ t) (take-cells f (off + 1) n m (omega arith))

-- A part of the cells.
pub take-drop-cells :
    (f : ℕ → ℕ) (off d n m : ℕ) → d + n ≤ m → take n (drop d (cells f off m)) ≡ cells f (off + d) n
unfolding cells
take-drop-cells f off zero n m h =
    let same : off + 0 ≡ off = omega arith in
    let enough : n ≤ m = omega arith in rw same (take-cells f off n m enough)
take-drop-cells f off (suc d) zero zero h = refl
take-drop-cells f off (suc d) (suc n) zero h = absurd (omega arith)
take-drop-cells f off (suc d) n (suc m) h =
    let same : off + suc d ≡ off + 1 + d = omega arith in
    rw same (take-drop-cells f (off + 1) d n m (omega arith))

pub take_append : (xs ys : List ℕ) → take (length xs) (xs ++ ys) ≡ xs
take_append [] ys = refl
take_append (x ∷ xs) ys = ap (λ t. x ∷ t) (take_append xs ys)
