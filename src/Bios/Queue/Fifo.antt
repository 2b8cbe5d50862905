-- ===== src/Bios/Queue/Fifo.antt =====
-- The ring of src/bios/bios.c is a queue of at most 1023 characters, first in first out.
use turning_machine_operatin.Base.{
  ℕ, zero, suc, ◌+◌, ◌-◌, ◌%◌, ◌<◌, ◌≡◌, refl, ap, ap₂, ◌∙◌, true, false, List, [], ◌∷◌, ◌++◌,
  length, ◌==◌, put, arith, Bool-cases, inl, inr, ◌⊎◌,
}
use mathlib.Core.Path.{subst}
use turning_machine_operatin.Bios.Queue.{
  Queue, next_index, out_queue_push, bios_pending_output, bios_get_output,
}

pub record IsQueue (q : Queue) : Type 0 where
  pub head_in : q.head < 1024
  pub tail_in : q.tail < 1024

-- The `n` characters from index `i` on, around the ring.
unfoldable pub around : (ℕ → ℕ) → ℕ → ℕ → List ℕ
around out i zero = []
around out i (suc n) = out i ∷ around out ((i + 1) % 1024) n

-- How many characters wait, and which ones.
abbrev pub waiting : Queue → ℕ
waiting q = (q.head + 1024 - q.tail) % 1024

abbrev pub contents : Queue → List ℕ
contents q = around q.out q.tail (waiting q)

pub length-around : (out : ℕ → ℕ) (i n : ℕ) → length (around out i n) ≡ n
unfolding around
length-around out i zero = refl
length-around out i (suc n) = ap suc (length-around out ((i + 1) % 1024) n)

-- A character written `n` places on is appended, and the ones before it stay.
around-put :
    (out : ℕ → ℕ) (i n ch : ℕ)
    → i < 1024
    → n < 1024
    → around (put out ((i + n) % 1024) ch) i (suc n) ≡ around out i n ++ (ch ∷ [])
unfolding around put
around-put out i zero ch hi hn = ground arith
around-put out i (suc n) ch hi hn =
    let rest = around-put out ((i + 1) % 1024) n ch (omega arith) (omega arith) in
    let place : ((i + 1) % 1024 + n) % 1024 ≡ (i + suc n) % 1024 = omega arith in
    let first : put out ((i + suc n) % 1024) ch i ≡ out i = ground arith in
    ap₂ ◌∷◌ first (
      subst
        (λ (k : ℕ).
          around (put out k ch) ((i + 1) % 1024) (suc n)
          ≡ around out ((i + 1) % 1024) n ++ (ch ∷ []))
        place rest)

contents-push :
    (q : Queue) (ch : ℕ)
    → IsQueue q
    → waiting q < 1023
    → contents (record q { out = put q.out q.head ch; head = (q.head + 1) % 1024 })
      ≡ contents q ++ (ch ∷ [])
contents-push q ch v room =
    let more : ((q.head + 1) % 1024 + 1024 - q.tail) % 1024 ≡ suc (waiting q) =
      omega (arith, v.head_in, v.tail_in) in
    let at_head : (q.tail + waiting q) % 1024 ≡ q.head = omega (arith, v.head_in, v.tail_in) in
    ap (λ (n : ℕ). around (put q.out q.head ch) q.tail n) more
    ∙ (subst (λ (k : ℕ). around (put q.out k ch) q.tail (suc (waiting q)) ≡ contents q ++ (ch ∷ []))
        at_head (around-put q.out q.tail (waiting q) ch v.tail_in (omega arith)))

-- A push keeps the queue well formed. With 1023 characters waiting it does nothing and says so;
-- otherwise the character comes after those that wait.
pub out_queue_push_lem :
    (q : Queue) (ch : ℕ)
    → IsQueue q
    → let pushed = out_queue_push q ch in
      IsQueue pushed.1
      × (((waiting q ≡ 1023) × (pushed ≡ (false, q)))
          ⊎ ((waiting q < 1023)
              × (pushed.0 ≡ true)
              × (contents pushed.1 ≡ contents q ++ (ch ∷ []))))
unfolding out_queue_push next_index
out_queue_push_lem q ch v = elim (Bool-cases ((q.head + 1) % 1024 == q.tail)) [
  | inl full ↦ rw full (v, inl (ground (arith, v.head_in, v.tail_in), refl))
  | inr room ↦
      let few : waiting q < 1023 = ground (arith, v.head_in, v.tail_in) in
      rw room (
        record { head_in = omega arith; tail_in = v.tail_in },
        inr (few, refl, contents-push q ch v few),
      )
]

-- Taking a character keeps the queue well formed, and gives the one that has waited longest; with
-- none waiting it gives 0 and changes nothing.
pub bios_get_output_lem :
    (q : Queue)
    → IsQueue q
    → let got = bios_get_output q in
      IsQueue got.1
      × (((contents q ≡ []) × (bios_pending_output q ≡ false) × (got ≡ (0, q)))
          ⊎ ((bios_pending_output q ≡ true) × (contents q ≡ got.0 ∷ contents got.1)))
unfolding bios_get_output bios_pending_output around
bios_get_output_lem q v = elim (Bool-cases (q.head == q.tail)) [
  | inl same ↦
      let none_waiting : waiting q ≡ 0 = ground (arith, v.head_in, v.tail_in) in
      rw same (v, inl (ap (λ (n : ℕ). around q.out q.tail n) none_waiting, refl, refl))
  | inr differ ↦
      let fewer : waiting q ≡ suc ((q.head + 1024 - (q.tail + 1) % 1024) % 1024) =
        ground (arith, v.head_in, v.tail_in) in
      rw differ (
        record { head_in = v.head_in; tail_in = omega arith },
        inr (refl, ap (λ (n : ℕ). around q.out q.tail n) fewer),
      )
]
