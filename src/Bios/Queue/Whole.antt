-- ===== src/Bios/Queue/Whole.antt =====
-- Whole texts through the ring of src/bios/bios.c: what pushing one leaves there, and what draining
-- prints.
use turning_machine_operatin.Base.{
  ℕ, zero, suc, ◌≤◌, ◌≡◌, refl, sym, ap, ◌∙◌, false, List, [], ◌∷◌, ◌++◌, length, take, inl, inr,
  arith,
}
use turning_machine_operatin.Bios.Queue.{
  Queue, out_queue_push, bios_pending_output, bios_get_output, push_all, drain,
}
use turning_machine_operatin.Bios.Queue.Fifo.{
  IsQueue, waiting, contents, length-around, out_queue_push_lem, bios_get_output_lem,
}

append-nil : (xs : List ℕ) → xs ++ [] ≡ xs
append-nil [] = refl
append-nil (x ∷ xs) = ap (λ (l : List ℕ). x ∷ l) (append-nil xs)

append_snoc : (xs : List ℕ) (y : ℕ) (ys : List ℕ) → (xs ++ (y ∷ [])) ++ ys ≡ xs ++ (y ∷ ys)
append_snoc [] y ys = refl
append_snoc (x ∷ xs) y ys = ap (λ (l : List ℕ). x ∷ l) (append_snoc xs y ys)

take-append : (n : ℕ) (xs ys : List ℕ) → length xs ≡ n → take n (xs ++ ys) ≡ xs
take-append zero [] ys h = refl
take-append zero (x ∷ xs) ys h = absurd (omega arith)
take-append (suc n) [] ys h = absurd (omega arith)
take-append (suc n) (x ∷ xs) ys h = ap (λ (l : List ℕ). x ∷ l) (take-append n xs ys (omega arith))

take_short : (n : ℕ) (xs : List ℕ) → length xs ≤ n → take n xs ≡ xs
take_short zero [] h = refl
take_short zero (x ∷ xs) h = absurd (omega arith)
take_short (suc n) [] h = refl
take_short (suc n) (x ∷ xs) h = ap (λ (l : List ℕ). x ∷ l) (take_short n xs (omega arith))

-- Pushing a text keeps the queue well formed, and leaves the first 1023 characters of what waited
-- and the text after it: the rest of a longer text is lost.
pub push_all_lem :
    (q : Queue) (text : List ℕ)
    → IsQueue q
    → IsQueue (push_all q text) × (contents (push_all q text) ≡ take 1023 (contents q ++ text))
unfolding push_all
push_all_lem q [] v =
    let size = length-around q.out q.tail (waiting q) in
    (
      v,
      sym (rw (append-nil (contents q)) (take_short 1023 (contents q) (omega (arith, v.tail_in)))),
    )
push_all_lem q (ch ∷ rest) v =
    let step = out_queue_push_lem q ch v in
    let later = push_all_lem (out_queue_push q ch).1 rest step.0 in
    elim step.1 [
      | inl (full, same) ↦
          let size : length (contents q) ≡ 1023 = length-around q.out q.tail (waiting q) ∙ full in
          let kept : contents (out_queue_push q ch).1 ≡ contents q = rw same refl in
          (
            later.0,
            later.1
                ∙ (ap (λ (l : List ℕ). take 1023 (l ++ rest)) kept
                    ∙ (take-append 1023 (contents q) rest size
                        ∙ sym (take-append 1023 (contents q) (ch ∷ rest) size))),
          )
      | inr (room, done, added) ↦ (
        later.0,
        later.1
            ∙ (ap (λ (l : List ℕ). take 1023 (l ++ rest)) added
                ∙ ap (λ (l : List ℕ). take 1023 l) (append_snoc (contents q) ch rest)),
      )
    ]

drained :
    (fuel : ℕ) (q : Queue)
    → IsQueue q
    → waiting q ≤ fuel
    → ((drain fuel q).0 ≡ contents q) × (bios_pending_output (drain fuel q).1 ≡ false)
unfolding drain
drained zero q v h =
    let size = length-around q.out q.tail (waiting q) in
    elim (bios_get_output_lem q v).1 [
      | inl (empty, idle, got) ↦ (sym empty, idle)
      | inr (busy, split) ↦ absurd (omega (arith, ap (λ (l : List ℕ). length l) split, size))
    ]
drained (suc fuel) q v h =
    let got = bios_get_output_lem q v in
    let q' = (bios_get_output q).1 in
    elim got.1 [
      | inl (empty, idle, same) ↦ rw idle (sym empty, idle)
      | inr (busy, split) ↦
          let size = length-around q.out q.tail (waiting q) in
          let size' = length-around q'.out q'.tail (waiting q') in
          let later =
            drained fuel q' got.0
              (omega (arith, ap (λ (l : List ℕ). length l) split, size, size')) in
          rw busy (ap (λ (l : List ℕ). (bios_get_output q).0 ∷ l) later.0 ∙ sym split, later.1)
    ]

-- Draining a well-formed queue prints what waits, in order, and leaves nothing; any fuel from 1023
-- on is enough.
pub drain_lem :
    (fuel : ℕ) (q : Queue)
    → IsQueue q
    → 1023 ≤ fuel
    → ((drain fuel q).0 ≡ contents q) × (bios_pending_output (drain fuel q).1 ≡ false)
drain_lem fuel q v h = drained fuel q v (omega arith)
