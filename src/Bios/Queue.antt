-- ===== src/Bios/Queue.antt =====
-- The console output of src/bios/bios.c: a ring of 1024 characters, of which one stays unused. A
-- character is its value as an `unsigned char`, as the kernel prints it.
pub mod Fifo
pub mod Whole
use turning_machine_operatin.Base.{
  ℕ, zero, suc, ◌+◌, ◌%◌, Bool, true, false, not, List, [], ◌∷◌, ◌==◌, if◌then◌else◌, put,
}

abbrev pub bios_out_capacity : ℕ
bios_out_capacity = 1024

-- `g_out`, `g_head` and `g_tail`
pub record Queue : Type 0 where
  pub out : ℕ → ℕ
  pub head : ℕ
  pub tail : ℕ

unfoldable pub next_index : ℕ → ℕ
next_index idx = (idx + 1) % bios_out_capacity

-- `false` is the return value 0: the queue is full, and the character is lost.
unfoldable pub out_queue_push : Queue → ℕ → Bool × Queue
out_queue_push q ch =
    let next = next_index q.head in
    if next == q.tail
    then (false, q)
    else (true, record q { out = put q.out q.head ch; head = next })

unfoldable pub bios_pending_output : Queue → Bool
bios_pending_output q = not (q.head == q.tail)

unfoldable pub bios_get_output : Queue → ℕ × Queue
bios_get_output q =
    if q.head == q.tail
    then (0, q)
    else (q.out q.tail, record q { tail = (q.tail + 1) % bios_out_capacity })

-- Several characters, each pushed whether or not the one before it found room.
unfoldable pub push_all : Queue → List ℕ → Queue
push_all q [] = q
push_all q (ch ∷ rest) = push_all (out_queue_push q ch).1 rest

-- `while (bios_pending_output()) putchar(bios_get_output());`, and the characters printed.
unfoldable pub drain : ℕ → Queue → List ℕ × Queue
drain zero q = ([], q)
drain (suc fuel) q =
    let got = bios_get_output q in
    let rest = drain fuel got.1 in
    if bios_pending_output q then (got.0 ∷ rest.0, rest.1) else ([], q)
