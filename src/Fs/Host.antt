-- ===== src/Fs/Host.antt =====
-- The C library's view of the open disk image: `fseek`, `fread`, `fwrite`, `fflush` and `ftell`
-- on a stream. What can go wrong on the host is the list `faults`: each call takes its head, where
-- `none` lets the call do all it is asked for and `some k` lets it fail, a transfer after `k` bytes.
-- Where the list is empty, every call works.
use turning_machine_operatin.Base.{
  ℕ, ◌+◌, ◌-◌, Bool, true, false, Option, none, some, List, [], ◌∷◌, length, take, cells, overlay,
}
use Prim.Native.Nat.{min, max}

pub record File : Type 0 where
  pub bytes : ℕ → ℕ
  pub size : ℕ
  pub pos : ℕ
  pub faults : List (Option ℕ)

-- The outcome of the next call, and the file with that outcome used up.
unfoldable pub next_fault : List (Option ℕ) → Option ℕ × List (Option ℕ)
next_fault [] = (none, [])
next_fault (x ∷ xs) = (x, xs)

abbrev pub used : File → File
used f = record f { faults = (next_fault f.faults).1 }

-- `fseek(f, offset, SEEK_SET)`; `true` is the return value 0.
unfoldable pub fseek_set : File → ℕ → Bool × File
unfolding next_fault
fseek_set f offset = elim (next_fault f.faults).0 [
  | none ↦ (true, record (used f) { pos = offset })
  | some k ↦ (false, used f)
]

-- `fseek(f, 0L, SEEK_END)`
unfoldable pub fseek_end : File → Bool × File
unfolding next_fault
fseek_end f = elim (next_fault f.faults).0 [
  | none ↦ (true, record (used f) { pos = f.size })
  | some k ↦ (false, used f)
]

-- `ftell(f)`; `none` is -1.
unfoldable pub ftell : File → Option ℕ × File
unfolding next_fault
ftell f = elim (next_fault f.faults).0 [ none ↦ (some f.pos, used f) | some k ↦ (none, used f) ]

-- How many of `n` bytes a transfer moves.
unfoldable pub moved : Option ℕ → ℕ → ℕ
moved none n = n
moved (some k) n = min k n

-- `fread(buf, 1, n, f)`: the bytes read, as many as the return value says.
unfoldable pub fread : File → ℕ → List ℕ × File
unfolding next_fault moved
fread f n =
    let count = moved (next_fault f.faults).0 (min n (f.size - f.pos)) in
    (cells f.bytes f.pos count, record (used f) { pos = f.pos + count })

-- `fwrite(buf, 1, n, f)`: the return value.
unfoldable pub fwrite : File → List ℕ → ℕ × File
unfolding next_fault moved
fwrite f buf =
    let count = moved (next_fault f.faults).0 (length buf) in
    (
      count,
      record (used f) {
        bytes = overlay f.bytes f.pos (take count buf);
        size = max f.size (f.pos + count);
        pos = f.pos + count;
      },
    )

-- `fflush(f) == 0`
unfoldable pub fflush : File → Bool × File
unfolding next_fault
fflush f = elim (next_fault f.faults).0 [ none ↦ (true, used f) | some k ↦ (false, used f) ]
