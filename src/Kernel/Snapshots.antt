-- ===== src/Kernel/Snapshots.antt =====
-- The two files that the loop of src/kernel/kernel.c writes for the visualizer. Where a file does not
-- open, nothing is written, and the kernel goes on.
use turning_machine_operatin.Base.{
  ℕ, ◌%◌, ◌≡◌, refl, sym, ◌∙◌, Option, none, some, List, [], ◌∷◌, ◌++◌, ◌==◌, if◌then◌else◌, length,
  take, drop, replicate, cells, length-cells, length-append, take-drop-cells, take_append, fill,
  bit_and, ◌>>>◌, u8, arith, ap,
}
use turning_machine_operatin.Mem.{mem_read, mem_write}
use turning_machine_operatin.Kernel.{KernelState, halt, Kernel, state_code, kernel_write_meta}

-- What is written to the file of the tape: all of it.
unfoldable pub kernel_write_tape_snapshot : Kernel → List ℕ
kernel_write_tape_snapshot k = cells (mem_read k.world.machine.mem) 0 65536

-- The state and the steps.
unfoldable pub meta_head : Kernel → List ℕ
unfolding state_code
meta_head k =
    let steps32 = bit_and k.steps 0xFFFFFFFF in
    state_code k.state
    ∷ u8 (bit_and steps32 0xFF)
    ∷ u8 (bit_and (steps32 >>> 8) 0xFF)
    ∷ u8 (bit_and (steps32 >>> 16) 0xFF)
    ∷ u8 (bit_and (steps32 >>> 24) 0xFF)
    ∷ []

-- What is written to the other file: these, the dirty map from the tape, the program counter, and
-- zeros up to 64 bytes.
unfoldable pub kernel_write_meta_snapshot : Kernel → List ℕ
unfolding meta_head
kernel_write_meta_snapshot k =
    let pc = k.world.machine.cpu.pc in
    meta_head k
    ++ (cells (mem_read k.world.machine.mem) 0xFF10 32
        ++ (u8 (bit_and (pc >>> 8) 0xFF) ∷ u8 (bit_and pc 0xFF) ∷ replicate 25 0))

-- The two files, every 1000 rounds.
unfoldable pub kernel_maybe_write_snapshots : Kernel → Option (List ℕ × List ℕ)
unfolding kernel_write_tape_snapshot kernel_write_meta_snapshot
kernel_maybe_write_snapshots k =
    if k.tick % 1000 == 0
    then some (kernel_write_tape_snapshot k, kernel_write_meta_snapshot k)
    else none

-- After the loop: the meta bytes once more, and both files.
unfoldable pub kernel_finish : Kernel → Kernel × (List ℕ × List ℕ)
unfolding kernel_write_meta kernel_write_tape_snapshot kernel_write_meta_snapshot
kernel_finish k =
    let k₁ = kernel_write_meta k in
    (k₁, (kernel_write_tape_snapshot k₁, kernel_write_meta_snapshot k₁))

-- `none` is the null pointer.
unfoldable pub kernel_state : Option Kernel → KernelState
kernel_state none = halt
kernel_state (some k) = k.state

-- The first bytes of the second file are those that `kernel_write_meta` puts on the tape.
cells-meta :
    (k : Kernel) → cells (mem_read (kernel_write_meta k).world.machine.mem) 0xFF00 5 ≡ meta_head k
unfolding cells meta_head kernel_write_meta mem_read mem_write fill
cells-meta k = refl

length-head : (k : Kernel) → length (meta_head k) ≡ 5
unfolding meta_head
length-head k = refl

take_head : (k : Kernel) (ys : List ℕ) → take 5 (meta_head k ++ ys) ≡ meta_head k
unfolding meta_head
take_head k ys = refl

drop_head : (k : Kernel) (ys : List ℕ) → drop 5 (meta_head k ++ ys) ≡ ys
unfolding meta_head
drop_head k ys = refl

-- After the loop the two files agree: the state and the steps in the second one are the cells from
-- 0xFF00 on of the tape in the first one, its dirty map those from 0xFF10 on, and it has 64 bytes.
pub kernel_finish_lem :
    (k : Kernel)
    → let tape = (kernel_finish k).1.0 in
      let meta = (kernel_finish k).1.1 in
      (take 5 meta ≡ take 5 (drop 0xFF00 tape))
      × (take 32 (drop 5 meta) ≡ take 32 (drop 0xFF10 tape))
      × (length meta ≡ 64)
unfolding kernel_finish kernel_write_tape_snapshot kernel_write_meta_snapshot
kernel_finish_lem k =
    let k₁ = kernel_write_meta k in
    let mem = mem_read k₁.world.machine.mem in
    let head = take-drop-cells mem 0 0xFF00 5 65536 (omega arith) in
    let dirty = take-drop-cells mem 0 0xFF10 32 65536 (omega arith) in
    let end =
      u8 (bit_and (k₁.world.machine.cpu.pc >>> 8) 0xFF)
      ∷ u8 (bit_and k₁.world.machine.cpu.pc 0xFF)
      ∷ replicate 25 0 in
    let map = cells mem 0xFF10 32 in
    let size : length map ≡ 32 = length-cells mem 0xFF10 32 in
    (
      take_head k₁ (map ++ end) ∙ sym (cells-meta k) ∙ sym head,
      ap (λ t. take 32 t) (drop_head k₁ (map ++ end))
          ∙ ap (λ n. take n (map ++ end)) (sym size)
          ∙ take_append map end
          ∙ sym dirty,
      length-append (meta_head k₁) (map ++ end)
          ∙ omega (arith, length-head k₁, length-append map end, size),
    )
