-- ===== src/Bios/Files.antt =====
-- The calls of src/bios/bios.c that work on whole files by the name collected before. The loops run
-- on fuel, each round of which moves at least one byte; `load_loop` and `source_loop` also stop at
-- the end of their buffers.
pub mod Load
use turning_machine_operatin.Base.{
  ℕ, zero, suc, ◌+◌, ◌-◌, Bool, true, false, ◌&&◌, ◌||◌, not, Option, none, some, List, [], ◌∷◌,
  ◌++◌, leb, ltb, ◌==◌, if◌then◌else◌, put, length, take, drop, until_nul,
}
use turning_machine_operatin.Mem.{Tape, mem_write}
use turning_machine_operatin.Cpu.State.{Cpu, Machine}
use turning_machine_operatin.Fs.State.{Fs, fs_flush}
use turning_machine_operatin.Fs.Ops.{fs_open, fs_create, fs_close, fs_list, fs_delete, fs_exists}
use turning_machine_operatin.Fs.Transfer.{fs_read, fs_write}
use turning_machine_operatin.Bios.State.{Bios, World, with_bios, with_cpu, print, complain, text_of}

abbrev pub bios_tpa_load : ℕ
bios_tpa_load = 0x0100

abbrev pub bios_tpa_end : ℕ
bios_tpa_end = 0x3FFF

-- The name is closed with a NUL, and its length set back.
unfoldable pub close_name : World → World
close_name w =
    with_bios w (record w.bios { type_name = put w.bios.type_name w.bios.type_len 0; type_len = 0 })

-- The name that was collected, up to its NUL.
abbrev pub file_name : World → List ℕ
file_name w = text_of 256 w.bios.type_name 0

abbrev pub with_fs : World → Fs → World
with_fs w fs₁ = record w { fs = fs₁ }

-- The inner loop of `bios_runfile`. The flag says whether a byte found no room.
unfoldable pub load_bytes : List ℕ → ℕ → Tape → Bool × ℕ × Tape
load_bytes [] addr mem = (false, addr, mem)
load_bytes (b ∷ bs) addr mem =
    let rest = load_bytes bs (addr + 1) (mem_write mem addr b) in
    if ltb bios_tpa_end addr then (true, addr, mem) else rest

-- The outer loop. `true` says that the program was too long.
unfoldable pub load_loop : ℕ → ℕ → ℕ → Fs → Tape → Bool × Fs × Tape
load_loop zero fh addr fs mem = (false, fs, mem)
load_loop (suc fuel) fh addr fs mem =
    let (r, buf, fs₁) = fs_read fs fh 256 in
    let (too_long, addr₁, mem₁) = load_bytes buf addr mem in
    let later = load_loop fuel fh addr₁ fs₁ mem₁ in
    elim r [
      | none ↦ (false, fs₁, mem)
      | some n ↦ if n == 0 then (false, fs₁, mem) else if too_long then (true, fs₁, mem₁) else later
    ]

-- With the file open.
unfoldable pub run_opened : World → ℕ → World
unfolding load_loop
run_opened w fh =
    let (too_long, fs₁, mem₁) = load_loop 0x4000 fh bios_tpa_load w.fs w.machine.mem in
    let loaded = record (with_fs w (fs_close fs₁ fh)) {
      machine = record w.machine { mem = mem₁ };
    } in
    let cpu = record w.machine.cpu { pc = bios_tpa_load; halted = 0 } in
    if too_long
    then complain loaded
    else with_bios (with_cpu loaded cpu) (record w.bios { run_loaded = 1 })

unfoldable pub bios_runfile : World → World
unfolding close_name run_opened
bios_runfile w =
    let w₁ = close_name w in
    let (opened, fs₁) = fs_open w.fs (file_name w₁) in
    if w₁.bios.type_name 0 == 0
    then complain w₁
    else elim opened [ none ↦ complain (with_fs w₁ fs₁) | some fh ↦ run_opened (with_fs w₁ fs₁) fh ]

unfoldable pub bios_deletefile : World → World
unfolding close_name
bios_deletefile w =
    let w₁ = close_name w in
    let (deleted, fs₁) = fs_delete w.fs (file_name w₁) in
    if w₁.bios.type_name 0 == 0
    then complain w₁
    else if deleted
    then with_fs w₁ fs₁
    else complain (with_fs w₁ fs₁)

-- The loop of `bios_typefile`: everything that is read is printed.
unfoldable pub type_loop : ℕ → ℕ → World → World
type_loop zero fh w = w
type_loop (suc fuel) fh w =
    let (r, buf, fs₁) = fs_read w.fs fh 256 in
    let later = type_loop fuel fh (print (with_fs w fs₁) buf) in
    elim r [ none ↦ with_fs w fs₁ | some n ↦ if n == 0 then with_fs w fs₁ else later ]

unfoldable pub bios_typefile : World → World
unfolding close_name type_loop
bios_typefile w =
    let w₁ = close_name w in
    let (opened, fs₁) = fs_open w.fs (file_name w₁) in
    if w₁.bios.type_name 0 == 0 then complain w₁ else elim opened [
      | none ↦ complain (with_fs w₁ fs₁)
      | some fh ↦
          let typed = type_loop 65536 fh (with_fs w₁ fs₁) in
          print (with_fs typed (fs_close typed.fs fh)) (10 ∷ [])
    ]

-- The directory listing of the call 0x0F: at most 13 characters of each name, up to its NUL.
unfoldable pub print_names : List (List ℕ) → World → World
unfolding until_nul
print_names [] w = w
print_names (name ∷ names) w = print_names names (print w (take 13 (until_nul name) ++ (10 ∷ [])))

unfoldable pub list_directory : World → World
unfolding print_names
list_directory w =
    let (n, names, fs₁) = fs_list w.fs 64 in
    let w₁ = with_fs w fs₁ in
    elim n [
      | none ↦ complain w₁
      | some count ↦
          if count == 0
          then print w₁ (40 ∷ 101 ∷ 109 ∷ 112 ∷ 116 ∷ 121 ∷ 41 ∷ 10 ∷ [])
          else print_names names w₁
    ]
