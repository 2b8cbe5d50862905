-- ===== src/Bios/Files/Load.antt =====
-- `bios_runfile` of src/bios/bios.c: which cells of the tape loading a program can write, and that
-- its loop ends within its fuel.
use turning_machine_operatin.Base.{
  ℕ, zero, suc, ◌+◌, ◌≤◌, ◌<◌, ◌≡◌, refl, sym, ◌∙◌, Bool, true, false, Option, none, some, List, [],
  ◌∷◌, length, ltb, ◌==◌, if◌then◌else◌, arith, Bool-cases, if_intro, inl, inr, ◌⊎◌,
}
use turning_machine_operatin.Mem.{Tape, mem_read, mem_write, mem_read-mem_write}
use turning_machine_operatin.Fs.State.{Fs}
use turning_machine_operatin.Fs.Ops.{fs_open}
use turning_machine_operatin.Fs.Transfer.{fs_read}
use turning_machine_operatin.Fs.Transfer.Enough.{Delivers, fs_read-Delivers}
use turning_machine_operatin.Bios.Queue.{push_all}
use turning_machine_operatin.Bios.State.{World, complain}
use turning_machine_operatin.Bios.Files.{
  close_name, file_name, with_fs, load_bytes, load_loop, run_opened, bios_runfile,
}

-- A cell that no program is loaded to.
abbrev pub IsOutside : ℕ → Type 0
IsOutside x = (x < 0x0100) ⊎ (0x4000 ≤ x)

-- What a chunk does: it stays inside, and where it fits the address moves on by its length.
load_bytes_lem :
    (buf : List ℕ) (addr x : ℕ) (mem : Tape)
    → 0x0100 ≤ addr
    → addr ≤ 0x4000
    → IsOutside x
    → let loaded = load_bytes buf addr mem in
      (mem_read loaded.2 x ≡ mem_read mem x)
      × (addr ≤ loaded.1)
      × (loaded.1 ≤ 0x4000)
      × ((loaded.0 ≡ true) ⊎ ((loaded.0 ≡ false) × (loaded.1 ≡ addr + length buf)))
unfolding load_bytes
load_bytes_lem [] addr x mem lo hi out = (refl, omega arith, hi, inr (refl, omega arith))
load_bytes_lem (b ∷ bs) addr x mem lo hi out = elim (Bool-cases (ltb 0x3FFF addr)) [
  | inl full ↦ rw full (refl, omega arith, hi, inl refl)
  | inr room ↦
      let next_in : addr + 1 ≤ 0x4000 = ground arith in
      let later = load_bytes_lem bs (addr + 1) x (mem_write mem addr b) (omega arith) next_in out in
      let here : mem_read (mem_write mem addr b) x ≡ mem_read mem x =
        ground (arith, mem_read-mem_write mem addr b x) in
      let fits = moved_on (load_bytes bs (addr + 1) (mem_write mem addr b)) later.3 in
      rw room (later.0 ∙ here, omega (arith, later.1), later.2, fits)
]
  where
    moved_on :
        (loaded : Bool × ℕ × Tape)
        → (loaded.0 ≡ true) ⊎ ((loaded.0 ≡ false) × (loaded.1 ≡ addr + 1 + length bs))
        → (loaded.0 ≡ true) ⊎ ((loaded.0 ≡ false) × (loaded.1 ≡ addr + suc (length bs)))
    moved_on loaded (inl e) = inl e
    moved_on loaded (inr (e, p)) = inr (e, omega (arith, p))

-- What follows a read in the loop: one of three outcomes.
abbrev outcome : Option ℕ → Bool → (quiet full later : Bool × Fs × Tape) → Bool × Fs × Tape
outcome r too_long quiet full later = elim r [
  | none ↦ quiet
  | some n ↦ if n == 0 then quiet else if too_long then full else later
]

outcome_intro :
    (P : Bool × Fs × Tape → Type 0) (r : Option ℕ) (too_long : Bool)
    {quiet full later : Bool × Fs × Tape}
    → P quiet
    → P full
    → P later
    → P (outcome r too_long quiet full later)
outcome_intro P none too_long p q s = p
outcome_intro P (some n) too_long p q s = if_intro P (n == 0) p (if_intro P too_long q s)

load_loop-outside :
    (fuel fh addr x : ℕ) (fs : Fs) (mem : Tape)
    → 0x0100 ≤ addr
    → addr ≤ 0x4000
    → IsOutside x
    → mem_read (load_loop fuel fh addr fs mem).2 x ≡ mem_read mem x
unfolding load_loop
load_loop-outside zero fh addr x fs mem lo hi out = refl
load_loop-outside (suc fuel) fh addr x fs mem lo hi out =
    let got = fs_read fs fh 256 in
    let loaded = load_bytes got.1 addr mem in
    let kept = load_bytes_lem got.1 addr x mem lo hi out in
    let later =
      load_loop-outside fuel fh loaded.1 x got.2 loaded.2 (omega (arith, kept.1)) kept.2 out in
    outcome_intro (λ result. mem_read result.2 x ≡ mem_read mem x) got.0 loaded.0
      {quiet = (false, got.2, mem)} {full = (true, got.2, loaded.2)}
      {later = load_loop fuel fh loaded.1 got.2 loaded.2} refl kept.0 (later ∙ kept.0)

outcome_agree :
    (r : Option ℕ) (too_long : Bool) (quiet full later later' : Bool × Fs × Tape)
    → ((n : ℕ) → r ≡ some n → (n == 0) ≡ false → too_long ≡ false → later ≡ later')
    → outcome r too_long quiet full later ≡ outcome r too_long quiet full later'
outcome_agree none too_long quiet full later later' h = refl
outcome_agree (some n) too_long quiet full later later' h = elim (Bool-cases (n == 0)) [
  | inl at_end ↦ rw at_end refl
  | inr some_bytes ↦ elim (Bool-cases too_long) [
    | inl full ↦ rw full refl
    | inr fits ↦ rw (some_bytes, fits) (h n refl some_bytes fits)
  ]
]

true-false : ¬ (true ≡ false)
true-false h = ground arith

-- A count above zero comes with a byte.
delivered :
    (r : Option ℕ × List ℕ × Fs)
    → Delivers 256 r
    → (n : ℕ) → r.0 ≡ some n
    → (n == 0) ≡ false
    → 1 ≤ length r.1
delivered r (inl (failed, no_byte)) n count some_bytes = ground (arith, failed, count)
delivered r (inr (k, counted, few, size)) n count some_bytes = ground (arith, counted, count, size)

-- Any two fuels that cover the cells left give the same result.
load_loop_enough :
    (fuel fuel' fh addr : ℕ) (fs : Fs) (mem : Tape)
    → 0x0100 ≤ addr
    → addr ≤ 0x4000
    → 0x4000 < addr + fuel
    → 0x4000 < addr + fuel'
    → load_loop fuel fh addr fs mem ≡ load_loop fuel' fh addr fs mem
unfolding load_loop
load_loop_enough zero fuel' fh addr fs mem lo hi h g = absurd (omega arith)
load_loop_enough (suc fuel) zero fh addr fs mem lo hi h g = absurd (omega arith)
load_loop_enough (suc fuel) (suc fuel') fh addr fs mem lo hi h g =
    let got = fs_read fs fh 256 in
    let loaded = load_bytes got.1 addr mem in
    let moved = load_bytes_lem got.1 addr 0 mem lo hi (inl (omega arith)) in
    outcome_agree got.0 loaded.0 _ _ _ _ (λ n count some_bytes fits.
      let far : suc addr ≤ loaded.1 = elim moved.3 [
        | inl full ↦ absurd (true-false (sym full ∙ fits))
        | inr (e, next) ↦
            omega (arith, next, delivered got (fs_read-Delivers fs fh 256) n count some_bytes)
      ] in
      load_loop_enough fuel fuel' fh loaded.1 got.2 loaded.2 (omega arith) moved.2 (omega arith)
        (omega arith))

-- The two results of a run request: a complaint, with the processor as it was, or a processor that
-- starts at the program.
abbrev pub IsRun : World → World → Type 0
IsRun w w' =
    ((w'.machine.cpu ≡ w.machine.cpu)
      × (w'.bios.run_loaded ≡ w.bios.run_loaded)
      × (w'.bios.queue ≡ push_all w.bios.queue (63 ∷ 10 ∷ [])))
    ⊎ ((w'.machine.cpu ≡ record w.machine.cpu { pc = 0x0100; halted = 0 })
        × (w'.bios.run_loaded ≡ 1)
        × (w'.bios.queue ≡ w.bios.queue))

abbrev Runs : ℕ → World → World → Type 0
Runs x w w' =
    (mem_read w'.machine.mem x ≡ mem_read w.machine.mem x)
    × (w'.bios.type_len ≡ w.bios.type_len)
    × IsRun w w'

run_opened-Runs : (w : World) (fh x : ℕ) → IsOutside x → Runs x w (run_opened w fh)
unfolding run_opened
run_opened-Runs w fh x out =
    let loaded = load_loop 0x4000 fh 0x0100 w.fs w.machine.mem in
    let kept =
      load_loop-outside 0x4000 fh 0x0100 x w.fs w.machine.mem (omega arith) (omega arith) out in
    elim (Bool-cases loaded.0) [
      | inl too_long ↦ rw too_long (kept, refl, inl (refl, refl, refl))
      | inr fits ↦ rw fits (kept, refl, inr (refl, refl, refl))
    ]

opened-Runs :
    (w : World) (fs₁ : Fs) (opened : Option ℕ) (x : ℕ)
    → IsOutside x
    → let w' : World = elim opened [
      | none ↦ complain (with_fs w fs₁)
      | some fh ↦ run_opened (with_fs w fs₁) fh
    ] in
      Runs x w w'
opened-Runs w fs₁ none x out = (refl, refl, inl (refl, refl, refl))
opened-Runs w fs₁ (some fh) x out = run_opened-Runs (with_fs w fs₁) fh x out

-- A run request writes no cell of the tape outside 0x0100 to 0x3FFF, empties the name, and either
-- prints a complaint and leaves the processor and the flag as they were, or starts the processor at
-- 0x0100 and raises the flag. Its loop ends: any fuel above 0x3F00 gives what its own fuel gives.
pub bios_runfile_lem :
    (w : World) (x fuel fh : ℕ) (fs : Fs) (mem : Tape)
    → IsOutside x
    → 0x3F00 < fuel
    → let w' = bios_runfile w in
      (mem_read w'.machine.mem x ≡ mem_read w.machine.mem x)
      × (w'.bios.type_len ≡ 0)
      × IsRun w w'
      × (load_loop fuel fh 0x0100 fs mem ≡ load_loop 0x4000 fh 0x0100 fs mem)
unfolding bios_runfile close_name
bios_runfile_lem w x fuel fh fs mem out enough =
    let w₁ = close_name w in
    let opened = fs_open w.fs (file_name w₁) in
    let ran =
      if_intro (Runs x w₁) (w₁.bios.type_name 0 == 0) {x = complain w₁}
        (refl, refl, inl (refl, refl, refl)) (opened-Runs w₁ opened.1 opened.0 x out) in
    (
      ran.0,
      ran.1,
      ran.2,
      load_loop_enough fuel 0x4000 fh 0x0100 fs mem (omega arith) (omega arith) (omega arith)
          (omega arith),
    )
