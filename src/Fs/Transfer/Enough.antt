-- ===== src/Fs/Transfer/Enough.antt =====
-- The loop of `fs_read` ends within its fuel and never moves more than was asked for, whatever the
-- directory holds and whichever calls of the C library fail.
use turning_machine_operatin.Base.{
  ℕ, zero, suc, ◌+◌, ◌-◌, ◌*◌, ◌/◌, ◌%◌, ◌≤◌, ◌<◌, ◌≡◌, refl, ap, ◌∙◌, true, false, ◌&&◌, ◌||◌, not,
  Option, none, some, List, [], ◌∷◌, length, length-append, take, drop, ◌==◌, ==_iff, ltb, leb,
  if_intro, Bool-cases, inl, inr, ◌⊎◌, u8, u16, arith,
}
use Prim.Native.Nat.{min}
use turning_machine_operatin.Fs.Geometry.{fs_linear_to_track_sector}
use turning_machine_operatin.Fs.State.{Fs, fs_read_sector, fs_refresh_directory}
use turning_machine_operatin.Fs.Transfer.{
  Transfer, Round, again, stop, read_sector_part, read_round, read_loop, finish_read, fs_read,
}

length-take-drop : (n k : ℕ) (xs : List ℕ) → k + n ≤ length xs → length (take n (drop k xs)) ≡ n
length-take-drop zero k xs h = refl
length-take-drop (suc n) zero [] h = absurd (omega arith)
length-take-drop (suc n) zero (x ∷ xs) h = ap suc (length-take-drop n zero xs (omega arith))
length-take-drop (suc n) (suc k) [] h = absurd (omega arith)
length-take-drop (suc n) (suc k) (x ∷ xs) h = length-take-drop (suc n) k xs (omega arith)

-- A sector read without an error is a whole one.
length-fs_read_sector :
    (fs : Fs) (track sector : ℕ)
    → (fs_read_sector fs track sector).0 ≡ true
    → length (fs_read_sector fs track sector).1 ≡ 256
unfolding fs_read_sector
length-fs_read_sector fs track sector h = ground arith

-- What a round does to the count and the bytes.
abbrev Moves : ℕ → Transfer → Round → Type 0
Moves len t (again t') =
    (t.total < t'.total)
    × (t'.total ≤ len)
    × (length t'.bytes + t.total ≡ length t.bytes + t'.total)
Moves len t (stop t') = (t'.total ≡ t.total) × (t'.bytes ≡ t.bytes)

read_sector_part-Moves :
    (t : Transfer) (len size in_sector track sector : ℕ)
    → t.total < len
    → t.pos < size
    → in_sector < 256
    → Moves len t (read_sector_part t len size in_sector track sector)
unfolding read_sector_part
read_sector_part-Moves t len size in_sector track sector h g i =
    let chunk = min (min (len - t.total) (size - t.pos)) (256 - in_sector) in
    let got = (fs_read_sector t.fs track sector).1 in
    elim (Bool-cases (fs_read_sector t.fs track sector).0) [
      | inl ok ↦ rw ok (
        omega arith,
        omega arith,
        omega (
          arith,
          length-append {0} t.bytes (take chunk (drop in_sector got)),
          length-take-drop chunk in_sector got
              (omega (arith, length-fs_read_sector t.fs track sector ok)),
        ),
      )
      | inr bad ↦ rw bad (refl, refl)
    ]

module _ (len size : ℕ) where
  place-Moves :
      (t : Transfer) (in_sector : ℕ) (place : Option (ℕ × ℕ))
      → t.total < len
      → t.pos < size
      → in_sector < 256
      → Moves len t (elim place [
        | none ↦ stop t
        | some (track, sector) ↦ read_sector_part t len size in_sector track sector
      ])
  place-Moves t in_sector none h g i = (refl, refl)
  place-Moves t in_sector (some (track, sector)) h g i =
      read_sector_part-Moves t len size in_sector track sector h g i

  read_round-Moves :
      (t : Transfer) (entry : ℕ)
      → t.total < len
      → t.pos < size
      → Moves len t (read_round t entry len size)
  unfolding read_round
  read_round-Moves t entry h g =
      let slot = u8 (t.pos / 256) in
      let in_sector = u8 (t.pos % 256) in
      let alloc = t.fs.dir_raw (entry + (16 + slot)) in
      let place = fs_linear_to_track_sector (u16 (alloc + 65536 - 1)) in
      if_intro (Moves len t) (leb 16 slot || alloc == 0) {x = stop t} (refl, refl)
        (place-Moves t in_sector place h g (omega arith))

  test_cases :
      (t : Transfer)
      → (((ltb t.total len && ltb t.pos size) ≡ true) × (t.total < len) × (t.pos < size))
        ⊎ ((ltb t.total len && ltb t.pos size) ≡ false)
  test_cases t = ground arith

  -- What the loop has done when it stops.
  abbrev Bounded : Transfer → Transfer → Type 0
  Bounded t t' = (t'.total ≤ len) × (length t'.bytes + t.total ≡ length t.bytes + t'.total)

  read_loop-Bounded :
      (fuel entry : ℕ) (t : Transfer) → t.total ≤ len → Bounded t (read_loop fuel entry len size t)
  unfolding read_loop
  read_loop-Bounded zero entry t h = (h, refl)
  read_loop-Bounded (suc fuel) entry t h = elim (test_cases t) [
    | inr e ↦ rw e (h, refl)
    | inl (e, p, q) ↦ rw e (
        after (read_round t entry len size) (read_round-Moves t entry p q)
          (λ t' m. read_loop-Bounded fuel entry t' m))
  ]
    where
      after :
          (r : Round)
          → Moves len t r
          → ((t' : Transfer) → t'.total ≤ len → Bounded t' (read_loop fuel entry len size t'))
          → Bounded t (elim r [ stop t' ↦ t' | again t' ↦ read_loop fuel entry len size t' ])
      after (stop t') m ih = omega (arith, m.0, h, ap (λ (l : List ℕ). length l) m.1)
      after (again t') m ih = omega (arith, m, ih t' m.1)

  -- Any two fuels that cover the bytes left give the same result.
  read_loop_enough :
      (fuel fuel' entry : ℕ) (t : Transfer)
      → len ≤ t.total + fuel
      → len ≤ t.total + fuel'
      → read_loop fuel entry len size t ≡ read_loop fuel' entry len size t
  unfolding read_loop
  read_loop_enough zero zero entry t h g = refl
  read_loop_enough zero (suc fuel') entry t h g = elim (test_cases t) [
    | inr e ↦ rw e refl
    | inl (e, p, q) ↦ absurd (omega arith)
  ]
  read_loop_enough (suc fuel) zero entry t h g = elim (test_cases t) [
    | inr e ↦ rw e refl
    | inl (e, p, q) ↦ absurd (omega arith)
  ]
  read_loop_enough (suc fuel) (suc fuel') entry t h g = elim (test_cases t) [
    | inr e ↦ rw e refl
    | inl (e, p, q) ↦ rw e (
        after (read_round t entry len size) (read_round-Moves t entry p q)
          (λ t' m n. read_loop_enough fuel fuel' entry t' m n))
  ]
    where
      after :
          (r : Round)
          → Moves len t r
          → ((t' : Transfer)
              → len ≤ t'.total + fuel
              → len ≤ t'.total + fuel'
              → read_loop fuel entry len size t' ≡ read_loop fuel' entry len size t')
          → ◌≡◌ {A = Transfer}
              (elim r [ stop t' ↦ t' | again t' ↦ read_loop fuel entry len size t' ])
              (elim r [ stop t' ↦ t' | again t' ↦ read_loop fuel' entry len size t' ])
      after (stop t') m ih = refl
      after (again t') m ih = ih t' (omega (arith, m)) (omega (arith, m))

-- A result of `fs_read`: -1 and no byte, or a count of at most `len` and as many bytes.
abbrev pub Delivers : ℕ → Option ℕ × List ℕ × Fs → Type 0
Delivers len r =
    ((r.0 ≡ none) × (r.1 ≡ [])) ⊎ ((n : ℕ) × (r.0 ≡ some n) × (n ≤ len) × (length r.1 ≡ n))

no_bytes : (xs : List ℕ) → length xs ≡ 0 → xs ≡ []
no_bytes [] h = refl
no_bytes (x ∷ xs) h = absurd (omega arith)

finish_read-Delivers :
    (fh len : ℕ) (t : Transfer)
    → t.total ≤ len
    → length t.bytes ≡ t.total
    → Delivers len (finish_read fh t)
unfolding finish_read
finish_read-Delivers fh len t h e = elim (Bool-cases t.failed) [
  | inr works ↦ rw works (inr (t.total, refl, h, e))
  | inl failed ↦ elim (Bool-cases (t.total == 0)) [
    | inl zero_total ↦
        rw (failed, zero_total) (inl (refl, no_bytes t.bytes (e ∙ (==_iff t.total 0).0 zero_total)))
    | inr moved_some ↦ rw (failed, moved_some) (inr (t.total, refl, h, e))
  ]
]

-- The bytes that a read puts into the buffer are as many as it returns, and no more than were
-- asked for; where it returns -1 there are none. This holds whatever the directory says and
-- whichever calls of the C library fail.
pub fs_read-Delivers : (fs : Fs) (fh len : ℕ) → Delivers len (fs_read fs fh len)
unfolding fs_read
fs_read-Delivers fs fh len =
    let fs₁ = (fs_refresh_directory fs).1 in
    let entry = fs₁.open_dir_index fh * 32 in
    let size = u16 (fs₁.dir_raw (entry + 15) * 256) in
    let start : Transfer = record {
      total = 0;
      pos = fs₁.open_pos fh;
      bytes = [];
      failed = false;
      fs = fs₁;
    } in
    let moved = read_loop-Bounded len size len entry start (omega arith) in
    let P = Delivers len in
    if_intro P (leb 16 fh) {x = (none, [], fs)} (inl (refl, refl)) (
      if_intro P (fs.open_in_use fh == 0) {x = (none, [], fs)} (inl (refl, refl)) (
        if_intro P (len == 0) {x = (some 0, [], fs)} (inr (0, refl, omega arith, refl)) (
          if_intro P (not (fs_refresh_directory fs).0) {x = (none, [], fs₁)} (inl (refl, refl)) (
            if_intro P (leb size (fs₁.open_pos fh)) {x = (some 0, [], fs₁)}
              (inr (0, refl, omega arith, refl))
              (finish_read-Delivers fh len (read_loop len entry len size start) moved.0
                (omega (arith, moved.1)))))))
