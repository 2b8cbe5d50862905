-- ===== src/Fs/State/Allocation.antt =====
-- Which sector `fs_alloc_free_sector` picks, and what its byte in a directory entry stands for.
use native.Mathlib.Decide.{dec_lt}
use turning_machine_operatin.Base.{
  ℕ, ◌+◌, ◌-◌, ◌≤◌, ◌<◌, ◌≡◌, ◌⊎◌, inl, inr, refl, Bool, true, false, not, none, some, Option-cases,
  first_from, first_from-some, first_from-none, arith, u8, u16, put, fun_ext, ap, ◌*◌, ◌==◌, ◌&&◌,
}
use turning_machine_operatin.Fs.Geometry.{
  fs_track_sector_to_linear, IsOnDisk, linear_to_track_sector_lem,
}
use turning_machine_operatin.Fs.State.{
  entry_uses, Fs, fs_sector_in_use, is_free, fs_alloc_free_sector,
}

-- The first free sector at 8 or after it.
pub record IsFirstFree (fs : Fs) (linear : ℕ) : Type 0 where
  pub past_directory : 8 ≤ linear
  pub on_disk : linear < 2002
  pub free : fs_sector_in_use fs linear ≡ false
  pub first : (k : ℕ) → 8 ≤ k → k < linear → fs_sector_in_use fs k ≡ true

not-false : {b : Bool} → not b ≡ false → b ≡ true
not-false h = ground arith

not-true : {b : Bool} → not b ≡ true → b ≡ false
not-true h = ground arith

-- The number under which a track and a sector were allocated.
abbrev pub IsAllocated : Fs → ℕ → ℕ → ℕ → Type 0
IsAllocated fs linear track sector =
    (fs_alloc_free_sector fs ≡ some (track, sector))
    × IsFirstFree fs linear
    × IsOnDisk track sector
    × (fs_track_sector_to_linear track sector ≡ linear)

located :
    (fs : Fs) (linear : ℕ)
    → first_from (is_free fs) 1994 8 ≡ some linear
    → (track : ℕ) × ((sector : ℕ) × IsAllocated fs linear track sector)
unfolding fs_alloc_free_sector is_free
located fs linear found =
    let at_first = first_from-some (is_free fs) 1994 8 linear found in
    let first : IsFirstFree fs linear = record {
      past_directory = at_first.0;
      on_disk = omega (arith, at_first.1);
      free = not-true at_first.2;
      first = λ k p q. not-false (at_first.3 k p q);
    } in
    elim (linear_to_track_sector_lem linear) [
      | inl (h, (track, sector, place, on_disk, back)) ↦
          (track, (sector, (rw (found, fs_alloc_free_sector) place, first, on_disk, back)))
      | inr (h, e) ↦ absurd (omega (arith, first.on_disk))
    ]

-- A sector is allocated exactly when one is free: it is the first free one from sector 8 on, so
-- never one of the directory, and the track and the sector returned are those of its number.
pub fs_alloc_free_sector_lem :
    (fs : Fs)
    → ((fs_alloc_free_sector fs ≡ none)
        × ((k : ℕ) → 8 ≤ k → k < 2002 → fs_sector_in_use fs k ≡ true))
      ⊎ ((linear : ℕ) × ((track : ℕ) × ((sector : ℕ) × IsAllocated fs linear track sector)))
unfolding fs_alloc_free_sector is_free
fs_alloc_free_sector_lem fs = elim (Option-cases (first_from (is_free fs) 1994 8)) [
  | inl full ↦ inl (
    rw (full, fs_alloc_free_sector) refl,
    λ k p q. not-false (first_from-none (is_free fs) 1994 8 k full p (omega arith)),
  )
  | inr (linear, found) ↦ inr (linear, located fs linear found)
]

-- The state after `fs_write` has put a sector's number into cell `j` of entry `i`.
abbrev pub marked : Fs → ℕ → ℕ → ℕ → Fs
marked fs i j linear = record fs { dir_raw = put fs.dir_raw (i * 32 + (16 + j)) (u8 (linear + 1)) }

marked-entry_uses :
    (fs : Fs) (i j linear : ℕ)
    → j < 16
    → linear < 255
    → entry_uses (marked fs i j linear) linear i ≡ true
unfolding entry_uses put
marked-entry_uses fs i j linear hj small =
    let holds = λ (k : ℕ).
      let alloc = (marked fs i j linear).dir_raw (i * 32 + (16 + k)) in
      not (alloc == 0) && u16 (alloc + 65536 - 1) == linear in
    elim (Option-cases (first_from holds 16 0)) [
      | inl missing ↦
          let fails = first_from-none holds 16 0 j missing (omega arith) (omega arith) in
          ground arith
      | inr (k, found) ↦ rw (found, entry_uses) refl
    ]

marked-in_use :
    (fs : Fs) (i j linear : ℕ)
    → i < 64
    → j < 16
    → fs.dir_active i ≡ 1
    → linear < 255
    → fs_sector_in_use (marked fs i j linear) linear ≡ true
unfolding fs_sector_in_use
marked-in_use fs i j linear hi hj active small =
    let uses =
      λ (k : ℕ). not (fs.dir_active k == 0) && entry_uses (marked fs i j linear) linear k in
    let here = marked-entry_uses fs i j linear hj small in
    elim (Option-cases (first_from uses 64 0)) [
      | inl missing ↦
          let fails = first_from-none uses 64 0 i missing (omega arith) (omega arith) in
          ground (arith, fails, here)
      | inr (k, found) ↦ rw (found, fs_sector_in_use) refl
    ]

-- Into an empty allocation cell of an active entry the byte of a sector is stored. A sector below
-- 255 counts as used from then on. The byte of sector 255 is zero, so that nothing changes, and the
-- next allocation gives out the same sector as before.
pub marked_lem :
    (fs : Fs) (i j linear : ℕ)
    → i < 64
    → j < 16
    → linear ≤ 255
    → fs.dir_active i ≡ 1
    → fs.dir_raw (i * 32 + (16 + j)) ≡ 0
    → ((linear < 255) × (fs_sector_in_use (marked fs i j linear) linear ≡ true))
      ⊎ ((linear ≡ 255) × (fs_alloc_free_sector (marked fs i j linear) ≡ fs_alloc_free_sector fs))
unfolding put
marked_lem fs i j linear hi hj small active empty = elim (dec_lt linear 255) [
  | yes below ↦ inl (below, marked-in_use fs i j linear hi hj active below)
  | no above ↦
      let last : linear ≡ 255 = omega arith in
      let same : (marked fs i j linear).dir_raw ≡ fs.dir_raw = fun_ext (λ x. ground arith) in
      inr (last, ap (λ (raw : ℕ → ℕ). fs_alloc_free_sector (record fs { dir_raw = raw })) same)
]
