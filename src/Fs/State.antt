-- ===== src/Fs/State.antt =====
-- The state of src/fs/fs.c, its directory cache and its sector transfers.
pub mod Allocation
pub mod Sectors
use turning_machine_operatin.Base.{
  ℕ, zero, suc, ◌+◌, ◌-◌, ◌*◌, ◌/◌, ◌%◌, ◌^◌, Bool, true, false, ◌&&◌, ◌||◌, not, Option, none,
  some, List, [], ◌∷◌, leb, ltb, ◌==◌, if◌then◌else◌, put, fill, cells, overlay, length, u8, u16,
  first_from, same_bytes,
}
use turning_machine_operatin.Fs.Host.{File, fseek_set, fread, fwrite, fflush}
use turning_machine_operatin.Fs.Geometry.{
  fs_tracks, fs_sectors_per_track, fs_bytes_per_sector, fs_dir_entry_size, fs_dir_entries,
  fs_dir_bytes, fs_open_max, fs_sector_offset, fs_linear_to_track_sector,
}

-- The static variables of the file. `disk_fp` is `none` for the null pointer.
pub record Fs : Type 0 where
  pub disk_fp : Option File
  pub dir_raw : ℕ → ℕ
  pub dir_active : ℕ → ℕ
  pub open_dir_index : ℕ → ℕ
  pub open_in_use : ℕ → ℕ
  pub open_pos : ℕ → ℕ
  pub dirty : ℕ

unfoldable pub fs_reset_open_table : Fs → Fs
fs_reset_open_table fs = record fs {
  open_dir_index = fill fs.open_dir_index 0 fs_open_max 0;
  open_in_use = fill fs.open_in_use 0 fs_open_max 0;
  open_pos = fill fs.open_pos 0 fs_open_max 0;
}

-- `g_dir_active[i]` for every entry, from its status byte.
unfoldable pub active_flags : (ℕ → ℕ) → (ℕ → ℕ) → ℕ → ℕ
active_flags raw active = λ i.
    if ltb i fs_dir_entries then (if raw (i * fs_dir_entry_size) == 0 then 1 else 0) else active i

-- `true` is the return value 0. A short read leaves what it read in `g_dir_raw`.
unfoldable pub fs_refresh_directory : Fs → Bool × Fs
unfolding active_flags
fs_refresh_directory fs = elim fs.disk_fp [
  | none ↦ (false, fs)
  | some fp ↦
      let (sought, fp₁) = fseek_set fp 0 in
      let (got, fp₂) = fread fp₁ fs_dir_bytes in
      let raw = overlay fs.dir_raw 0 got in
      if sought
      then (if length got == fs_dir_bytes
          then (
            true,
            record fs {
              disk_fp = some fp₂;
              dir_raw = raw;
              dir_active = active_flags raw fs.dir_active;
            },
          )
          else (false, record fs { disk_fp = some fp₂; dir_raw = raw }))
      else (false, record fs { disk_fp = some fp₁ })
]

unfoldable pub fs_persist_directory_entry : Fs → ℕ → Bool × Fs
fs_persist_directory_entry fs dir_index = elim fs.disk_fp [
  | none ↦ (false, fs)
  | some fp ↦
      let offset = dir_index * fs_dir_entry_size in
      let (sought, fp₁) = fseek_set fp offset in
      let (count, fp₂) = fwrite fp₁ (cells fs.dir_raw offset fs_dir_entry_size) in
      if leb fs_dir_entries dir_index
      then (false, fs)
      else if sought
      then (if count == fs_dir_entry_size
          then (true, record fs { disk_fp = some fp₂; dirty = 1 })
          else (false, record fs { disk_fp = some fp₂ }))
      else (false, record fs { disk_fp = some fp₁ })
]

-- Does entry `i` hold the sector in one of its sixteen allocation bytes?
unfoldable pub entry_uses : Fs → ℕ → ℕ → Bool
entry_uses fs linear_sector i =
    let alloc = λ (j : ℕ). fs.dir_raw (i * fs_dir_entry_size + (16 + j)) in
    elim (first_from (λ j. not (alloc j == 0) && u16 (alloc j + 65536 - 1) == linear_sector) 16 0) [
      | none ↦ false
      | some j ↦ true
    ]

unfoldable pub fs_sector_in_use : Fs → ℕ → Bool
unfolding entry_uses
fs_sector_in_use fs linear_sector =
    elim (first_from (λ i. not (fs.dir_active i == 0) && entry_uses fs linear_sector i)
      fs_dir_entries 0) [ none ↦ false | some i ↦ true ]

-- `fs_sector_in_use(linear) == 0`
unfoldable pub is_free : Fs → ℕ → Bool
is_free fs linear = not (fs_sector_in_use fs linear)

-- The first free sector from 8 up to 2001.
unfoldable pub fs_alloc_free_sector : Fs → Option (ℕ × ℕ)
fs_alloc_free_sector fs = elim (first_from (is_free fs) 1994 8) [
  | none ↦ none
  | some linear ↦ fs_linear_to_track_sector linear
]

unfoldable pub fs_find_dir_index_by_cpm_name : Fs → List ℕ → Option ℕ
fs_find_dir_index_by_cpm_name fs cpm_name =
    first_from
      (λ i.
        not (fs.dir_active i == 0)
        && same_bytes (cells fs.dir_raw (i * fs_dir_entry_size + 1) 11) cpm_name)
      fs_dir_entries 0

-- Is a track and sector pair off the disk?
abbrev off_disk : ℕ → ℕ → Bool
off_disk track sector = leb fs_tracks track || (sector == 0 || ltb fs_sectors_per_track sector)

-- The flag says whether the return value is 0; the list is what the call put into `buf`.
unfoldable pub fs_read_sector : Fs → ℕ → ℕ → Bool × List ℕ × Fs
fs_read_sector fs track sector = elim fs.disk_fp [
  | none ↦ (false, [], fs)
  | some fp ↦
      let (sought, fp₁) = fseek_set fp (fs_sector_offset track sector) in
      let (got, fp₂) = fread fp₁ fs_bytes_per_sector in
      if off_disk track sector
      then (false, [], fs)
      else if sought
      then (length got == fs_bytes_per_sector, got, record fs { disk_fp = some fp₂ })
      else (false, [], record fs { disk_fp = some fp₁ })
]

unfoldable pub fs_write_sector : Fs → ℕ → ℕ → List ℕ → Bool × Fs
fs_write_sector fs track sector buf = elim fs.disk_fp [
  | none ↦ (false, fs)
  | some fp ↦
      let (sought, fp₁) = fseek_set fp (fs_sector_offset track sector) in
      let (count, fp₂) = fwrite fp₁ buf in
      if off_disk track sector
      then (false, fs)
      else if sought
      then (if count == fs_bytes_per_sector
          then (true, record fs { disk_fp = some fp₂; dirty = 1 })
          else (false, record fs { disk_fp = some fp₂ }))
      else (false, record fs { disk_fp = some fp₁ })
]

unfoldable pub fs_flush : Fs → Fs
fs_flush fs = elim fs.disk_fp [
  | none ↦ fs
  | some fp ↦
      let (flushed, fp₁) = fflush fp in
      if fs.dirty == 0
      then fs
      else if flushed
      then record fs { disk_fp = some fp₁; dirty = 0 }
      else record fs { disk_fp = some fp₁ }
]
