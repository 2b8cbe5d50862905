-- ===== src/Fs/Geometry.antt =====
-- The geometry of the disk in src/fs/fs.c: tracks and sectors, linear sector numbers, and offsets
-- into the image.
use native.Mathlib.Decide.{dec_lt}
use turning_machine_operatin.Base.{
  ℕ, ◌+◌, ◌-◌, ◌*◌, ◌/◌, ◌%◌, ◌^◌, ◌≤◌, ◌<◌, ◌≡◌, ◌⊎◌, inl, inr, Option, none, some, leb,
  if◌then◌else◌, arith, u8, u16, u64,
}

abbrev pub fs_tracks : ℕ
fs_tracks = 77

abbrev pub fs_sectors_per_track : ℕ
fs_sectors_per_track = 26

abbrev pub fs_bytes_per_sector : ℕ
fs_bytes_per_sector = 256

abbrev pub fs_total_bytes : ℕ
fs_total_bytes = fs_tracks * fs_sectors_per_track * fs_bytes_per_sector

abbrev pub fs_dir_entry_size : ℕ
fs_dir_entry_size = 32

abbrev pub fs_dir_entries : ℕ
fs_dir_entries = 64

abbrev pub fs_dir_bytes : ℕ
fs_dir_bytes = fs_dir_entry_size * fs_dir_entries

abbrev pub fs_open_max : ℕ
fs_open_max = 16

-- In `unsigned long`, of 64 bits.
unfoldable pub fs_sector_offset : ℕ → ℕ → ℕ
fs_sector_offset track sector =
    let linear_sector = u64 (track * fs_sectors_per_track + u64 (sector + 2 ^ 64 - 1)) in
    u64 (linear_sector * fs_bytes_per_sector)

-- `none` is the return value -1.
unfoldable pub fs_linear_to_track_sector : ℕ → Option (ℕ × ℕ)
fs_linear_to_track_sector linear =
    if leb (u16 (fs_tracks * fs_sectors_per_track)) linear
    then none
    else some (u8 (linear / fs_sectors_per_track), u8 (linear % fs_sectors_per_track + 1))

unfoldable pub fs_track_sector_to_linear : ℕ → ℕ → ℕ
fs_track_sector_to_linear track sector =
    u16 (track * fs_sectors_per_track + u16 (sector + 65536 - 1))

-- A track and a sector that are on the disk.
abbrev pub IsOnDisk : ℕ → ℕ → Type 0
IsOnDisk track sector = (track < fs_tracks) × (1 ≤ sector) × (sector ≤ fs_sectors_per_track)

-- A linear sector number below 2002 becomes a track and a sector of the disk, which stand for it;
-- any other is refused.
pub linear_to_track_sector_lem :
    (linear : ℕ)
    → ((linear < 2002)
        × ((track : ℕ) × (sector : ℕ) × (fs_linear_to_track_sector linear ≡ some (track, sector))
            × IsOnDisk track sector
            × (fs_track_sector_to_linear track sector ≡ linear)))
      ⊎ ((2002 ≤ linear) × (fs_linear_to_track_sector linear ≡ none))
unfolding fs_linear_to_track_sector fs_track_sector_to_linear
linear_to_track_sector_lem linear = elim (dec_lt linear 2002) [
  | yes h ↦
      inl (h, (linear / 26 % 256, (linear % 26 + 1) % 256, ground arith, omega arith, omega arith))
  | no h ↦ inr (omega arith, ground arith)
]

-- The offset of a sector of the disk.
pub fs_sector_offset_lem :
    (track sector : ℕ)
    → IsOnDisk track sector
    → fs_sector_offset track sector ≡ (track * 26 + (sector - 1)) * 256
unfolding fs_sector_offset
fs_sector_offset_lem track sector h = omega arith

-- The bytes of a sector lie inside the image, and two sectors that share a byte are one.
pub sector_offset_lem :
    (t s t' s' x : ℕ)
    → IsOnDisk t s
    → IsOnDisk t' s'
    → fs_sector_offset t s ≤ x
    → x < fs_sector_offset t s + fs_bytes_per_sector
    → fs_sector_offset t' s' ≤ x
    → x < fs_sector_offset t' s' + fs_bytes_per_sector
    → (x < fs_total_bytes) × (t ≡ t') × (s ≡ s')
sector_offset_lem t s t' s' x h g p q p' q' =
    omega (arith, fs_sector_offset_lem t s h, fs_sector_offset_lem t' s' g)
