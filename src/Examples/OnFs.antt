-- ===== src/Examples/OnFs.antt =====
-- The file system at concrete states: a blank disk, and the theorems on it.
use turning_machine_operatin.Base.{
  ℕ, ◌≤◌, ◌<◌, ◌≡◌, ◌⊎◌, refl, true, none, some, List, [], ◌∷◌, replicate, if◌then◌else◌, ltb,
  arith,
}
use turning_machine_operatin.Base.{cells, first_from, overlay, fill, put, same_bytes}
use turning_machine_operatin.Fs.Names.{
  fs_build_cpm_name, build_base, build_extension, isalnum, toupper,
}
use turning_machine_operatin.Fs.Host.{
  File, fseek_set, fseek_end, ftell, fread, fwrite, moved, next_fault,
}
use turning_machine_operatin.Fs.Geometry.{
  fs_total_bytes, fs_sector_offset, fs_linear_to_track_sector, fs_track_sector_to_linear, IsOnDisk,
  linear_to_track_sector_lem,
}
use turning_machine_operatin.Fs.State.{
  fs_reset_open_table, fs_refresh_directory, fs_find_dir_index_by_cpm_name,
  fs_persist_directory_entry, active_flags, entry_uses, is_free, Fs, fs_read_sector,
  fs_write_sector, fs_alloc_free_sector, fs_sector_in_use,
}
use turning_machine_operatin.Fs.State.Allocation.{
  marked, marked_lem, IsAllocated, fs_alloc_free_sector_lem,
}
use turning_machine_operatin.Fs.State.Sectors.{IsReady, read-write_sector}
use turning_machine_operatin.Fs.Ops.{
  create_missing, is_total, create_entry, take_handle, open_found, fs_init, fs_create, fs_open,
}
use turning_machine_operatin.Mkdisk.{make_disk}
use turning_machine_operatin.Mkdisk.Image.{Given}
use turning_machine_operatin.Mkdisk.Mounted.{Mounts, make_disk-Mounts}
use turning_machine_operatin.Fs.Transfer.{
  fs_read, fs_write, finish_read, finish_write, read_loop, read_round, read_sector_part, write_loop,
  write_new_sector, write_old_sector, write_round, write_sector_part,
}
use turning_machine_operatin.Fs.Transfer.Enough.{Delivers, fs_read-Delivers}

-- A disk whose directory entries are all unused, and whose sectors hold the number 7.
abbrev blank_file : File
blank_file = record {
  bytes = λ a. if ltb a 2048 then 0xE5 else 7;
  size = fs_total_bytes;
  pos = 0;
  faults = [];
}

abbrev pub blank : Fs
blank = record {
  disk_fp = some blank_file;
  dir_raw = λ a. 0xE5;
  dir_active = λ i. 0;
  open_dir_index = λ h. 0;
  open_in_use = λ h. 0;
  open_pos = λ h. 0;
  dirty = 0;
}

blank-IsReady : IsReady blank blank_file
blank-IsReady = record { open_disk = refl; whole = refl; works = refl }

-- "A.TXT" on the blank disk: created, written, closed by opening it again, and read back.
abbrev name : List ℕ
name = 65 ∷ 46 ∷ 84 ∷ 88 ∷ 84 ∷ []

abbrev started : Fs
started = (fs_init blank (some blank_file)).1

abbrev created : Fs
created = (fs_create started name).1

abbrev written : Fs
written = (fs_write created 0 (1 ∷ 2 ∷ 3 ∷ [])).1

abbrev reopened : Fs
reopened = (fs_open written name).1

abbrev nines : List ℕ
nines = replicate 256 9

read-write_sector_example :
    let w = fs_write_sector blank 3 26 nines in
    let back = fs_read_sector w.1 3 26 in
    let other = fs_read_sector w.1 4 1 in
    (w.0 ≡ true)
    × (back.0 ≡ true)
    × (back.1 ≡ nines)
    × (other.0 ≡ true)
    × (other.1 ≡ (fs_read_sector blank 4 1).1)
read-write_sector_example =
    read-write_sector blank blank_file 3 26 4 1 nines blank-IsReady (omega arith) (omega arith)
      (omega arith) refl

fs_read-Delivers_example : Delivers 3 (fs_read blank 0 3)
fs_read-Delivers_example = fs_read-Delivers blank 0 3

fs_alloc_free_sector_lem_example :
    ((fs_alloc_free_sector blank ≡ none)
      × ((k : ℕ) → 8 ≤ k → k < 2002 → fs_sector_in_use blank k ≡ true))
    ⊎ ((linear : ℕ) × ((track : ℕ) × ((sector : ℕ) × IsAllocated blank linear track sector)))
fs_alloc_free_sector_lem_example = fs_alloc_free_sector_lem blank

linear_to_track_sector_lem_example :
    ((100 < 2002)
      × ((track : ℕ) × (sector : ℕ) × (fs_linear_to_track_sector 100 ≡ some (track, sector))
          × IsOnDisk track sector
          × (fs_track_sector_to_linear track sector ≡ 100)))
    ⊎ ((2002 ≤ 100) × (fs_linear_to_track_sector 100 ≡ none))
linear_to_track_sector_lem_example = linear_to_track_sector_lem 100

on_disk : IsOnDisk 3 26
on_disk = omega arith

-- The bytes written come back through a new handle, with the zeros that fill the sector.
read_back : (fs_read reopened 1 5).1 ≡ (1 ∷ 2 ∷ 3 ∷ 0 ∷ 0 ∷ [])
unfolding fs_read fs_open fs_write fs_create fs_init is_total fs_build_cpm_name ftell fseek_end
    fseek_set fs_refresh_directory fs_reset_open_table fread cells create_missing
    fs_find_dir_index_by_cpm_name first_from overlay create_entry fs_persist_directory_entry fwrite
    take_handle fill put same_bytes fs_linear_to_track_sector fs_sector_offset
    fs_track_sector_to_linear moved next_fault build_base build_extension isalnum toupper open_found
    active_flags entry_uses fs_alloc_free_sector fs_read_sector fs_sector_in_use fs_write_sector
    is_free finish_read finish_write read_loop read_round read_sector_part write_loop
    write_new_sector write_old_sector write_round write_sector_part
read_back = refl

abbrev full_directory : Fs
full_directory = record blank { dir_active = λ i. 1; dir_raw = λ a. 0 }

marked_lem_example :
    let last : ℕ = 255 in
    ((last < 255) × (fs_sector_in_use (marked full_directory 2 3 255) 255 ≡ true))
    ⊎ ((last ≡ 255)
        × (fs_alloc_free_sector (marked full_directory 2 3 255)
            ≡ fs_alloc_free_sector full_directory))
marked_lem_example =
    marked_lem full_directory 2 3 255 (omega arith) (omega arith) (omega arith) refl refl

abbrev new_file : File
new_file = record { bytes = λ a. 0; size = 0; pos = 0; faults = [] }

make_disk-Mounts_example : Given (Mounts blank 8 512511) (make_disk (some new_file))
make_disk-Mounts_example =
    make_disk-Mounts new_file blank 8 512511 refl refl refl (omega arith) (omega arith)
