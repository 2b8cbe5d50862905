-- ===== src/Fs/Ops/Opening.antt =====
-- What `fs_open` of src/fs/fs.c does on each of its ways out, whatever the C library's calls do.
use turning_machine_operatin.Base.{
  ℕ, ◌+◌, ◌*◌, ◌<◌, ◌≡◌, ◌≢◌, false, Option, none, some, List, put, u8, cells,
}
use turning_machine_operatin.Fs.Names.{fs_build_cpm_name}
use turning_machine_operatin.Fs.State.{Fs, fs_refresh_directory}

-- The bytes of the image, where one is open.
abbrev pub image : Fs → Option (ℕ → ℕ)
image fs = elim fs.disk_fp [ none ↦ none | some fp ↦ some fp.bytes ]

-- The handles and the image are the same.
pub record Keeps (fs fs' : Fs) : Type 0 where
  pub same_use : fs'.open_in_use ≡ fs.open_in_use
  pub same_index : fs'.open_dir_index ≡ fs.open_dir_index
  pub same_pos : fs'.open_pos ≡ fs.open_pos
  pub same_image : image fs' ≡ image fs

-- An active entry of the directory with this name of eleven characters.
abbrev pub IsEntry : Fs → List ℕ → ℕ → Type 0
IsEntry fs wanted i = (i < 64) × (fs.dir_active i ≢ 0) × (cells fs.dir_raw (i * 32 + 1) 11 ≡ wanted)

-- A handle that is not in use, the lowest one.
pub record IsLowest (fs : Fs) (h : ℕ) : Type 0 where
  pub in_range : h < 16
  pub unused : fs.open_in_use h ≡ 0
  pub lowest : (k : ℕ) → k < h → fs.open_in_use k ≢ 0

-- The handle stands for the entry, from its first byte on; the other handles are the same.
pub record IsOpened (fs fs' : Fs) (h d : ℕ) : Type 0 where
  pub used : fs'.open_in_use ≡ put fs.open_in_use h 1
  pub stands : fs'.open_dir_index ≡ put fs.open_dir_index h (u8 d)
  pub at_start : fs'.open_pos ≡ put fs.open_pos h 0
  pub same_image : image fs' ≡ image fs

-- The ways out: four errors and a handle.
pub data Opens (fs : Fs) (name : List ℕ) : Option ℕ × Fs → Type 0 where
  bad_name : fs_build_cpm_name name ≡ none → Opens fs name (none, fs)
  unreadable :
      {fs' : Fs} → (fs_refresh_directory fs).0 ≡ false → Keeps fs fs' → Opens fs name (none, fs')
  missing :
      {fs' : Fs} (wanted : List ℕ)
      → fs_build_cpm_name name ≡ some wanted
      → ((i : ℕ) → ¬ IsEntry fs' wanted i)
      → Keeps fs fs'
      → Opens fs name (none, fs')
  no_handle :
      {fs' : Fs}
      → ((k : ℕ) → k < 16 → fs.open_in_use k ≢ 0)
      → Keeps fs fs'
      → Opens fs name (none, fs')
  opened :
      {fs' : Fs} {h : ℕ} (wanted : List ℕ) (d : ℕ)
      → fs_build_cpm_name name ≡ some wanted
      → IsEntry fs' wanted d
      → IsLowest fs h
      → IsOpened fs fs' h d
      → Opens fs name (some h, fs')
