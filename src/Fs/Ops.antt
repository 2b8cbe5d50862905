-- ===== src/Fs/Ops.antt =====
-- The entry points of src/fs/fs.c that work on names and handles: `none` is the return value -1.
pub mod Opening
use turning_machine_operatin.Base.{
  ℕ, zero, suc, ◌+◌, ◌*◌, Bool, true, false, ◌&&◌, not, Option, none, some, List, [], ◌∷◌, leb, ltb,
  ◌==◌, if◌then◌else◌, put, fill, overlay, length, take, u8, first_from,
}
use turning_machine_operatin.Fs.Host.{File, fseek_set, fseek_end, ftell}
use turning_machine_operatin.Fs.Geometry.{
  fs_total_bytes, fs_dir_entry_size, fs_dir_entries, fs_open_max,
}
use turning_machine_operatin.Fs.Names.{fs_build_cpm_name, fs_entry_to_name13}
use turning_machine_operatin.Fs.State.{
  Fs, fs_reset_open_table, fs_refresh_directory, fs_persist_directory_entry,
  fs_find_dir_index_by_cpm_name,
}

-- `size == (long)FS_TOTAL_BYTES`, where `none` is -1.
unfoldable pub is_total : Option ℕ → Bool
is_total none = false
is_total (some size) = size == fs_total_bytes

-- The stream that `fopen` gave, if it gave one, is checked before it replaces the old one.
unfoldable pub fs_init : Fs → Option File → Bool × Fs
unfolding is_total
fs_init fs none = (false, fs)
fs_init fs (some fp) =
    let (ended, fp₁) = fseek_end fp in
    let (size, fp₂) = ftell fp₁ in
    let (sought, fp₃) = fseek_set fp₂ 0 in
    let fresh = fs_reset_open_table (record fs { disk_fp = some fp₃; dirty = 0 }) in
    let (refreshed, fs₁) = fs_refresh_directory fresh in
    if not ended
    then (false, fs)
    else if not (is_total size)
    then (false, fs)
    else if not sought
    then (false, fs)
    else if refreshed
    then (true, fs₁)
    else (false, record fs₁ { disk_fp = none })

-- The first free handle, made to stand for a directory entry.
unfoldable pub take_handle : Fs → ℕ → Option ℕ × Fs
take_handle fs dir_index = elim (first_from (λ h. fs.open_in_use h == 0) fs_open_max 0) [
  | none ↦ (none, fs)
  | some h ↦ (
    some h,
    record fs {
      open_in_use = put fs.open_in_use h 1;
      open_dir_index = put fs.open_dir_index h (u8 dir_index);
      open_pos = put fs.open_pos h 0;
    },
  )
]

-- With a name and a fresh directory.
unfoldable pub open_found : Fs → List ℕ → Option ℕ × Fs
open_found fs wanted = elim (fs_find_dir_index_by_cpm_name fs wanted) [
  | none ↦ (none, fs)
  | some dir_index ↦ take_handle fs dir_index
]

-- `g_disk_fp == NULL`
abbrev pub no_disk : Fs → Bool
no_disk fs = elim fs.disk_fp [ none ↦ true | some fp ↦ false ]

unfoldable pub fs_open : Fs → List ℕ → Option ℕ × Fs
fs_open fs name = elim (fs_build_cpm_name name) [
  | none ↦ (none, fs)
  | some wanted ↦
      let (refreshed, fs₁) = fs_refresh_directory fs in
      if no_disk fs then (none, fs) else if refreshed then open_found fs₁ wanted else (none, fs₁)
]

-- A new entry in the first slot that is not active, written to the disk.
unfoldable pub create_entry : Fs → List ℕ → ℕ → Option ℕ × Fs
create_entry fs wanted free_slot =
    let offset = free_slot * fs_dir_entry_size in
    let zeroed = fill fs.dir_raw offset fs_dir_entry_size 0 in
    let fs₁ = record fs { dir_raw = overlay zeroed (offset + 1) wanted } in
    let (persisted, fs₂) = fs_persist_directory_entry fs₁ (u8 free_slot) in
    if persisted
    then take_handle (record fs₂ { dir_active = put fs₂.dir_active free_slot 1 }) free_slot
    else (none, fs₂)

unfoldable pub create_missing : Fs → List ℕ → Option ℕ × Fs
create_missing fs wanted = elim (fs_find_dir_index_by_cpm_name fs wanted) [
  | some dir_index ↦ (none, fs)
  | none ↦ elim (first_from (λ i. fs.dir_active i == 0) fs_dir_entries 0) [
    | none ↦ (none, fs)
    | some free_slot ↦ create_entry fs wanted free_slot
  ]
]

unfoldable pub fs_create : Fs → List ℕ → Option ℕ × Fs
fs_create fs name = elim (fs_build_cpm_name name) [
  | none ↦ (none, fs)
  | some wanted ↦
      let (refreshed, fs₁) = fs_refresh_directory fs in
      if no_disk fs
      then (none, fs)
      else if refreshed
      then create_missing fs₁ wanted
      else (none, fs₁)
]

-- The argument is an `int`: a handle that is out of range is left alone.
unfoldable pub fs_close : Fs → ℕ → Fs
fs_close fs fh = if leb fs_open_max fh then fs else record fs {
  open_in_use = put fs.open_in_use fh 0;
  open_dir_index = put fs.open_dir_index fh 0;
  open_pos = put fs.open_pos fh 0;
}

-- The names of the active entries among the `left` ones from `i` on, and their number.
unfoldable pub list_from : Fs → ℕ → ℕ → List (List ℕ)
list_from fs zero i = []
list_from fs (suc left) i =
    let rest = list_from fs left (i + 1) in
    if fs.dir_active i == 0
    then rest
    else fs_entry_to_name13 (λ k. fs.dir_raw (i * fs_dir_entry_size + k)) ∷ rest

-- The return value, and the names stored: at most `max`.
unfoldable pub fs_list : Fs → ℕ → Option ℕ × List (List ℕ) × Fs
unfolding list_from
fs_list fs max =
    let (refreshed, fs₁) = fs_refresh_directory fs in
    let names = list_from fs₁ fs_dir_entries 0 in
    if no_disk fs
    then (none, [], fs)
    else if refreshed
    then (some (length names), take max names, fs₁)
    else (none, [], fs₁)

-- Does handle `h` stand for the entry?
unfoldable pub stands_for : Fs → ℕ → ℕ → Bool
stands_for fs dir_index h =
    ltb h fs_open_max && (not (fs.open_in_use h == 0) && fs.open_dir_index h == u8 dir_index)

unfoldable pub close_all : Fs → ℕ → Fs
unfolding stands_for
close_all fs dir_index = record fs {
  open_in_use = λ h. if stands_for fs dir_index h then 0 else fs.open_in_use h;
  open_dir_index = λ h. if stands_for fs dir_index h then 0 else fs.open_dir_index h;
  open_pos = λ h. if stands_for fs dir_index h then 0 else fs.open_pos h;
}

unfoldable pub delete_entry : Fs → ℕ → Bool × Fs
unfolding close_all
delete_entry fs dir_index =
    let offset = dir_index * fs_dir_entry_size in
    let marked = put fs.dir_raw offset 0xE5 in
    let raw = put (fill marked (offset + 16) 16 0) (offset + 15) 0 in
    let (persisted, fs₁) =
      fs_persist_directory_entry (record fs { dir_raw = raw }) (u8 dir_index) in
    if persisted
    then (true, close_all (record fs₁ { dir_active = put fs₁.dir_active dir_index 0 }) dir_index)
    else (false, fs₁)

unfoldable pub fs_delete : Fs → List ℕ → Bool × Fs
fs_delete fs name = elim (fs_build_cpm_name name) [
  | none ↦ (false, fs)
  | some wanted ↦
      let (refreshed, fs₁) = fs_refresh_directory fs in
      if no_disk fs
      then (false, fs)
      else if refreshed
      then elim (fs_find_dir_index_by_cpm_name fs₁ wanted) [
        | none ↦ (false, fs₁)
        | some dir_index ↦ delete_entry fs₁ dir_index
      ]
      else (false, fs₁)
]

unfoldable pub fs_exists : Fs → List ℕ → Bool × Fs
fs_exists fs name = elim (fs_build_cpm_name name) [
  | none ↦ (false, fs)
  | some wanted ↦
      let (refreshed, fs₁) = fs_refresh_directory fs in
      if no_disk fs
      then (false, fs)
      else if refreshed
      then (
        elim (fs_find_dir_index_by_cpm_name fs₁ wanted) [ none ↦ false | some dir_index ↦ true ],
        fs₁,
      )
      else (false, fs₁)
]
