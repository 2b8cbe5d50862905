-- ===== src/Fs/Transfer.antt =====
-- `fs_read` and `fs_write` of src/fs/fs.c. Their loops run on fuel, one round for each byte asked
-- for, since a round that goes on moves at least one byte.
pub mod Enough
use turning_machine_operatin.Base.{
  ℕ, zero, suc, ◌+◌, ◌-◌, ◌*◌, ◌/◌, ◌%◌, Bool, true, false, ◌&&◌, ◌||◌, not, Option, none, some,
  List, [], ◌∷◌, ◌++◌, leb, ltb, ◌==◌, if◌then◌else◌, put, length, take, drop, replicate, u8, u16,
}
use Prim.Native.Nat.{min}
use turning_machine_operatin.Fs.Geometry.{
  fs_bytes_per_sector, fs_dir_entry_size, fs_open_max, fs_linear_to_track_sector,
  fs_track_sector_to_linear,
}
use turning_machine_operatin.Fs.State.{
  Fs, fs_refresh_directory, fs_persist_directory_entry, fs_alloc_free_sector, fs_read_sector,
  fs_write_sector,
}

-- The variables of a loop: bytes moved, position in the file, what is in `buf` (read), what is
-- left of `buf` (written), and whether a sector transfer has failed.
pub record Transfer : Type 0 where
  pub total : ℕ
  pub pos : ℕ
  pub bytes : List ℕ
  pub failed : Bool
  pub fs : Fs

-- One round of the loop of `fs_read`: `none` is a `break` or a failure, after which `t` stands.
pub data Round : Type 0 where
  again : Transfer → Round
  stop : Transfer → Round

unfoldable pub read_sector_part : Transfer → ℕ → ℕ → ℕ → ℕ → ℕ → Round
read_sector_part t len size in_sector track sector =
    let (ok, got, fs₁) = fs_read_sector t.fs track sector in
    let chunk = min (min (len - t.total) (size - t.pos)) (fs_bytes_per_sector - in_sector) in
    if ok
    then again (record {
      total = t.total + chunk;
      pos = u16 (t.pos + chunk);
      bytes = t.bytes ++ take chunk (drop in_sector got);
      failed = false;
      fs = fs₁;
    })
    else stop (record t { failed = true; fs = fs₁ })

unfoldable pub read_round : Transfer → ℕ → ℕ → ℕ → Round
unfolding read_sector_part
read_round t entry len size =
    let slot = u8 (t.pos / fs_bytes_per_sector) in
    let in_sector = u8 (t.pos % fs_bytes_per_sector) in
    let alloc = t.fs.dir_raw (entry + (16 + slot)) in
    let place = fs_linear_to_track_sector (u16 (alloc + 65536 - 1)) in
    if leb 16 slot || alloc == 0 then stop t else elim place [
      | none ↦ stop t
      | some (track, sector) ↦ read_sector_part t len size in_sector track sector
    ]

unfoldable pub read_loop : ℕ → ℕ → ℕ → ℕ → Transfer → Transfer
read_loop zero entry len size t = t
read_loop (suc fuel) entry len size t =
    if ltb t.total len && ltb t.pos size
    then elim (read_round t entry len size) [
      | stop t' ↦ t'
      | again t' ↦ read_loop fuel entry len size t'
    ]
    else t

-- `(total > 0) ? total : -1`
abbrev pub total_or_error : ℕ → Option ℕ
total_or_error total = if total == 0 then none else some total

-- What follows the loop of `fs_read`.
unfoldable pub finish_read : ℕ → Transfer → Option ℕ × List ℕ × Fs
finish_read fh t =
    if t.failed
    then (total_or_error t.total, t.bytes, t.fs)
    else (some t.total, t.bytes, record t.fs { open_pos = put t.fs.open_pos fh t.pos })

-- The return value, the bytes put into `buf`, and the new state.
unfoldable pub fs_read : Fs → ℕ → ℕ → Option ℕ × List ℕ × Fs
unfolding finish_read
fs_read fs fh len =
    let (refreshed, fs₁) = fs_refresh_directory fs in
    let entry = fs₁.open_dir_index fh * fs_dir_entry_size in
    let size = u16 (fs₁.dir_raw (entry + 15) * fs_bytes_per_sector) in
    let pos = fs₁.open_pos fh in
    let start : Transfer = record { total = 0; pos = pos; bytes = []; failed = false; fs = fs₁ } in
    if leb fs_open_max fh
    then (none, [], fs)
    else if fs.open_in_use fh == 0
    then (none, [], fs)
    else if len == 0
    then (some 0, [], fs)
    else if not refreshed
    then (none, [], fs₁)
    else if leb size pos
    then (some 0, [], fs₁)
    else finish_read fh (read_loop len entry len size start)

-- `sector_buf` with the next bytes of `buf` copied in at `in_sector`.
abbrev pub splice : List ℕ → ℕ → List ℕ → List ℕ
splice sector in_sector chunk =
    take in_sector sector ++ (chunk ++ drop (in_sector + length chunk) sector)

-- The part of a round of `fs_write` that writes `sector_buf` back.
unfoldable pub write_sector_part : Transfer → Fs → List ℕ → ℕ → ℕ → ℕ → Round
write_sector_part t fs sector_buf in_sector track sector =
    let chunk = take (fs_bytes_per_sector - in_sector) t.bytes in
    let (ok, fs₁) = fs_write_sector fs track sector (splice sector_buf in_sector chunk) in
    if ok
    then again (record {
      total = t.total + length chunk;
      pos = u16 (t.pos + length chunk);
      bytes = drop (fs_bytes_per_sector - in_sector) t.bytes;
      failed = false;
      fs = fs₁;
    })
    else stop (record t { failed = true; fs = fs₁ })

-- A slot with no sector yet is given a free one.
unfoldable pub write_new_sector : Transfer → ℕ → ℕ → Round
unfolding write_sector_part
write_new_sector t alloc_cell in_sector = elim (fs_alloc_free_sector t.fs) [
  | none ↦ stop t
  | some (track, sector) ↦
      let alloc = u8 (fs_track_sector_to_linear track sector + 1) in
      let fs₁ = record t.fs { dir_raw = put t.fs.dir_raw alloc_cell alloc } in
      write_sector_part t fs₁ (replicate 256 0) in_sector track sector
]

-- A slot with a sector has that sector read first.
unfoldable pub write_old_sector : Transfer → ℕ → ℕ → Round
unfolding write_sector_part
write_old_sector t alloc in_sector = elim (fs_linear_to_track_sector (u16 (alloc + 65536 - 1))) [
  | none ↦ stop (record t { failed = true })
  | some (track, sector) ↦
      let (ok, got, fs₁) = fs_read_sector t.fs track sector in
      if ok
      then write_sector_part t fs₁ got in_sector track sector
      else stop (record t { failed = true; fs = fs₁ })
]

unfoldable pub write_round : Transfer → ℕ → Round
unfolding write_new_sector write_old_sector
write_round t entry =
    let slot = u8 (t.pos / fs_bytes_per_sector) in
    let in_sector = u8 (t.pos % fs_bytes_per_sector) in
    let alloc_cell = entry + (16 + slot) in
    let alloc = t.fs.dir_raw alloc_cell in
    if leb 16 slot
    then stop t
    else if alloc == 0
    then write_new_sector t alloc_cell in_sector
    else write_old_sector t alloc in_sector

unfoldable pub write_loop : ℕ → ℕ → Transfer → Transfer
write_loop zero entry t = t
write_loop (suc fuel) entry t = elim t.bytes [
  | [] ↦ t
  | b ∷ bs ↦ elim (write_round t entry) [ stop t' ↦ t' | again t' ↦ write_loop fuel entry t' ]
]

-- What follows the loop of `fs_write`: the size in sectors grows, never shrinks, and the entry is
-- written to the disk.
unfoldable pub finish_write : ℕ → ℕ → Transfer → Option ℕ × Fs
finish_write fh entry t =
    let used = t.fs.dir_raw (entry + 15) in
    let sectors_used = u8 ((t.pos + (fs_bytes_per_sector - 1)) / fs_bytes_per_sector) in
    let raw =
      if ltb (used * fs_bytes_per_sector) t.pos
      then put t.fs.dir_raw (entry + 15) sectors_used
      else t.fs.dir_raw in
    let fs₁ = record t.fs { dir_raw = raw; open_pos = put t.fs.open_pos fh t.pos } in
    let (persisted, fs₂) = fs_persist_directory_entry fs₁ (fs₁.open_dir_index fh) in
    if t.failed
    then (total_or_error t.total, t.fs)
    else if persisted
    then (some t.total, fs₂)
    else (total_or_error t.total, fs₂)

unfoldable pub fs_write : Fs → ℕ → List ℕ → Option ℕ × Fs
unfolding finish_write
fs_write fs fh buf =
    let (refreshed, fs₁) = fs_refresh_directory fs in
    let entry = fs₁.open_dir_index fh * fs_dir_entry_size in
    let start : Transfer = record {
      total = 0;
      pos = fs₁.open_pos fh;
      bytes = buf;
      failed = false;
      fs = fs₁;
    } in
    if leb fs_open_max fh
    then (none, fs)
    else if fs.open_in_use fh == 0
    then (none, fs)
    else if length buf == 0
    then (some 0, fs)
    else if not refreshed
    then (none, fs₁)
    else finish_write fh entry (write_loop (length buf) entry start)
