-- ===== src/Mkdisk/Mounted.antt =====
-- The image that tools/mkdisk.c writes, opened by src/fs/fs.c.
use turning_machine_operatin.Base.{
  ℕ, zero, suc, ◌+◌, ◌*◌, ◌≤◌, ◌<◌, ◌≡◌, refl, ◌∙◌, true, Option, none, some, [], ◌==◌, cells,
  overlay, overlay-cells, length-cells, arith,
}
use turning_machine_operatin.Fs.Host.{File, next_fault, fseek_set, fseek_end, ftell, fread}
use turning_machine_operatin.Fs.Geometry.{fs_total_bytes}
use turning_machine_operatin.Fs.State.{Fs, fs_refresh_directory, active_flags, fs_reset_open_table}
use turning_machine_operatin.Fs.Ops.{fs_init, fs_list, is_total, list_from}
use turning_machine_operatin.Mkdisk.{total_bytes, make_disk}
use turning_machine_operatin.Mkdisk.Image.{IsImage, Given, make_disk-IsImage}

-- The directory of the file, read into the cache.
abbrev refreshed : Fs → File → Fs
refreshed fs f =
    let raw = overlay fs.dir_raw 0 (cells f.bytes 0 2048) in
    record fs {
      disk_fp = some (record f { pos = 2048; faults = [] });
      dir_raw = raw;
      dir_active = active_flags raw fs.dir_active;
    }

fs_refresh_directory_lem :
    (fs : Fs) (f : File)
    → fs.disk_fp ≡ some f
    → f.faults ≡ []
    → 2048 ≤ f.size
    → fs_refresh_directory fs ≡ (true, refreshed fs f)
unfolding fs_refresh_directory fseek_set fread next_fault
fs_refresh_directory_lem fs f e works long = ground (arith, e, works, length-cells f.bytes 0 2048)

-- An image whose directory is unused.
abbrev IsBlank : File → Type 0
IsBlank f = (f.size ≡ total_bytes) × (f.faults ≡ []) × ((x : ℕ) → x < 2048 → f.bytes x ≡ 0xE5)

-- No entry is active.
inactive : (fs : Fs) (f : File) (i : ℕ) → IsBlank f → i < 64 → (refreshed fs f).dir_active i ≡ 0
unfolding active_flags
inactive fs f i b h =
    let status : overlay fs.dir_raw 0 (cells f.bytes 0 2048) (i * 32) ≡ 0xE5 =
      overlay-cells fs.dir_raw f.bytes 0 2048 (i * 32) (omega arith) (omega arith)
      ∙ b.2 (i * 32) (omega arith) in
    ground (arith, status)

list_from-none :
    (fs : Fs) (left i : ℕ)
    → ((k : ℕ) → k < i + left → fs.dir_active k ≡ 0)
    → list_from fs left i ≡ []
unfolding list_from
list_from-none fs zero i h = refl
list_from-none fs (suc left) i h =
    rw (h i (omega arith)) (list_from-none fs left (i + 1) (λ k lt. h k (omega arith)))

fs_list-none :
    (fs : Fs) (f : File) (max : ℕ) → fs.disk_fp ≡ some f → IsBlank f → (fs_list fs max).0 ≡ some 0
unfolding fs_list
fs_list-none fs f max e b =
    let refresh = fs_refresh_directory_lem fs f e b.1 (omega (arith, b.0)) in
    let none_there =
      list_from-none (refreshed fs f) 64 0 (λ k lt. inactive fs f k b (omega arith)) in
    rw (refresh, e, none_there) refl

fseek_end_lem :
    (f : File) → f.faults ≡ [] → fseek_end f ≡ (true, record f { pos = f.size; faults = [] })
unfolding fseek_end next_fault
fseek_end_lem f works = rw works refl

ftell_lem : (f : File) → f.faults ≡ [] → ftell f ≡ (some f.pos, record f { faults = [] })
unfolding ftell next_fault
ftell_lem f works = rw works refl

fseek_set_lem :
    (f : File) → f.faults ≡ [] → fseek_set f 0 ≡ (true, record f { pos = 0; faults = [] })
unfolding fseek_set next_fault
fseek_set_lem f works = rw works refl

fs_init-blank :
    (fs : Fs) (f : File)
    → IsBlank f
    → let image : File = record f { pos = 0; faults = [] } in
      let fresh = fs_reset_open_table (record fs { disk_fp = some image; dirty = 0 }) in
      fs_init fs (some f) ≡ (true, refreshed fresh image)
unfolding fs_init is_total fs_reset_open_table
fs_init-blank fs f b =
    let at_end : File = record f { pos = f.size; faults = [] } in
    let image : File = record f { pos = 0; faults = [] } in
    let fresh = fs_reset_open_table (record fs { disk_fp = some image; dirty = 0 }) in
    let sized : (f.size == fs_total_bytes) ≡ true = ground (arith, b.0) in
    let refresh = fs_refresh_directory_lem fresh image refl refl (omega (arith, b.0)) in
    rw (fseek_end_lem f b.1, ftell_lem at_end refl, sized, fseek_set_lem at_end refl, refresh) refl

fs_list-init :
    (fs : Fs) (f : File) (max : ℕ)
    → IsBlank f
    → ((fs_init fs (some f)).0 ≡ true) × ((fs_list (fs_init fs (some f)).1 max).0 ≡ some 0)
fs_list-init fs f max b =
    let image : File = record f { pos = 0; faults = [] } in
    let fresh = fs_reset_open_table (record fs { disk_fp = some image; dirty = 0 }) in
    rw (fs_init-blank fs f b) (
      refl,
      fs_list-none (refreshed fresh image) (record f { pos = 2048; faults = [] }) max refl
          (b.0, refl, b.2),
    )

-- What holds of an image that the tool gave, for a cell behind the directory.
abbrev pub Mounts : Fs → ℕ → ℕ → File → Type 0
Mounts fs max x image =
    let disk : File = record image { pos = 0 } in
    ((fs_init fs (some disk)).0 ≡ true)
    × ((fs_list (fs_init fs (some disk)).1 max).0 ≡ some 0)
    × (image.bytes x ≡ 0)

-- On a stream that works, the disk tool writes an image. Read from its start on, the file system
-- accepts it and lists no file; every cell behind the directory holds 0.
pub make_disk-Mounts :
    (f : File) (fs : Fs) (max x : ℕ)
    → f.size ≡ 0
    → f.pos ≡ 0
    → f.faults ≡ []
    → 2048 ≤ x
    → x < total_bytes
    → Given (Mounts fs max x) (make_disk (some f))
make_disk-Mounts f fs max x s p w from lt = mounted (make_disk (some f)) (make_disk-IsImage f s p w)
  where
    mounted : (o : Option File) → Given (IsImage total_bytes) o → Given (Mounts fs max x) o
    mounted none g = g
    mounted (some k) g =
        let blank : IsBlank (record k { pos = 0 }) = (g.size_is, g.works, g.directory) in
        let listed = fs_list-init fs (record k { pos = 0 }) max blank in
        (listed.0, listed.1, g.zeros x from lt)
