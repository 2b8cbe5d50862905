-- ===== src/Fs/State/Sectors.antt =====
-- Sectors of a disk on which every call of the C library works: what is written is read back.
use native.Mathlib.Decide.{dec_lt}
use turning_machine_operatin.Base.{take_all}
use turning_machine_operatin.Base.{
  ℕ, ◌+◌, ◌≤◌, ◌<◌, ◌≡◌, refl, sym, ap, ◌∙◌, true, some, List, [], length, cells, overlay,
  length-cells, cells-overlay, cells_ext, overlay_before, overlay_after, arith,
}
use turning_machine_operatin.Fs.Host.{File, fseek_set, fread, fwrite}
use turning_machine_operatin.Fs.Geometry.{
  fs_total_bytes, fs_sector_offset, IsOnDisk, fs_sector_offset_lem, sector_offset_lem,
}
use turning_machine_operatin.Fs.State.{Fs, fs_read_sector, fs_write_sector}

-- The disk is in place, of full size, and its calls work.
pub record IsReady (fs : Fs) (fp : File) : Type 0 where
  pub open_disk : fs.disk_fp ≡ some fp
  pub whole : fp.size ≡ fs_total_bytes
  pub works : fp.faults ≡ []

-- The file after a sector was read or written at an offset.
abbrev after_read : File → ℕ → File
after_read fp offset = record fp { pos = offset + 256 }

abbrev after_write : File → ℕ → List ℕ → File
after_write fp offset buf = record fp { bytes = overlay fp.bytes offset buf; pos = offset + 256 }

pub fs_read_sector_lem :
    (fs : Fs) (fp : File) (track sector : ℕ)
    → IsReady fs fp
    → IsOnDisk track sector
    → let offset = fs_sector_offset track sector in
      fs_read_sector fs track sector
      ≡ (true, cells fp.bytes offset 256, record fs { disk_fp = some (after_read fp offset) })
unfolding fs_read_sector fseek_set fread
fs_read_sector_lem fs fp track sector r h = ground (
  arith,
  r.open_disk,
  r.works,
  r.whole,
  fs_sector_offset_lem track sector h,
  length-cells fp.bytes (fs_sector_offset track sector) 256,
)

pub fs_write_sector_lem :
    (fs : Fs) (fp : File) (track sector : ℕ) (buf : List ℕ)
    → IsReady fs fp
    → IsOnDisk track sector
    → length buf ≡ 256
    → let offset = fs_sector_offset track sector in
      fs_write_sector fs track sector buf
      ≡ (true, record fs { disk_fp = some (after_write fp offset buf); dirty = 1 })
unfolding fs_write_sector fseek_set fwrite
fs_write_sector_lem fs fp track sector buf r h full =
    ground (arith, r.open_disk, r.works, r.whole, fs_sector_offset_lem track sector h, take_all buf)

-- A sector written reads back as it was written, and every other sector reads as before.
pub read-write_sector :
    (fs : Fs) (fp : File) (t s t' s' : ℕ) (buf : List ℕ)
    → IsReady fs fp
    → IsOnDisk t s
    → IsOnDisk t' s'
    → ¬ ((t ≡ t') × (s ≡ s'))
    → length buf ≡ 256
    → let written = fs_write_sector fs t s buf in
      let back = fs_read_sector written.1 t s in
      let other = fs_read_sector written.1 t' s' in
      (written.0 ≡ true)
      × (back.0 ≡ true)
      × (back.1 ≡ buf)
      × (other.0 ≡ true)
      × (other.1 ≡ (fs_read_sector fs t' s').1)
read-write_sector fs fp t s t' s' buf r h g differ full =
    let offset = fs_sector_offset t s in
    let offset' = fs_sector_offset t' s' in
    let fp₁ = after_write fp offset buf in
    let fs₁ : Fs = record fs { disk_fp = some fp₁; dirty = 1 } in
    let ready : IsReady fs₁ fp₁ = record { open_disk = refl; whole = r.whole; works = r.works } in
    rw
      (
        fs_write_sector_lem fs fp t s buf r h full,
        fs_read_sector_lem fs₁ fp₁ t s ready h,
        fs_read_sector_lem fs₁ fp₁ t' s' ready g,
        fs_read_sector_lem fs fp t' s' r g,
      )
      (refl, refl, same, refl, cells_ext fp₁.bytes fp.bytes offset' 256 apart)
  where
    same : cells (overlay fp.bytes (fs_sector_offset t s) buf) (fs_sector_offset t s) 256 ≡ buf
    same =
        ap (λ (n : ℕ). cells (overlay fp.bytes (fs_sector_offset t s) buf) (fs_sector_offset t s) n)
          (sym full)
        ∙ cells-overlay fp.bytes (fs_sector_offset t s) buf

    apart :
        (x : ℕ)
        → fs_sector_offset t' s' ≤ x
        → x < fs_sector_offset t' s' + 256
        → overlay fp.bytes (fs_sector_offset t s) buf x ≡ fp.bytes x
    apart x p q = elim (dec_lt x (fs_sector_offset t s)) [
      | yes below ↦ overlay_before fp.bytes (fs_sector_offset t s) buf x below
      | no not_below ↦ elim (dec_lt x (fs_sector_offset t s + 256)) [
        | yes inside ↦
            let same_sector = sector_offset_lem t s t' s' x h g (omega arith) inside p q in
            absurd (differ (same_sector.1, same_sector.2))
        | no beyond ↦ overlay_after fp.bytes (fs_sector_offset t s) buf x (omega arith)
      ]
    ]
