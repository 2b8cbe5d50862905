-- ===== src/Mkdisk/Image.antt =====
-- The image that tools/mkdisk.c writes is a disk with an empty directory for src/fs/fs.c.
use turning_machine_operatin.Base.{
  ℕ, zero, suc, ◌+◌, ◌*◌, ◌≤◌, ◌<◌, ◌≡◌, refl, sym, ◌∙◌, Option, none, some, [], replicate, overlay,
  overlay_before, overlay-replicate, length-replicate, take_all, arith, ltb, inl, inr, Bool-cases,
}
use turning_machine_operatin.Fs.Host.{File, next_fault, fwrite, fflush}
use turning_machine_operatin.Mkdisk.{total_bytes, zero_loop, close_image, make_disk}

-- `p` bytes are written: the directory, and zeros behind it.
pub record IsImage (p : ℕ) (f : File) : Type 0 where
  pub size_is : f.size ≡ p
  pub pos_is : f.pos ≡ p
  pub works : f.faults ≡ []
  pub directory : (x : ℕ) → x < 2048 → f.bytes x ≡ 0xE5
  pub zeros : (x : ℕ) → 2048 ≤ x → x < p → f.bytes x ≡ 0

-- A stream is given, and it satisfies `Good`.
abbrev pub Given : (File → Type 0) → Option File → Type 0
Given Good none = ⊥
Given Good (some f) = Good f

-- A transfer on a stream that works.
fwrite_lem :
    (f : File) (n val : ℕ)
    → f.faults ≡ []
    → f.size ≡ f.pos
    → fwrite f (replicate n val) ≡ (
      n,
      record f {
        bytes = overlay f.bytes f.pos (replicate n val);
        size = f.pos + n;
        pos = f.pos + n;
        faults = [];
      },
    )
unfolding fwrite next_fault
fwrite_lem f n val works ends =
    ground (arith, works, length-replicate n val, take_all (replicate n val))

zero_loop-IsImage :
    (left p : ℕ) (f : File)
    → 2048 ≤ p
    → IsImage p f
    → Given (IsImage (p + left * 256)) (zero_loop left f)
unfolding zero_loop
zero_loop-IsImage zero p f h im = let same : p + 0 * 256 ≡ p = omega arith in rw same im
zero_loop-IsImage (suc left) p f h im =
    let written = fwrite_lem f 256 0 im.works (im.size_is ∙ sym im.pos_is) in
    let bytes = overlay f.bytes f.pos (replicate 256 0) in
    let f₁ : File = record f {
      bytes = bytes;
      size = f.pos + 256;
      pos = f.pos + 256;
      faults = [];
    } in
    let image : IsImage (p + 256) f₁ = record {
      size_is = omega (arith, im.pos_is);
      pos_is = omega (arith, im.pos_is);
      works = refl;
      directory = λ x lt.
          overlay_before f.bytes f.pos (replicate 256 0) x (omega (arith, im.pos_is))
          ∙ im.directory x lt;
      zeros = λ x from lt. zeros_then f p h im x from lt;
    } in
    let same : p + suc left * 256 ≡ p + 256 + left * 256 = omega arith in
    rw (written, same) (zero_loop-IsImage left (p + 256) f₁ (omega arith) image)
  where
    zeros_then :
        (f : File) (p : ℕ)
        → 2048 ≤ p
        → IsImage p f
        → (x : ℕ) → 2048 ≤ x
        → x < p + 256
        → overlay f.bytes f.pos (replicate 256 0) x ≡ 0
    zeros_then f p h im x from lt = elim (Bool-cases (ltb x p)) [
      | inl e ↦
          let before : x < p = ground arith in
          overlay_before f.bytes f.pos (replicate 256 0) x (omega (arith, im.pos_is))
          ∙ im.zeros x from before
      | inr e ↦
          let after : p ≤ x = ground arith in
          overlay-replicate f.bytes f.pos 256 0 x (omega (arith, im.pos_is))
            (omega (arith, im.pos_is))
    ]

close_image-IsImage :
    (p : ℕ) (o : Option File) → Given (IsImage p) o → Given (IsImage p) (close_image o)
unfolding close_image fflush next_fault
close_image-IsImage p none g = g
close_image-IsImage p (some k) g = rw g.works (record {
  size_is = g.size_is;
  pos_is = g.pos_is;
  works = refl;
  directory = g.directory;
  zeros = g.zeros;
})

-- On a stream that works, the whole image is written.
pub make_disk-IsImage :
    (f : File)
    → f.size ≡ 0
    → f.pos ≡ 0
    → f.faults ≡ []
    → Given (IsImage total_bytes) (make_disk (some f))
unfolding make_disk
make_disk-IsImage f s p w =
    let written = fwrite_lem f 2048 0xE5 w (s ∙ sym p) in
    let bytes = overlay f.bytes f.pos (replicate 2048 0xE5) in
    let f₁ : File = record f {
      bytes = bytes;
      size = f.pos + 2048;
      pos = f.pos + 2048;
      faults = [];
    } in
    let image : IsImage 2048 f₁ = record {
      size_is = omega (arith, p);
      pos_is = omega (arith, p);
      works = refl;
      directory =
          λ x lt. overlay-replicate f.bytes f.pos 2048 0xE5 x (omega (arith, p)) (omega (arith, p));
      zeros = λ x from lt. absurd (omega arith);
    } in
    rw written (
      close_image-IsImage total_bytes (zero_loop 1994 f₁)
        (zero_loop-IsImage 1994 2048 f₁ (omega arith) image))
