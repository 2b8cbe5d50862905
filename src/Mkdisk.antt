-- ===== src/Mkdisk.antt =====
-- tools/mkdisk.c: the program that writes an empty disk image. The stream that `fopen` gives is an
-- argument, and `fclose` works where `fflush` does.
pub mod Image
pub mod Mounted
use turning_machine_operatin.Base.{
  ℕ, zero, suc, ◌-◌, ◌*◌, ◌/◌, Option, none, some, ◌==◌, if◌then◌else◌, replicate,
}
use turning_machine_operatin.Fs.Host.{File, fwrite, fflush}

abbrev pub total_bytes : ℕ
total_bytes = 77 * 26 * 256

abbrev pub dir_buf_size : ℕ
dir_buf_size = 64 * 32

-- `left` sectors of zeros. `none` is the return value 1.
unfoldable pub zero_loop : ℕ → File → Option File
zero_loop zero fp = some fp
zero_loop (suc left) fp =
    let (count, fp₁) = fwrite fp (replicate 256 0) in
    let later = zero_loop left fp₁ in if count == 256 then later else none

unfoldable pub close_image : Option File → Option File
close_image none = none
close_image (some fp) = let (closed, fp₁) = fflush fp in if closed then some fp₁ else none

-- The image, where the return value is 0. The loop goes up by 256, in whole sectors.
unfoldable pub make_disk : Option File → Option File
unfolding zero_loop close_image
make_disk none = none
make_disk (some fp) =
    let (count, fp₁) = fwrite fp (replicate dir_buf_size 0xE5) in
    let image = close_image (zero_loop ((total_bytes - dir_buf_size) / 256) fp₁) in
    if count == dir_buf_size then image else none
