-- ===== src/Bios/Compile.antt =====
-- `bios_cccompile` of src/bios/bios.c: a source file of the disk is compiled to a program on it. The
-- compiler, which works on two files of the host, is the parameter `compile`: the program's bytes,
-- or `none` where a call on those files or the compilation fails.
use turning_machine_operatin.Base.{
  ℕ, zero, suc, ◌+◌, ◌-◌, Bool, false, ◌&&◌, ◌||◌, not, Option, none, some, List, [], ◌∷◌, ◌++◌,
  leb, ltb, ◌==◌, if◌then◌else◌, length, take, drop,
}
use turning_machine_operatin.Fs.State.{Fs, fs_flush}
use turning_machine_operatin.Fs.Ops.{fs_open, fs_create, fs_close, fs_delete, fs_exists}
use turning_machine_operatin.Fs.Transfer.{fs_read, fs_write}
use turning_machine_operatin.Bios.State.{World, complain}
use turning_machine_operatin.Bios.Files.{close_name, file_name, with_fs}

-- ".c" or ".C"
unfoldable pub is_c_suffix : List ℕ → Bool
is_c_suffix (dot ∷ ch ∷ []) = dot == 46 && (ch == 99 || ch == 67)
is_c_suffix _ = false

-- `none` is -1.
unfoldable pub bios_derive_com_name : List ℕ → ℕ → Option (List ℕ)
unfolding is_c_suffix
bios_derive_com_name src out_cap =
    let n = length src in
    let base = take (n - 2) src in
    if ltb n 3 || ltb out_cap (n + 6)
    then none
    else if not (is_c_suffix (drop (n - 2) src))
    then none
    else if ltb out_cap (length base + 5)
    then none
    else some (base ++ (46 ∷ 99 ∷ 111 ∷ 109 ∷ []))

-- The loop that reads the source: `none` where a read fails or the buffer is full.
unfoldable pub source_loop : ℕ → ℕ → List ℕ → Fs → Option (List ℕ) × Fs
source_loop zero fh src fs = (some src, fs)
source_loop (suc fuel) fh src fs =
    let (r, buf, fs₁) = fs_read fs fh (16384 - 1 - length src) in
    let src₁ = src ++ buf in
    let later = source_loop fuel fh src₁ fs₁ in
    elim r [
      | none ↦ (none, fs₁)
      | some n ↦
          if n == 0
          then (some src, fs₁)
          else if leb (16384 - 1) (length src₁)
          then (none, fs₁)
          else later
    ]

-- The program goes to a new file, in place of an old one.
unfoldable pub write_program : World → List ℕ → List ℕ → World
write_program w out_name program =
    let (created, fs₁) = fs_create w.fs out_name in
    elim created [
      | none ↦ complain (with_fs w fs₁)
      | some wh ↦
          let (written, fs₂) = fs_write fs₁ wh program in
          let fs₃ = fs_close fs₂ wh in
          elim written [
            | none ↦ complain (with_fs w fs₃)
            | some n ↦
                if n == length program then with_fs w (fs_flush fs₃) else complain (with_fs w fs₃)
          ]
    ]

unfoldable pub replace_program : World → List ℕ → List ℕ → World
unfolding write_program
replace_program w out_name program =
    let (exists, fs₁) = fs_exists w.fs out_name in
    let (deleted, fs₂) = fs_delete fs₁ out_name in
    if not exists
    then write_program (with_fs w fs₁) out_name program
    else if deleted
    then write_program (with_fs w fs₂) out_name program
    else complain (with_fs w fs₂)

module _ (compile : List ℕ → Option (List ℕ)) where
  -- With the source file open.
  unfoldable pub compile_opened : World → List ℕ → ℕ → World
  unfolding source_loop replace_program
  compile_opened w out_name fh =
      let (source, fs₁) = source_loop 16384 fh [] w.fs in
      let w₁ = with_fs w (fs_close fs₁ fh) in
      elim source [
        | none ↦ complain w₁
        | some src ↦ elim (compile src) [
          | none ↦ complain w₁
          | some program ↦
              if ltb 16384 (length program)
              then complain w₁
              else replace_program w₁ out_name program
        ]
      ]

  unfoldable pub bios_cccompile : World → World
  unfolding close_name compile_opened bios_derive_com_name
  bios_cccompile w =
      let w₁ = close_name w in
      let src_name = file_name w₁ in
      let (opened, fs₁) = fs_open w.fs src_name in
      if w₁.bios.type_name 0 == 0
      then complain w₁
      else if leb 256 (length src_name)
      then complain w₁
      else elim (bios_derive_com_name src_name 256) [
        | none ↦ complain w₁
        | some out_name ↦ elim opened [
          | none ↦ complain (with_fs w₁ fs₁)
          | some fh ↦ compile_opened (with_fs w₁ fs₁) out_name fh
        ]
      ]
