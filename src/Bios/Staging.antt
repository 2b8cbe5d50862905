-- ===== src/Bios/Staging.antt =====
-- The part of `bios_cccompile` of src/bios/bios.c that runs the compiler on two files of the host,
-- and `cc_compile` of src/compiler/compiler.c with its calls on them.
use turning_machine_operatin.Base.{
  ℕ, Bool, ◌&&◌, Option, none, some, List, leb, if◌then◌else◌, length, take,
}
use turning_machine_operatin.Compiler.Result.{Result, ok, err, starved, bind}
use turning_machine_operatin.Compiler.Code.Whole.{cc_compile}

-- Whether each call of the C library worked, in the order of the calls: those that write the source
-- file, those of `cc_compile`, and those that read the program back. `source_read` is how many bytes
-- of the source `fread` gives, and `told` says that `ftell` works.
pub record Host : Type 0 where
  pub stage_opens : Bool
  pub stage_written : Bool
  pub stage_closes : Bool
  pub source_opens : Bool
  pub source_read : ℕ
  pub source_closes : Bool
  pub output_opens : Bool
  pub output_written : Bool
  pub output_closes : Bool
  pub program_opens : Bool
  pub end_found : Bool
  pub told : Bool
  pub start_found : Bool
  pub program_read : Bool
  pub program_closes : Bool

-- `if (!works) return -1;`
abbrev check {ℓ} : {A : Type ℓ} → Bool → Result A → Result A
check works rest = if works then rest else err

-- `cc_compile` with its files: the bytes of the output file. The compiler's own refusals come before
-- the output file is opened, but for that of an empty program.
unfoldable pub compile_files : Host → List ℕ → Result (List ℕ)
unfolding cc_compile
compile_files host source = check host.source_opens (
    bind (cc_compile (take host.source_read source)) (λ program. check host.source_closes (
      check host.output_opens (check host.output_written (check host.output_closes (ok program))))))

-- From the source to the program, as `bios_cccompile` does it.
unfoldable pub stage_compile : Host → List ℕ → Result (List ℕ)
unfolding compile_files
stage_compile host source = check host.stage_opens (
    check host.stage_written (
      check host.stage_closes (
        bind (compile_files host source) (λ program. check host.program_opens (
          check host.end_found (
            check (host.told && leb (length program) 16384) (
              check host.start_found
                (check host.program_read (check host.program_closes (ok program))))))))))

-- The compiler that `bios_cccompile` is given.
unfoldable pub staged_compiler : Host → List ℕ → Option (List ℕ)
unfolding stage_compile
staged_compiler host source = elim (stage_compile host source) [
  | ok program ↦ some program
  | err ↦ none
  | starved ↦ none
]
