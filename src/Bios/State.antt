-- ===== src/Bios/State.antt =====
-- The static variables of src/bios/bios.c, and the world that its calls work on.
use turning_machine_operatin.Base.{ℕ, zero, suc, ◌+◌, List, [], ◌∷◌, ◌==◌, if◌then◌else◌, put}
use turning_machine_operatin.Cpu.State.{Cpu, Machine}
use turning_machine_operatin.Fs.State.{Fs}
use turning_machine_operatin.Bios.Queue.{Queue, push_all}

pub record Bios : Type 0 where
  pub queue : Queue
  pub disk : ℕ
  pub track : ℕ
  pub sector : ℕ
  pub dma : ℕ
  pub type_name : ℕ → ℕ
  pub type_len : ℕ
  pub run_loaded : ℕ
  pub shell_line : ℕ → ℕ
  pub shell_line_len : ℕ

-- The BIOS, the file system, the processor with its tape, and what standard input still holds: at
-- its end `getchar` returns EOF.
pub record World : Type 0 where
  pub bios : Bios
  pub fs : Fs
  pub machine : Machine
  pub input : List ℕ

unfoldable pub bios_init : Bios → Bios
bios_init b = record b {
  queue = record b.queue { head = 0; tail = 0 };
  disk = 0;
  track = 0;
  sector = 1;
  dma = 0x0080;
  type_len = 0;
  type_name = put b.type_name 0 0;
  run_loaded = 0;
  shell_line_len = 0;
  shell_line = put b.shell_line 0 0;
}

-- The four parts that the calls change.
abbrev pub with_bios : World → Bios → World
with_bios w b = record w { bios = b }

abbrev pub with_cpu : World → Cpu → World
with_cpu w cpu = record w { machine = record w.machine { cpu = cpu } }

abbrev pub print : World → List ℕ → World
print w text = with_bios w (record w.bios { queue = push_all w.bios.queue text })

-- `out_queue_push('?'); out_queue_push('\n');`
abbrev pub complain : World → World
complain w = print w (63 ∷ 10 ∷ [])

-- The text at the start of an array of characters, up to its NUL.
unfoldable pub text_of : ℕ → (ℕ → ℕ) → ℕ → List ℕ
text_of zero f i = []
text_of (suc left) f i = let rest = text_of left f (i + 1) in if f i == 0 then [] else f i ∷ rest

-- What other parts may ask.
unfoldable pub bios_run_program_pending : Bios → ℕ
bios_run_program_pending b = b.run_loaded

unfoldable pub bios_current_disk : Bios → ℕ
bios_current_disk b = b.disk

unfoldable pub bios_current_track : Bios → ℕ
bios_current_track b = b.track

unfoldable pub bios_current_sector : Bios → ℕ
bios_current_sector b = b.sector

unfoldable pub bios_dma_addr : Bios → ℕ
bios_dma_addr b = b.dma
