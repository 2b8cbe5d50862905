-- ===== src/Examples/OnBios.antt =====
-- The BIOS at concrete states: a queue that runs around the end of its ring, and a typed line.
use turning_machine_operatin.Base.{
  ℕ, if◌then◌else◌, ◌==◌, ◌<◌, ◌≡◌, ◌⊎◌, inr, refl, true, false, List, [], ◌∷◌, ◌++◌, take, arith,
}
use turning_machine_operatin.Mem.{mem_init, mem_read}
use turning_machine_operatin.Cpu.State.{cpu_init}
use turning_machine_operatin.Bios.Queue.{
  Queue, out_queue_push, bios_pending_output, bios_get_output, push_all, drain,
}
use turning_machine_operatin.Bios.Queue.Fifo.{
  IsQueue, waiting, contents, out_queue_push_lem, bios_get_output_lem,
}
use turning_machine_operatin.Bios.Queue.Whole.{push_all_lem, drain_lem}
use turning_machine_operatin.Bios.State.{World}
use turning_machine_operatin.Bios.Console.{bios_readline}
use turning_machine_operatin.Bios.Console.Lines.{typed, Reads, bios_readline_lem}
use turning_machine_operatin.Bios.Files.{load_loop, bios_runfile}
use turning_machine_operatin.Bios.Files.Load.{IsRun, bios_runfile_lem}
use turning_machine_operatin.Examples.OnFs.{blank}

-- "ab" waits, around the end of the ring.
abbrev queue : Queue
queue = record { out = λ i. (if i == 1023 then 97 else 98); head = 1; tail = 1023 }

queue-IsQueue : IsQueue queue
queue-IsQueue = record { head_in = omega arith; tail_in = omega arith }

out_queue_push_lem_example :
    let pushed = out_queue_push queue 99 in
    IsQueue pushed.1
    × (((waiting queue ≡ 1023) × (pushed ≡ (false, queue)))
        ⊎ ((waiting queue < 1023)
            × (pushed.0 ≡ true)
            × (contents pushed.1 ≡ contents queue ++ (99 ∷ []))))
out_queue_push_lem_example = out_queue_push_lem queue 99 queue-IsQueue

bios_get_output_lem_example :
    let got = bios_get_output queue in
    IsQueue got.1
    × (((contents queue ≡ []) × (bios_pending_output queue ≡ false) × (got ≡ (0, queue)))
        ⊎ ((bios_pending_output queue ≡ true) × (contents queue ≡ got.0 ∷ contents got.1)))
bios_get_output_lem_example = bios_get_output_lem queue queue-IsQueue

abbrev text : List ℕ
text = 99 ∷ 100 ∷ []

push_all_lem_example :
    IsQueue (push_all queue text)
    × (contents (push_all queue text) ≡ take 1023 (contents queue ++ text))
push_all_lem_example = push_all_lem queue text queue-IsQueue

drain_lem_example :
    ((drain 1024 queue).0 ≡ contents queue) × (bios_pending_output (drain 1024 queue).1 ≡ false)
drain_lem_example = drain_lem 1024 queue queue-IsQueue (omega arith)

-- "dirx", the last character rubbed out, a line end, and one more character.
abbrev keys : List ℕ
keys = 100 ∷ 105 ∷ 114 ∷ 120 ∷ 8 ∷ []

abbrev pub world : World
world = record {
  bios = record {
    queue = queue;
    disk = 0;
    track = 0;
    sector = 1;
    dma = 128;
    type_name = λ i. 0;
    type_len = 0;
    run_loaded = 0;
    shell_line = λ i. 0;
    shell_line_len = 0;
  };
  fs = blank;
  machine = record { cpu = cpu_init; mem = mem_init };
  input = keys ++ (13 ∷ 65 ∷ []);
}

bios_readline_lem_example : Reads (typed keys []) (65 ∷ []) (bios_readline world)
bios_readline_lem_example =
    bios_readline_lem keys 13 (65 ∷ []) world (refl, (refl, (refl, (refl, (refl, tt))))) refl refl

typed_line : typed keys [] ≡ (114 ∷ 105 ∷ 100 ∷ [])
typed_line = refl

bios_runfile_lem_example :
    let w' = bios_runfile world in
    (mem_read w'.machine.mem 0x4000 ≡ mem_read world.machine.mem 0x4000)
    × (w'.bios.type_len ≡ 0)
    × IsRun world w'
    × (load_loop 0x3F01 0 0x0100 blank mem_init ≡ load_loop 0x4000 0 0x0100 blank mem_init)
bios_runfile_lem_example =
    bios_runfile_lem world 0x4000 0x3F01 0 blank mem_init (inr (omega arith)) (omega arith)
