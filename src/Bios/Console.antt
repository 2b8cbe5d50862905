-- ===== src/Bios/Console.antt =====
-- The console and line calls of src/bios/bios.c, and its calls on single sectors and variables.
pub mod Lines
use turning_machine_operatin.Base.{
  ℕ, zero, suc, ◌+◌, ◌-◌, Bool, true, false, ◌||◌, List, [], ◌∷◌, leb, ltb, ◌==◌, if◌then◌else◌,
  put, overlay, cells, bit_or, ◌<<◌, u8, u16,
}
use turning_machine_operatin.Cpu.State.{Cpu, Machine}
use turning_machine_operatin.Fs.State.{fs_read_sector, fs_write_sector}
use turning_machine_operatin.Bios.State.{Bios, World, with_bios, with_cpu, print}

-- The loop's end: the line's length is kept and its text closed.
unfoldable pub close_line : World → ℕ → World
close_line w len =
    let line = put w.bios.shell_line (if ltb len 128 then len else 127) 0 in
    with_bios w (record w.bios { shell_line_len = len; shell_line = line })

-- The length and the world after one character that does not end the line.
unfoldable pub edit_line : ℕ → ℕ → World → ℕ × World
edit_line ch len w =
    let stored = with_bios w (record w.bios { shell_line = put w.bios.shell_line len ch }) in
    if ch == 8 || ch == 127
    then (if ltb 0 len then (len - 1, print w (8 ∷ 32 ∷ 8 ∷ [])) else (len, w))
    else if ltb len 128
    then (len + 1, stored)
    else (len, w)

-- The loop reads one character each round.
unfoldable pub readline_loop : List ℕ → ℕ → World → World
unfolding close_line edit_line
readline_loop [] len w = with_cpu (record w { input = [] }) (record w.machine.cpu { halted = 1 })
readline_loop (ch ∷ rest) len w =
    let (len₁, w₁) = edit_line ch len w in
    let later = readline_loop rest len₁ w₁ in
    if ch == 10 || ch == 13 then close_line (record w { input = rest }) len else later

unfoldable pub bios_readline : World → World
bios_readline w =
    let cleared = record w.bios { shell_line_len = 0; shell_line = put w.bios.shell_line 0 0 } in
    readline_loop w.input 0 (with_bios w cleared)

unfoldable pub bios_lineget : World → World
bios_lineget w =
    let idx = w.machine.cpu.c in
    let ch =
      if leb w.bios.shell_line_len idx || leb 128 idx then 0 else u8 (w.bios.shell_line idx) in
    with_cpu w (record w.machine.cpu { a = ch })

unfoldable pub bios_linelen : World → World
bios_linelen w =
    let len = w.bios.shell_line_len in
    with_cpu w (record w.machine.cpu { a = if ltb 255 len then 255 else u8 len })

unfoldable pub bios_conin : World → World
bios_conin w = elim w.input [
  | [] ↦ with_cpu w (record w.machine.cpu { a = 0 })
  | ch ∷ rest ↦ with_cpu (record w { input = rest }) (record w.machine.cpu { a = u8 ch })
]

unfoldable pub bios_conout : World → World
bios_conout w = print w (w.machine.cpu.c ∷ [])

unfoldable pub bios_seldisk : World → World
bios_seldisk w = with_bios w (record w.bios { disk = w.machine.cpu.c })

unfoldable pub bios_settrk : World → World
bios_settrk w = with_bios w (record w.bios { track = w.machine.cpu.c })

unfoldable pub bios_setsec : World → World
bios_setsec w = with_bios w (record w.bios { sector = w.machine.cpu.c })

unfoldable pub bios_setdma : World → World
bios_setdma w =
    let cpu = w.machine.cpu in
    with_bios w (record w.bios { dma = u16 (bit_or (u16 cpu.d << 8) cpu.e) })

abbrev pub bios_sector_size : ℕ
bios_sector_size = 256

-- The sector goes to the tape at the DMA address, also where the read fails part of the way.
unfoldable pub bios_read : World → World
bios_read w =
    let (ok, got, fs₁) = fs_read_sector w.fs w.bios.track w.bios.sector in
    let cpu = w.machine.cpu in
    if ltb 65536 (w.bios.dma + bios_sector_size)
    then with_cpu w (record cpu { a = 1 })
    else record w {
      fs = fs₁;
      machine = record {
        cpu = record cpu { a = if ok then 0 else 1 };
        mem = overlay w.machine.mem w.bios.dma got;
      };
    }

unfoldable pub bios_write : World → World
bios_write w =
    let sent = cells w.machine.mem w.bios.dma bios_sector_size in
    let (ok, fs₁) = fs_write_sector w.fs w.bios.track w.bios.sector sent in
    let cpu = w.machine.cpu in
    if ltb 65536 (w.bios.dma + bios_sector_size)
    then with_cpu w (record cpu { a = 1 })
    else with_cpu (record w { fs = fs₁ }) (record cpu { a = if ok then 0 else 1 })

-- Room is left for the closing NUL.
unfoldable pub bios_namech : World → World
bios_namech w =
    let b = w.bios in
    if ltb b.type_len 255
    then with_bios w (record b {
      type_name = put b.type_name b.type_len w.machine.cpu.c;
      type_len = b.type_len + 1;
    })
    else w
