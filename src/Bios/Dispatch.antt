-- ===== src/Bios/Dispatch.antt =====
-- `bios_dispatch` of src/bios/bios.c: the call whose number is in A.
use turning_machine_operatin.Base.{ℕ, Option, List, ◌==◌, if◌then◌else◌}
use turning_machine_operatin.Bios.State.{World, with_bios, with_cpu}
use turning_machine_operatin.Bios.Console.{
  bios_readline, bios_lineget, bios_linelen, bios_conin, bios_conout, bios_seldisk, bios_settrk,
  bios_setsec, bios_setdma, bios_read, bios_write, bios_namech,
}
use turning_machine_operatin.Bios.Files.{
  bios_runfile, bios_deletefile, bios_typefile, list_directory,
}
use turning_machine_operatin.Bios.Compile.{bios_cccompile}

module _ (compile : List ℕ → Option (List ℕ)) where
  -- The switch. Each case is picked before it is applied.
  unfoldable pub service : ℕ → World → World
  service number =
      if number == 0x01
      then bios_conin
      else if number == 0x02
      then bios_conout
      else if number == 0x09
      then bios_seldisk
      else if number == 0x0A
      then bios_settrk
      else if number == 0x0B
      then bios_setsec
      else if number == 0x0C
      then bios_setdma
      else if number == 0x0D
      then bios_read
      else if number == 0x0E
      then bios_write
      else if number == 0x12
      then bios_namech
      else if number == 0x13
      then bios_typefile
      else if number == 0x14
      then bios_runfile
      else if number == 0x15
      then bios_deletefile
      else if number == 0x16
      then bios_cccompile compile
      else if number == 0x17
      then bios_readline
      else if number == 0x18
      then bios_lineget
      else if number == 0x19
      then bios_linelen
      else if number == 0x0F
      then list_directory
      else (λ w. w)

  unfoldable pub bios_dispatch : World → World
  unfolding service
  bios_dispatch w =
      let started = with_bios w (record w.bios { run_loaded = 0 }) in
      let served = service w.machine.cpu.a started in
      with_cpu served (record served.machine.cpu { io_out_pending = 0 })
