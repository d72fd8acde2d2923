-- ===== src/Power/Quiet.antt =====
-- The order of a shutdown (src/power.rs).
use sil_os.Prelude.{ℕ, suc, ◌≤◌, ◌≡◌, refl, ◌∙◌, arith, some, utf8}
use sil_os.Vga.{write_string}
use sil_os.Vga.Printing.{IsWriter, write_string-IsWriter}
use sil_os.Ide.{Bus, new, flush_cache}
use sil_os.Ide.Protocol.{Drive, IsReady, IsAta}
use sil_os.Ide.Transfer.{wait-busy}
use sil_os.Power.{PowerState, off, teardown, power_ports, farewell, shutdown}

module _ {S : Type 0} (bus : Bus S) (disable : S → S) (view : S → Drive) (delay : S → ℕ)
    (ata : IsAta bus view delay) (n : ℕ) (soon : (t : S) → delay t ≤ n) (system : PowerState S)
    (ready : IsReady (view system.hardware)) where
  open system use {hardware}

  flushed :
      (s : S) × (flush_cache bus new (suc n) hardware ≡ some s)
      × (view s ≡ record (view hardware) { busy = 0 })
  unfolding flush_cache
  flushed =
      let told = ata.flush_command hardware ready.not_busy ready.no_transfer in
      let issued = bus.write_port 0x1F7 0xE7 hardware in
      let (s, waited, seen) =
        wait-busy bus view delay ata (suc n) (delay hardware) issued (λ i. (told i).busy)
          (omega (arith, soon hardware)) in
      (s, waited, seen ∙ (λ i. record (told i) { busy = 0 }))

  -- With an idle drive that keeps the ATA protocol and is ready within the fuel after each command,
  -- and a writer whose column is in its row, `shutdown` comes to its end. The hardware has then seen,
  -- in this order: the flush of the drive, awaited and with its disks as they were; the
  -- disabling of interrupts; the power-off ports of QEMU, Bochs and VirtualBox; and the exit device
  -- with the code 0x10. The screen has the farewell.
  pub shutdown-off :
      IsWriter system.writer
      → (s : S) × (end_state : PowerState S) × (flush_cache bus new (suc n) hardware ≡ some s)
        × (view s ≡ record (view hardware) { busy = 0 })
        × (shutdown bus disable (suc n) system ≡ off end_state)
        × (end_state.hardware
            ≡ bus.write_port 0xF4 0x10 (
                bus.write_port 0x4004 0x3400
                  (bus.write_port 0xB004 0x2000 (bus.write_port 0x604 0x2000 (disable s)))))
        × (write_string (utf8 farewell) system.writer ≡ some end_state.writer)
  unfolding shutdown teardown power_ports
  shutdown-off fits =
      let (s, waits, seen) = flushed in
      let (w, prints, i) = write_string-IsWriter (utf8 farewell) system.writer fits in
      (
        s,
        record system { hardware = power_ports bus (disable s); writer = w },
        waits,
        seen,
        rw (waits, shutdown, teardown) (rw (prints, shutdown) refl),
        refl,
        prints,
      )
