-- ===== src/Ide/Driver.antt =====
-- The driver and the disk of the file system's model (src/ide.rs: `read_sector`,
-- `write_sector_bytes`; src/fat16.rs relies on them).
use sil_os.Prelude.{ℕ, suc, ◌^◌, ◌<◌, ◌≤◌, ◌≡◌, refl, ◌∙◌, arith, some, List, [], length}
use sil_os.Fat16.{read_block, write_block}
use sil_os.Ide.{new, Bus, write_words, read_sector, write_sector_bytes, flush_cache}
use sil_os.Ide.Protocol.{
  sending, receiving, Drive, put_sector, requests, IsReady, IsAta, TakesLastWord,
}
use sil_os.Ide.Transfer.{AllBytes, addressed, wait-busy, wait-request}
use sil_os.Ide.Sectors.{
  chosen, chosen-view, chosen-IsReady, chosen-IsAddressed, chosen-unit, chosen-lba,
  write_words-receiving, read_sector-Reads,
}

module _ {S : Type 0} (bus : Bus S) (view : S → Drive) (delay : S → ℕ) (ata : IsAta bus view delay)
    (n lba : ℕ) (s : S) (ready : IsReady (view s)) (soon : (t : S) → delay t ≤ n)
    (l : lba < 2 ^ 28) where
  abbrev here : S
  here = chosen bus view delay ata n lba s ready soon l

  here-view : view here ≡ addressed lba (view s)
  here-view = chosen-view bus view delay ata n lba s ready soon l

  issued : S
  issued = bus.write_port 0x1F7 0x30 here

  abbrev taking : Drive
  taking = record (addressed lba (view s)) { busy = 0; phase = receiving 1 lba [] }

  issued-view :
      view issued
      ≡ record (addressed lba (view s)) { busy = delay here; phase = receiving 1 lba [] }
  unfolding issued
  issued-view =
      ata.write_command here (chosen-IsReady bus view delay ata n lba s ready soon l)
        (chosen-IsAddressed bus view delay ata n lba s ready soon l)
      ∙ λ i. record (here-view i) {
        busy = delay here;
        phase =
            receiving (chosen-unit bus view delay ata n lba s ready soon l i)
              (chosen-lba bus view delay ata n lba s ready soon l i) [];
      }

  accepted :
      (bytes : List ℕ)
      → (s2 : S) × (write_sector_bytes bus new (suc n) lba bytes s
          ≡ flush_cache bus new (suc n) (write_words bus new bytes s2))
        × (view s2 ≡ taking)
  unfolding write_sector_bytes issued
  accepted bytes =
      let (s1, waited, calm) =
        wait-busy bus view delay ata (suc n) (delay here) issued (λ i. (issued-view i).busy)
          (omega (arith, soon here)) in
      let calm' : view s1 ≡ taking = calm ∙ λ i. record (issued-view i) { busy = 0 } in
      let (s2, asked, seen) =
        wait-request bus view delay ata n s1 (λ i. (calm' i).busy)
          (λ i. requests (calm' i).phase) in
      (s2, (rw (waited, write_sector_bytes) (rw asked refl)), seen ∙ calm')

  -- The drive behind a sector's last word, flushed.
  abbrev flushing : S → S
  flushing s3 = bus.write_port 0x1F7 0xE7 s3

  flushed :
      (s3 : S)
      → (view s3).busy ≡ 0
      → (view s3).phase ≡ sending []
      → (s' : S) × (flush_cache bus new (suc n) s3 ≡ some s')
        × (view s' ≡ record (view s3) { busy = 0 })
  unfolding flush_cache
  flushed s3 z p =
      let sent = ata.flush_command s3 z p in
      let (s', waited, calm) =
        wait-busy bus view delay ata (suc n) (delay s3) (flushing s3) (λ i. (sent i).busy)
          (omega (arith, soon s3)) in
      (s', waited, calm ∙ λ i. record (sent i) { busy = 0 })

  write_sector_bytes-writes :
      (bytes : List ℕ)
      → TakesLastWord view delay
      → length bytes ≡ 512
      → AllBytes bytes
      → (s' : S) × (write_sector_bytes bus new (suc n) lba bytes s ≡ some s')
        × IsReady (view s')
        × ((view s').disks ≡ put_sector 1 lba bytes (view s).disks)
  write_sector_bytes-writes bytes cached size all =
      let (s2, took, seen) = accepted bytes in
      let (k, stored, t, got, receives, full, behind) =
        write_words-receiving bus view delay ata 255 s2 1 lba [] bytes (λ i. (seen i).busy)
          (λ i. (seen i).phase) (omega (arith, size)) (omega (arith, size)) all in
      let calm_behind = (λ i. (stored i).busy) ∙ behind ∙ cached t 1 lba got receives full in
      let (s', waited, calm) =
        flushed (write_words bus new bytes s2) calm_behind (λ i. (stored i).phase) in
      (
        s',
        took ∙ waited,
        (record {
          not_busy = λ i. (calm i).busy;
          no_transfer = (λ i. (calm i).phase) ∙ λ i. (stored i).phase;
        }),
        (λ i. (calm i).disks) ∙ (λ i. (stored i).disks) ∙ λ i.
            put_sector 1 lba bytes (seen i).disks,
      )

  -- On an idle drive that keeps the ATA protocol, is ready within the fuel after each command and is
  -- not busy behind the last word of a sector, for an LBA below 2 ^ 28 whose sector holds 512 bytes and for 512 bytes to write,
  -- `read_sector` returns the sector of the second disk and changes no disk, and
  -- `write_sector_bytes` stores the bytes in that sector of the second disk and leaves the first
  -- disk alone; both end and leave the drive idle.
  pub driver-refines :
      (bytes : List ℕ)
      → TakesLastWord view delay
      → length ((view s).disks 1 lba) ≡ 512
      → AllBytes ((view s).disks 1 lba)
      → length bytes ≡ 512
      → AllBytes bytes
      → ((s' : S) × (read_sector bus new (suc n) lba s
            ≡ some (read_block lba ((view s).disks 1), s'))
          × IsReady (view s')
          × ((view s').disks ≡ (view s).disks))
        × ((s' : S) × (write_sector_bytes bus new (suc n) lba bytes s ≡ some s')
            × IsReady (view s')
            × ((view s').disks 1 ≡ write_block lba bytes ((view s).disks 1))
            × ((view s').disks 0 ≡ (view s).disks 0))
  driver-refines bytes cached size all size' all' =
      let (s', wrote, ready', changed) = write_sector_bytes-writes bytes cached size' all' in
      (
        read_sector-Reads bus view delay ata n lba s ready soon l size all,
        (s', wrote, ready', (λ i. changed i 1), λ i. changed i 0),
      )
