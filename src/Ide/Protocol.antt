-- ===== src/Ide/Protocol.antt =====
-- What ATA promises of the ports 0x1F0 to 0x1F7 (src/ide.rs relies on it): the view of a state of the
-- hardware as registers, a transfer and two disks.
use sil_os.Prelude.{
  ℕ, suc, ◌+◌, ◌*◌, ◌/◌, ◌%◌, ◌^◌, ◌<◌, ◌≡◌, Bool, true, false, List, [], ◌∷◌, ◌++◌, ◌==◌, length,
  if◌then◌else◌,
}
use sil_os.Fat16.{Disk, write_block}
use sil_os.Ide.{Bus, is_busy, is_requesting}

-- The bytes that the host will read, or those that it has written, for this drive and LBA.
pub data Phase : Type 0 where
  sending : List ℕ → Phase
  receiving : ℕ → ℕ → List ℕ → Phase

-- `busy` counts the reads of the status that will show the busy bit.
pub record Drive : Type 0 where
  pub device : ℕ
  pub sector_count : ℕ
  pub lba_low : ℕ
  pub lba_mid : ℕ
  pub lba_high : ℕ
  pub busy : ℕ
  pub phase : Phase
  pub disks : ℕ → Disk

abbrev pub requests : Phase → Bool
requests (sending []) = false
requests (sending (b ∷ bytes)) = true
requests (receiving u l bytes) = true

-- Bit 4 of the device register selects the drive, its low bits are the high bits of the LBA.
abbrev pub unit_of : Drive → ℕ
unit_of d = d.device / 16 % 2

abbrev pub lba_of : Drive → ℕ
lba_of d = d.device % 16 * 2 ^ 24 + d.lba_high * 2 ^ 16 + d.lba_mid * 2 ^ 8 + d.lba_low

abbrev pub put_sector : ℕ → ℕ → List ℕ → (ℕ → Disk) → ℕ → Disk
put_sector u l bytes disks v = if v == u then write_block l bytes (disks v) else disks v

-- Neither busy nor within a transfer.
pub record IsReady (d : Drive) : Type 0 where
  pub not_busy : d.busy ≡ 0
  pub no_transfer : d.phase ≡ sending []

-- One sector, addressed by its LBA.
pub record IsAddressed (d : Drive) : Type 0 where
  pub one : d.sector_count ≡ 1
  pub by_lba : d.device / 64 % 2 ≡ 1

-- A drive with a write cache, which is not busy behind the last word of a sector.
abbrev pub TakesLastWord : {S : Type 0} → (S → Drive) → (S → ℕ) → Type 0
TakesLastWord {S} view delay =
    (s : S) (u l : ℕ) (got : List ℕ)
    → (view s).phase ≡ receiving u l got
    → length got + 2 ≡ 512
    → delay s ≡ 0

pub record IsAta {S : Type 0} (bus : Bus S) (view : S → Drive) (delay : S → ℕ) : Type 0 where
  pub status_busy :
      (s : S) (n : ℕ)
      → (view s).busy ≡ suc n
      → (is_busy (bus.read_port 0x1F7 s).0 ≡ true)
        × (view (bus.read_port 0x1F7 s).1 ≡ record (view s) { busy = n })
  pub status_ready :
      (s : S)
      → (view s).busy ≡ 0
      → (is_busy (bus.read_port 0x1F7 s).0 ≡ false)
        × (is_requesting (bus.read_port 0x1F7 s).0 ≡ requests (view s).phase)
        × (view (bus.read_port 0x1F7 s).1 ≡ view s)
  pub set_sector_count :
      (s : S) (v : ℕ)
      → IsReady (view s)
      → view (bus.write_port 0x1F2 v s) ≡ record (view s) { sector_count = v }
  pub set_lba_low :
      (s : S) (v : ℕ)
      → IsReady (view s)
      → view (bus.write_port 0x1F3 v s) ≡ record (view s) { lba_low = v }
  pub set_lba_mid :
      (s : S) (v : ℕ)
      → IsReady (view s)
      → view (bus.write_port 0x1F4 v s) ≡ record (view s) { lba_mid = v }
  pub set_lba_high :
      (s : S) (v : ℕ)
      → IsReady (view s)
      → view (bus.write_port 0x1F5 v s) ≡ record (view s) { lba_high = v }
  pub set_device :
      (s : S) (v : ℕ)
      → IsReady (view s)
      → view (bus.write_port 0x1F6 v s) ≡ record (view s) { device = v }
  -- READ SECTORS and WRITE SECTORS.
  pub read_command :
      (s : S)
      → IsReady (view s)
      → IsAddressed (view s)
      → view (bus.write_port 0x1F7 0x20 s) ≡ record (view s) {
        busy = delay s;
        phase = sending ((view s).disks (unit_of (view s)) (lba_of (view s)));
      }
  pub write_command :
      (s : S)
      → IsReady (view s)
      → IsAddressed (view s)
      → view (bus.write_port 0x1F7 0x30 s) ≡ record (view s) {
        busy = delay s;
        phase = receiving (unit_of (view s)) (lba_of (view s)) [];
      }
  -- A word has its low byte first.
  pub data_in :
      (s : S) (a b : ℕ) (rest : List ℕ)
      → (view s).busy ≡ 0
      → (view s).phase ≡ sending (a ∷ b ∷ rest)
      → a < 256
      → b < 256
      → ((bus.read_port 0x1F0 s).0 ≡ b * 256 + a)
        × (view (bus.read_port 0x1F0 s).1 ≡ record (view s) { phase = sending rest })
  pub data_out :
      (s : S) (u l : ℕ) (got : List ℕ) (a b : ℕ)
      → (view s).busy ≡ 0
      → (view s).phase ≡ receiving u l got
      → a < 256
      → b < 256
      → length got + 2 < 512
      → view (bus.write_port 0x1F0 (b * 256 + a) s)
        ≡ record (view s) { phase = receiving u l (got ++ a ∷ b ∷ []) }
  pub data_last :
      (s : S) (u l : ℕ) (got : List ℕ) (a b : ℕ)
      → (view s).busy ≡ 0
      → (view s).phase ≡ receiving u l got
      → a < 256
      → b < 256
      → length got + 2 ≡ 512
      → view (bus.write_port 0x1F0 (b * 256 + a) s) ≡ record (view s) {
        busy = delay s;
        phase = sending [];
        disks = put_sector u l (got ++ a ∷ b ∷ []) (view s).disks;
      }
  -- FLUSH CACHE. A command is taken only by a drive that is not busy and not within a transfer.
  pub flush_command :
      (s : S)
      → (view s).busy ≡ 0
      → (view s).phase ≡ sending []
      → view (bus.write_port 0x1F7 0xE7 s) ≡ record (view s) { busy = delay s }
