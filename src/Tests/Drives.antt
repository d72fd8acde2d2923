-- ===== src/Tests/Drives.antt =====
-- The driver on a small simulated drive (src/ide.rs).
use sil_os.Prelude.{
  ℕ, zero, suc, ◌+◌, ◌*◌, ◌/◌, ◌%◌, ◌<◌, ◌≡◌, refl, ap, sym, ◌≤◌, arith, true, false, some, List,
  [], ◌∷◌, ◌++◌, ◌==◌, length, if◌then◌else◌, replicate,
}
use sil_os.Fat16.{write_block}
use sil_os.Ide.{new, Bus, is_busy, is_requesting, read_sector, write_sector_bytes}
use sil_os.Ide.Protocol.{
  Phase, sending, receiving, Drive, requests, unit_of, lba_of, put_sector, IsReady, IsAta,
}
use sil_os.Ide.Transfer.{AllBytes, bytes_nil, bytes_cons}
use sil_os.Ide.Sectors.{low_of_word, high_of_word}
use sil_os.Ide.Driver.{driver-refines}

abbrev status_of : ℕ → Drive → ℕ × Drive
status_of zero d = (if requests d.phase then 0x48 else 0x40, d)
status_of (suc n) d = (0x80, record d { busy = n })

abbrev word_of : Phase → Drive → ℕ × Drive
word_of (sending (a ∷ b ∷ rest)) d = (b * 256 + a, record d { phase = sending rest })
word_of _ d = (0, d)

abbrev sim_read : ℕ → Drive → ℕ × Drive
sim_read port d =
    if port == 0x1F7
    then status_of d.busy d
    else if port == 0x1F0
    then word_of d.phase d
    else (0, d)

abbrev take_word : ℕ → Phase → Drive → Drive
take_word v (receiving u l got) d =
    let bytes = got ++ v % 256 ∷ v / 256 % 256 ∷ [] in
    if length got + 2 == 512
    then (record d { busy = 0; phase = sending []; disks = put_sector u l bytes d.disks })
    else (record d { phase = receiving u l bytes })
take_word v (sending bytes) d = d

abbrev run_command : ℕ → Drive → Drive
run_command v d =
    if v == 0x20
    then (record d { busy = 2; phase = sending (d.disks (unit_of d) (lba_of d)) })
    else if v == 0x30
    then (record d { busy = 2; phase = receiving (unit_of d) (lba_of d) [] })
    else (record d { busy = 2 })

abbrev sim_write : ℕ → ℕ → Drive → Drive
sim_write port v d =
    if port == 0x1F0
    then take_word v d.phase d
    else if port == 0x1F2
    then (record d { sector_count = v })
    else if port == 0x1F3
    then (record d { lba_low = v })
    else if port == 0x1F4
    then (record d { lba_mid = v })
    else if port == 0x1F5
    then (record d { lba_high = v })
    else if port == 0x1F6
    then (record d { device = v })
    else run_command v d

abbrev pub sim : Bus Drive
sim = record { read_port = sim_read; write_port = sim_write }

abbrev pub same_drive : Drive → Drive
same_drive d = d

-- Two reads of the status behind a command, none behind the last word of a sector.
abbrev pub delay_of : Phase → ℕ
delay_of (sending bytes) = 2
delay_of (receiving u l got) = 0

delay_of_sending : (p : Phase) → p ≡ sending [] → delay_of p ≡ 2
delay_of_sending p e = ap delay_of e

delay_of_receiving : (p : Phase) (u l : ℕ) (got : List ℕ) → p ≡ receiving u l got → delay_of p ≡ 0
delay_of_receiving p u l got e = ap delay_of e

pub delay_of_small : (p : Phase) → delay_of p ≤ 2
delay_of_small (sending bytes) = omega arith
delay_of_small (receiving u l got) = omega arith

abbrev pub two : Drive → ℕ
two d = delay_of d.phase

sim-busy :
    (s : Drive) (k n : ℕ)
    → k ≡ suc n
    → (is_busy (status_of k s).0 ≡ true) × ((status_of k s).1 ≡ record s { busy = n })
sim-busy s zero n e = absurd (omega arith)
sim-busy s (suc k) n e = let q : k ≡ n = omega (arith, e) in (refl, λ i. record s { busy = q i })

sim-ready :
    (s : Drive) (k : ℕ)
    → k ≡ 0
    → (is_busy (status_of k s).0 ≡ false)
      × (is_requesting (status_of k s).0 ≡ requests s.phase)
      × ((status_of k s).1 ≡ s)
sim-ready s zero e = (ground arith, ground arith, refl)
sim-ready s (suc k) e = absurd (omega arith)

sim-in :
    (s : Drive) (p : Phase) (a b : ℕ) (rest : List ℕ)
    → p ≡ sending (a ∷ b ∷ rest)
    → ((word_of p s).0 ≡ b * 256 + a) × ((word_of p s).1 ≡ record s { phase = sending rest })
sim-in s p a b rest e = rw e (refl, refl)

not_last : (n : ℕ) → n + 2 < 512 → (n + 2 == 512) ≡ false
not_last n h = ground arith

last_word : (n : ℕ) → n + 2 ≡ 512 → (n + 2 == 512) ≡ true
last_word n h = ground arith

sim-out :
    (s : Drive) (p : Phase) (u l : ℕ) (got : List ℕ) (a b : ℕ)
    → p ≡ receiving u l got
    → a < 256
    → b < 256
    → length got + 2 < 512
    → take_word (b * 256 + a) p s ≡ record s { phase = receiving u l (got ++ a ∷ b ∷ []) }
sim-out s p u l got a b e x y h =
    rw e (rw (low_of_word a b x, high_of_word a b x y, not_last (length got) h) refl)

sim-last :
    (s : Drive) (p : Phase) (u l : ℕ) (got : List ℕ) (a b : ℕ)
    → p ≡ receiving u l got
    → a < 256
    → b < 256
    → length got + 2 ≡ 512
    → take_word (b * 256 + a) p s ≡ record s {
      busy = delay_of p;
      phase = sending [];
      disks = put_sector u l (got ++ a ∷ b ∷ []) s.disks;
    }
sim-last s p u l got a b e x y h =
    rw e (rw (low_of_word a b x, high_of_word a b x y, last_word (length got) h) refl)

pub sim-IsAta : IsAta sim same_drive two
sim-IsAta = record {
  status_busy = λ s n e. sim-busy s s.busy n e;
  status_ready = λ s e. sim-ready s s.busy e;
  set_sector_count = λ s v r. refl;
  set_lba_low = λ s v r. refl;
  set_lba_mid = λ s v r. refl;
  set_lba_high = λ s v r. refl;
  set_device = λ s v r. refl;
  read_command = λ s r a i. record s {
    busy = sym (delay_of_sending s.phase r.no_transfer) i;
    phase = sending (s.disks (unit_of s) (lba_of s));
  };
  write_command = λ s r a i. record s {
    busy = sym (delay_of_sending s.phase r.no_transfer) i;
    phase = receiving (unit_of s) (lba_of s) [];
  };
  data_in = λ s a b rest e p x y. sim-in s s.phase a b rest p;
  data_out = λ s u l got a b e p x y h. sim-out s s.phase u l got a b p x y h;
  data_last = λ s u l got a b e p x y h. sim-last s s.phase u l got a b p x y h;
  flush_command = λ s z p i. record s { busy = sym (delay_of_sending s.phase p) i };
}

replicate-AllBytes : (n b : ℕ) → b < 256 → AllBytes (replicate n b)
replicate-AllBytes zero b h = bytes_nil
replicate-AllBytes (suc n) b h = bytes_cons h (replicate-AllBytes n b h)

abbrev pub idle : Drive
idle = record {
  device = 0xE0;
  sector_count = 0;
  lba_low = 0;
  lba_mid = 0;
  lba_high = 0;
  busy = 0;
  phase = sending [];
  disks = λ u l. replicate 512 (u + 3);
}

driver-refines_example :
    ((s' : Drive) × (read_sector sim new 3 300 idle ≡ some (replicate 512 4, s'))
      × IsReady s'
      × (s'.disks ≡ idle.disks))
    × ((s' : Drive) × (write_sector_bytes sim new 3 300 (replicate 512 7) idle ≡ some s')
        × IsReady s'
        × (s'.disks 1 ≡ write_block 300 (replicate 512 7) (idle.disks 1))
        × (s'.disks 0 ≡ idle.disks 0))
driver-refines_example =
    driver-refines sim same_drive two sim-IsAta 2 300 idle
      (record { not_busy = refl; no_transfer = refl }) (λ t. delay_of_small t.phase) (omega arith)
      (replicate 512 7) (λ s u l got p full. delay_of_receiving s.phase u l got p) refl
      (replicate-AllBytes 512 4 (omega arith)) refl (replicate-AllBytes 512 7 (omega arith))
