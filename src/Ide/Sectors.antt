-- ===== src/Ide/Sectors.antt =====
-- Reading and writing whole sectors (src/ide.rs: `read_sector`, `write_sector_bytes`), against the disk
-- that the file system is modelled on.
use sil_os.Prelude.{
  ℕ, zero, suc, ◌+◌, ◌*◌, ◌/◌, ◌%◌, ◌^◌, ◌<◌, ◌≤◌, ◌≡◌, refl, sym, ap, ◌∙◌, arith, true, some, List,
  [], ◌∷◌, ◌++◌, length, append_assoc, length-append,
}
use mathlib.Core.Path.{subst}
use sil_os.Fat16.{read_block}
use sil_os.Ide.{new, Bus, select, read_words, write_words, read_sector}
use sil_os.Ide.Protocol.{
  sending, receiving, Drive, requests, unit_of, lba_of, put_sector, IsReady, IsAddressed, IsAta,
}
use sil_os.Ide.Transfer.{
  AllBytes, bytes_cons, addressed, lba_of-addressed, unit_of-addressed, addressed-IsAddressed,
  select-view, wait-busy, wait-request,
}

pub low_of_word : (a b : ℕ) → a < 256 → (b * 256 + a) % 256 ≡ a
low_of_word a b h = omega arith

pub high_of_word : (a b : ℕ) → a < 256 → b < 256 → (b * 256 + a) / 256 % 256 ≡ b
high_of_word a b h g = omega arith

requests-nonempty : (bytes : List ℕ) → 0 < length bytes → requests (sending bytes) ≡ true
requests-nonempty [] h = absurd (omega arith)
requests-nonempty (b ∷ bytes) h = refl

module _ {S : Type 0} (bus : Bus S) (view : S → Drive) (delay : S → ℕ)
    (ata : IsAta bus view delay) where
  read_words-sending :
      (n : ℕ) (s : S) (bytes : List ℕ)
      → (view s).busy ≡ 0
      → (view s).phase ≡ sending bytes
      → length bytes ≡ n * 2
      → AllBytes bytes
      → ((read_words bus new n s).0 ≡ bytes)
        × (view (read_words bus new n s).1 ≡ record (view s) { phase = sending [] })
  unfolding read_words
  read_words-sending zero s [] e p l h = (refl, λ i. record (view s) { phase = p i })
  read_words-sending zero s (a ∷ bytes) e p l h = absurd (omega arith)
  read_words-sending (suc n) s [] e p l h = absurd (omega arith)
  read_words-sending (suc n) s (a ∷ []) e p l h = absurd (omega arith)
  read_words-sending (suc n) s (a ∷ b ∷ rest) e p l (bytes_cons x (bytes_cons y h)) =
      let (word, seen) = ata.data_in s a b rest e p x y in
      let s1 = (bus.read_port 0x1F0 s).1 in
      let (read, left) =
        read_words-sending n s1 rest ((λ i. (seen i).busy) ∙ e) (λ i. (seen i).phase) (omega arith)
          h in
      (
        (rw (word, low_of_word a b x, high_of_word a b x y, read) refl),
        left ∙ λ i. record (seen i) { phase = sending [] },
      )

  -- The state behind the last word, and the one before it.
  abbrev pub Stored : ℕ → ℕ → List ℕ → Drive → Drive → Type 0
  Stored u l bytes d d' =
      (k : ℕ) × (d'
        ≡ record d { busy = k; phase = sending []; disks = put_sector u l bytes d.disks })
      × (t : S) × (got : List ℕ) × ((view t).phase ≡ receiving u l got)
      × (length got + 2 ≡ 512)
      × (k ≡ delay t)

  pub write_words-receiving :
      (m : ℕ) (s : S) (u l : ℕ) (got rest : List ℕ)
      → (view s).busy ≡ 0
      → (view s).phase ≡ receiving u l got
      → length rest ≡ m * 2 + 2
      → length got + length rest ≡ 512
      → AllBytes rest
      → Stored u l (got ++ rest) (view s) (view (write_words bus new rest s))
  unfolding write_words
  write_words-receiving m s u l got [] e p n t h = absurd (omega arith)
  write_words-receiving m s u l got (a ∷ []) e p n t h = absurd (omega arith)
  write_words-receiving m s u l got (a ∷ b ∷ []) e p n t (bytes_cons x (bytes_cons y h)) =
      (delay s, ata.data_last s u l got a b e p x y (omega arith), s, got, p, omega arith, refl)
  write_words-receiving zero s u l got (a ∷ b ∷ c ∷ rest) e p n t h = absurd (omega arith)
  write_words-receiving (suc m) s u l got (a ∷ b ∷ c ∷ rest) e p n t
        (bytes_cons x (bytes_cons y h)) =
      let seen = ata.data_out s u l got a b e p x y (omega arith) in
      let s1 = bus.write_port 0x1F0 (b * 256 + a) s in
      let (k, left, w, before, receives, full, behind) =
        write_words-receiving m s1 u l (got ++ a ∷ b ∷ []) (c ∷ rest) ((λ i. (seen i).busy) ∙ e)
          (λ i. (seen i).phase) (omega arith) (omega (arith, length-append got (a ∷ b ∷ []))) h in
      (
        k,
        left ∙ λ i. record (seen i) {
          busy = k;
          phase = sending [];
          disks = put_sector u l (append_assoc got (a ∷ b ∷ []) (c ∷ rest) i) (seen i).disks;
        },
        w,
        before,
        receives,
        full,
        behind,
      )

  module _ (n lba : ℕ) (s : S) (ready : IsReady (view s)) (soon : (t : S) → delay t ≤ n)
      (l : lba < 2 ^ 28) where
    -- The state behind the selection, its view and its addressing.
    abbrev pub chosen : S
    chosen = select bus new lba s

    pub chosen-view : view chosen ≡ addressed lba (view s)
    chosen-view = select-view bus view delay ata lba s ready

    pub chosen-IsReady : IsReady (view chosen)
    chosen-IsReady =
        subst IsReady (sym chosen-view)
          (record { not_busy = ready.not_busy; no_transfer = ready.no_transfer })

    pub chosen-IsAddressed : IsAddressed (view chosen)
    chosen-IsAddressed = subst IsAddressed (sym chosen-view) (addressed-IsAddressed lba (view s))

    pub chosen-unit : unit_of (view chosen) ≡ 1
    chosen-unit = ap unit_of chosen-view ∙ unit_of-addressed lba (view s)

    pub chosen-lba : lba_of (view chosen) ≡ lba
    chosen-lba = ap lba_of chosen-view ∙ lba_of-addressed lba (view s) l

    -- The drive with the whole sector to send.
    abbrev loaded : List ℕ → Drive
    loaded bytes = record (addressed lba (view s)) { busy = 0; phase = sending bytes }

    issued : S
    issued = bus.write_port 0x1F7 0x20 chosen

    issued-view : view issued ≡ record (addressed lba (view s)) {
      busy = delay chosen;
      phase = sending ((view s).disks 1 lba);
    }
    unfolding issued
    issued-view = ata.read_command chosen chosen-IsReady chosen-IsAddressed ∙ λ i.
        record (chosen-view i) {
          busy = delay chosen;
          phase = sending ((chosen-view i).disks (chosen-unit i) (chosen-lba i));
        }

    fetched :
        0 < length ((view s).disks 1 lba)
        → (s2 : S) × (read_sector bus new (suc n) lba s ≡ some (read_words bus new 256 s2))
          × (view s2 ≡ loaded ((view s).disks 1 lba))
    unfolding read_sector issued
    fetched size =
        let (s1, waited, calm) =
          wait-busy bus view delay ata (suc n) (delay chosen) issued (λ i. (issued-view i).busy)
            (omega (arith, soon chosen)) in
        let calm' : view s1 ≡ loaded ((view s).disks 1 lba) =
          calm ∙ λ i. record (issued-view i) { busy = 0 } in
        let (s2, asked, seen) =
          wait-request bus view delay ata n s1 (λ i. (calm' i).busy)
            (ap requests (λ i. (calm' i).phase) ∙ requests-nonempty _ size) in
        (s2, (rw (waited, read_sector) (rw asked refl)), seen ∙ calm')

    -- The sector is read, and the drive is ready with the same disks.
    abbrev pub Reads : Type 0
    Reads =
        (s' : S) × (read_sector bus new (suc n) lba s
          ≡ some (read_block lba ((view s).disks 1), s'))
        × IsReady (view s')
        × ((view s').disks ≡ (view s).disks)

    pub read_sector-Reads :
        length ((view s).disks 1 lba) ≡ 512 → AllBytes ((view s).disks 1 lba) → Reads
    unfolding read_sector
    read_sector-Reads size all =
        let (s2, got, seen) = fetched (omega (arith, size)) in
        let (bytes, left) =
          read_words-sending 256 s2 ((view s).disks 1 lba) (λ i. (seen i).busy)
            (λ i. (seen i).phase) size all in
        let done = left ∙ λ i. record (seen i) { phase = sending [] } in
        (
          (read_words bus new 256 s2).1,
          (got ∙ λ i. some (bytes i, (read_words bus new 256 s2).1)),
          (record { not_busy = λ i. (done i).busy; no_transfer = λ i. (done i).phase }),
          λ i. (done i).disks,
        )
