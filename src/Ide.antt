-- ===== src/Ide.antt =====
-- The driver of the ATA drive (src/ide.rs: `AtaDrive`), over the reads and writes of ports, which are
-- the x86_64 crate's and the hardware's. A loop that waits is over fuel; `none` says that it ran out.
pub mod Protocol
pub mod Transfer
pub mod Sectors
pub mod Driver
use sil_os.Prelude.{
  ℕ, zero, suc, ◌+◌, ◌*◌, ◌/◌, ◌%◌, ◌^◌, Bool, true, false, not, Option, none, some, List, [], ◌∷◌,
  ◌==◌, if◌then◌else◌, get_or,
}

pub record AtaDrive : Type 0 where
  pub data_port : ℕ
  pub error : ℕ
  pub sector_count : ℕ
  pub lba_low : ℕ
  pub lba_mid : ℕ
  pub lba_high : ℕ
  pub device : ℕ
  pub command : ℕ
  pub status : ℕ

abbrev pub new : AtaDrive
new = record {
  data_port = 0x1F0;
  error = 0x1F1;
  sector_count = 0x1F2;
  lba_low = 0x1F3;
  lba_mid = 0x1F4;
  lba_high = 0x1F5;
  device = 0x1F6;
  command = 0x1F7;
  status = 0x1F7;
}

-- `Port::read` and `Port::write`, which change the state of what is connected.
pub record Bus (S : Type 0) : Type 0 where
  pub read_port : ℕ → S → ℕ × S
  pub write_port : ℕ → ℕ → S → S

-- The bits 0x80, 0x08 and 0x01 of the status.
abbrev pub is_busy : ℕ → Bool
is_busy v = v / 128 % 2 == 1

abbrev pub is_requesting : ℕ → Bool
is_requesting v = v / 8 % 2 == 1

abbrev pub is_error : ℕ → Bool
is_error v = v % 2 == 1

module _ {S : Type 0} (bus : Bus S) (drive : AtaDrive) where
  -- `while` the status passes the test.
  unfoldable pub wait_while : (ℕ → Bool) → ℕ → S → Option S
  wait_while test zero s = none
  wait_while test (suc n) s =
      let (v, s') = bus.read_port drive.status s in
      let rest = wait_while test n s' in if test v then rest else some s'

  -- `while (self.status.read() & 0x08) == 0 {}`
  abbrev pub wait_request : ℕ → S → Option S
  wait_request n s = wait_while (λ v. not (is_requesting v)) n s

  -- The registers that name a sector.
  unfoldable pub select : ℕ → S → S
  select lba s =
      let s1 = bus.write_port drive.device (0xF0 + lba / 2 ^ 24 % 16) s in
      let s2 = bus.write_port drive.sector_count 1 s1 in
      let s3 = bus.write_port drive.lba_low (lba % 256) s2 in
      let s4 = bus.write_port drive.lba_mid (lba / 2 ^ 8 % 256) s3 in
      bus.write_port drive.lba_high (lba / 2 ^ 16 % 256) s4

  -- `for i in 0..n`: the bytes of the words that are read.
  unfoldable pub read_words : ℕ → S → List ℕ × S
  read_words zero s = ([], s)
  read_words (suc n) s =
      let (word, s1) = bus.read_port drive.data_port s in
      let (buffer, s2) = read_words n s1 in (word % 256 ∷ word / 256 % 256 ∷ buffer, s2)

  abbrev pub and_then : {A : Type 0} → Option S → (S → Option A) → Option A
  and_then none k = none
  and_then (some s) k = k s

  unfoldable pub read_sector : ℕ → ℕ → S → Option (List ℕ × S)
  unfolding wait_while select read_words
  read_sector n lba s =
      and_then (wait_while is_busy n (bus.write_port drive.command 0x20 (select lba s)))
        λ s1. and_then (wait_request n s1) λ s2. some (read_words 256 s2)

  -- `for i in (0..512).step_by(2)`
  unfoldable pub write_words : List ℕ → S → S
  write_words [] s = s
  write_words (a ∷ []) s = s
  write_words (a ∷ b ∷ rest) s = write_words rest (bus.write_port drive.data_port (b * 256 + a) s)

  unfoldable pub flush_cache : ℕ → S → Option S
  unfolding wait_while
  flush_cache n s = wait_while is_busy n (bus.write_port drive.command 0xE7 s)

  unfoldable pub write_sector_bytes : ℕ → ℕ → List ℕ → S → Option S
  unfolding wait_while select write_words flush_cache
  write_sector_bytes n lba bytes s =
      and_then (wait_while is_busy n (bus.write_port drive.command 0x30 (select lba s)))
        λ s1. and_then (wait_request n s1) λ s2. flush_cache n (write_words bytes s2)

  -- `while .. { timeout += 1; if timeout > 1000000 { return 0; } }`: whether the drive was ready
  -- within this many reads.
  unfoldable pub wait_counted : ℕ → S → Bool × S
  wait_counted zero s = (false, s)
  wait_counted (suc n) s =
      let (v, s') = bus.read_port drive.status s in
      let rest = wait_counted n s' in if is_busy v then rest else (true, s')

  -- The words of `info`.
  unfoldable pub read_info : ℕ → S → List ℕ × S
  read_info zero s = ([], s)
  read_info (suc n) s =
      let (word, s1) = bus.read_port drive.data_port s in
      let (info, s2) = read_info n s1 in (word ∷ info, s2)

  unfoldable pub max_lba_of : List ℕ × S → ℕ × S
  max_lba_of (info, s) = (get_or info 61 0 * 2 ^ 16 + get_or info 60 0, s)

  abbrev pub info_read : Option S → Option (ℕ × S)
  info_read none = none
  info_read (some s) = some (max_lba_of (read_info 256 s))

  -- Once the drive is ready: an error, or the data.
  abbrev pub after_wait : ℕ → Bool × S → Option (ℕ × S)
  after_wait n (false, s) = some (0, s)
  after_wait n (true, s) =
      let (v, s') = bus.read_port drive.status s in
      if is_error v then some (0, s') else info_read (wait_request n s')

  unfoldable pub get_max_lba : ℕ → S → Option (ℕ × S)
  unfolding wait_while wait_counted read_info max_lba_of
  get_max_lba n s =
      let s1 = bus.write_port drive.command 0xEC (bus.write_port drive.device 0xA0 s) in
      let (status, s2) = bus.read_port drive.status s1 in
      if status == 0 then some (0, s2) else after_wait n (wait_counted 1000001 s2)
