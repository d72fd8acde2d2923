-- ===== src/Ide/Transfer.antt =====
-- The driver on a drive that keeps the protocol (src/ide.rs): the steps of a transfer.
use sil_os.Prelude.{
  ℕ, zero, suc, ◌+◌, ◌/◌, ◌%◌, ◌^◌, ◌<◌, ◌≡◌, refl, sym, ◌∙◌, arith, true, some, List, [], ◌∷◌,
}
use mathlib.Core.Path.{subst}
use sil_os.Ide.{new, Bus, is_busy, wait_while, wait_request, select}
use sil_os.Ide.Protocol.{Drive, requests, unit_of, lba_of, IsReady, IsAddressed, IsAta}

pub data AllBytes : List ℕ → Type 0 where
  bytes_nil : AllBytes []
  bytes_cons : {b : ℕ} {s : List ℕ} → b < 256 → AllBytes s → AllBytes (b ∷ s)

-- The registers once a sector is selected.
abbrev pub addressed : ℕ → Drive → Drive
addressed lba d = record d {
  device = 0xF0 + lba / 2 ^ 24 % 16;
  sector_count = 1;
  lba_low = lba % 256;
  lba_mid = lba / 2 ^ 8 % 256;
  lba_high = lba / 2 ^ 16 % 256;
}

pub lba_of-addressed : (lba : ℕ) (d : Drive) → lba < 2 ^ 28 → lba_of (addressed lba d) ≡ lba
lba_of-addressed lba d h = omega arith

pub unit_of-addressed : (lba : ℕ) (d : Drive) → unit_of (addressed lba d) ≡ 1
unit_of-addressed lba d = omega arith

pub addressed-IsAddressed : (lba : ℕ) (d : Drive) → IsAddressed (addressed lba d)
addressed-IsAddressed lba d = record { one = refl; by_lba = omega arith }

module _ {S : Type 0} (bus : Bus S) (view : S → Drive) (delay : S → ℕ)
    (ata : IsAta bus view delay) where
  -- A state whose view this is.
  abbrev Shows : Drive → S → Type 0
  Shows d s = view s ≡ d

  IsReady-still : (s : S) (d : Drive) → view s ≡ d → IsReady d → IsReady (view s)
  IsReady-still s d e r = subst IsReady (sym e) r

  pub select-view :
      (lba : ℕ) (s : S) → IsReady (view s) → view (select bus new lba s) ≡ addressed lba (view s)
  unfolding select
  select-view lba s r =
      let d1 : Drive = record (view s) { device = 0xF0 + lba / 2 ^ 24 % 16 } in
      let s1 = bus.write_port 0x1F6 (0xF0 + lba / 2 ^ 24 % 16) s in
      let e1 : view s1 ≡ d1 = ata.set_device s (0xF0 + lba / 2 ^ 24 % 16) r in
      let s2 = bus.write_port 0x1F2 1 s1 in
      let d2 : Drive = record d1 { sector_count = 1 } in
      let e2 : view s2 ≡ d2 =
        ata.set_sector_count s1 1 (IsReady-still s1 d1 e1 (moved d1 refl refl))
        ∙ (λ i. record (e1 i) { sector_count = 1 }) in
      let s3 = bus.write_port 0x1F3 (lba % 256) s2 in
      let d3 : Drive = record d2 { lba_low = lba % 256 } in
      let e3 : view s3 ≡ d3 =
        ata.set_lba_low s2 (lba % 256) (IsReady-still s2 d2 e2 (moved d2 refl refl))
        ∙ (λ i. record (e2 i) { lba_low = lba % 256 }) in
      let s4 = bus.write_port 0x1F4 (lba / 2 ^ 8 % 256) s3 in
      let d4 : Drive = record d3 { lba_mid = lba / 2 ^ 8 % 256 } in
      let e4 : view s4 ≡ d4 =
        ata.set_lba_mid s3 (lba / 2 ^ 8 % 256) (IsReady-still s3 d3 e3 (moved d3 refl refl))
        ∙ (λ i. record (e3 i) { lba_mid = lba / 2 ^ 8 % 256 }) in
      ata.set_lba_high s4 (lba / 2 ^ 16 % 256) (IsReady-still s4 d4 e4 (moved d4 refl refl))
      ∙ (λ i. record (e4 i) { lba_high = lba / 2 ^ 16 % 256 })
    where
      moved : (d : Drive) → d.busy ≡ (view s).busy → d.phase ≡ (view s).phase → IsReady d
      moved d b p = record { not_busy = b ∙ r.not_busy; no_transfer = p ∙ r.no_transfer }

  -- The wait for the busy bit.
  pub wait-busy :
      (n k : ℕ) (s : S)
      → (view s).busy ≡ k
      → k < n
      → (s' : S) × (wait_while bus new is_busy n s ≡ some s')
        × (view s' ≡ record (view s) { busy = 0 })
  unfolding wait_while
  wait-busy zero k s e h = absurd (omega arith)
  wait-busy (suc n) zero s e h =
      let (calm, _, same) = ata.status_ready s e in
      (
        (bus.read_port 0x1F7 s).1,
        (rw (calm, wait_while) refl),
        same ∙ λ i. record (view s) { busy = e i },
      )
  wait-busy (suc n) (suc k) s e h =
      let (busy, less) = ata.status_busy s k e in
      let (s', waited, seen) =
        wait-busy n k (bus.read_port 0x1F7 s).1 (λ i. (less i).busy) (omega arith) in
      (s', (rw (busy, wait_while) waited), seen ∙ (λ i. record (less i) { busy = 0 }))

  -- A request that is there already.
  pub wait-request :
      (n : ℕ) (s : S)
      → (view s).busy ≡ 0
      → requests (view s).phase ≡ true
      → (s' : S) × (wait_request bus new (suc n) s ≡ some s') × (view s' ≡ view s)
  unfolding wait_while
  wait-request n s e q =
      let (_, asked, same) = ata.status_ready s e in
      ((bus.read_port 0x1F7 s).1, (rw (asked, wait_while) (rw q refl)), same)
