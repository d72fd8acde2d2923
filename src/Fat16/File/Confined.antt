-- ===== src/Fat16/File/Confined.antt =====
-- Where `free_cluster_chain` writes, and what it leaves alone (src/fat16.rs).
use sil_os.Prelude.{
  ℕ, zero, suc, ◌+◌, ◌^◌, ◌≤◌, ◌<◌, ◌≡◌, ◌≢◌, ◌⊎◌, refl, ◌∙◌, inl, inr, arith, false, ◌&&◌, some,
  ltb, leb, ◌==◌, Bool-cases, ==→eq, ==→ne,
}
use mathlib.Core.Path.{subst}
use sil_os.Fat16.{Bpb, Disk, IsDisk}
use sil_os.Fat16.Volume.{entries}
use sil_os.Fat16.Table.{get_fat_entry, set_fat_entry}
use sil_os.Fat16.Table.Entries.{
  set_fat_entry-IsDisk, set_fat_entry_other, get-set_fat_entry_self, get-set_fat_entry_ne,
}
use sil_os.Fat16.Table.Closed.{IsLink, IsClosed, set_fat_entry-IsClosed}
use sil_os.Fat16.File.{free_chain, free_cluster_chain}

-- The chain from `c` comes to the cluster `k`.
pub data Reaches (b : Bpb) (d : Disk) (k : ℕ) : ℕ → Type 0 where
  here : 2 ≤ k → k < 0xFFF8 → Reaches b d k k
  onward : {c : ℕ} → 2 ≤ c → c < 0xFFF8 → Reaches b d k (get_fat_entry b c d) → Reaches b d k c

module _ (b : Bpb) where
  stops :
      (f c : ℕ) (d : Disk) → (leb 2 c && ltb c 0xFFF8) ≡ false → free_chain (suc f) b c d ≡ some d
  unfolding free_chain
  stops f c d e = rw (e, free_chain) refl

  cleared-IsClosed :
      (c : ℕ) (d : Disk)
      → IsDisk d
      → c < entries b
      → IsClosed b d
      → IsClosed b (set_fat_entry b c 0 d)
  cleared-IsClosed c d h l = set_fat_entry-IsClosed b c 0 d (omega arith) h (inl (omega arith))

  -- Freeing a chain of such a table writes the sectors of its first copy alone.
  free_chain-outside :
      (f c : ℕ) (d d' : Disk)
      → IsDisk d
      → IsClosed b d
      → IsLink b c
      → free_chain f b c d ≡ some d'
      → (l : ℕ) → (l < b.reserved_sectors) ⊎ (b.reserved_sectors + b.sectors_per_fat ≤ l)
      → d' l ≡ d l
  unfolding free_chain
  free_chain-outside zero c d d' h closed link e l out = cc
  free_chain-outside (suc f) c d d' h closed link e l out =
      elim (Bool-cases (leb 2 c && ltb c 0xFFF8)) [
        | inr stop ↦ let same : some d ≡ some d' = rw (stop, free_chain) at e in cc
        | inl go ↦
            let d1 = set_fat_entry b c 0 d in
            let inside : c < entries b = ground arith in
            free_chain-outside f (get_fat_entry b c d) d1 d' (set_fat_entry-IsDisk b c 0 d h)
              (cleared-IsClosed c d h inside closed) (closed c inside) (rw (go, free_chain) at e) l
              out
            ∙ set_fat_entry_other b c 0 d l (omega arith)
      ]

  free_chain-IsClosed :
      (f c : ℕ) (d d' : Disk)
      → IsDisk d
      → IsClosed b d
      → IsLink b c
      → free_chain f b c d ≡ some d'
      → IsClosed b d'
  unfolding free_chain
  free_chain-IsClosed zero c d d' h closed link e = cc
  free_chain-IsClosed (suc f) c d d' h closed link e = elim (Bool-cases (leb 2 c && ltb c 0xFFF8)) [
    | inr stop ↦
        let same : some d ≡ some d' = rw (stop, free_chain) at e in subst (IsClosed b) (cc) closed
    | inl go ↦
        let inside : c < entries b = ground arith in
        free_chain-IsClosed f (get_fat_entry b c d) (set_fat_entry b c 0 d) d'
          (set_fat_entry-IsDisk b c 0 d h) (cleared-IsClosed c d h inside closed) (closed c inside)
          (rw (go, free_chain) at e)
  ]

  no_way : (d : Disk) (k : ℕ) {x : ℕ} → x < 2 → Reaches b d k x → ⊥
  no_way d k l (here two m) = omega arith
  no_way d k l (onward two m r) = omega arith

  -- Clearing an entry opens no way to another.
  pub Reaches-clear :
      (c : ℕ) (d : Disk) (k : ℕ) {x : ℕ}
      → IsDisk d
      → Reaches b (set_fat_entry b c 0 d) k x
      → Reaches b d k x
  Reaches-clear c d k h (here two m) = here two m
  Reaches-clear c d k h (onward {c = x} two m r) = elim (Bool-cases (c == x)) [
    | inl e ↦
        let cleared : get_fat_entry b x (set_fat_entry b c 0 d) ≡ 0 =
          rw (← ==→eq c x e) (get-set_fat_entry_self b c 0 d (omega arith) h) in
        absurd (no_way (set_fat_entry b c 0 d) k (omega (arith, cleared)) r)
    | inr e ↦ onward two m (
        subst (λ y. Reaches b d k y) (get-set_fat_entry_ne b c 0 d x (==→ne c x e))
          (Reaches-clear c d k h r))
  ]

  -- Freeing a chain leaves the entries that the chain does not come to.
  free_chain-entry :
      (f c : ℕ) (d d' : Disk)
      → IsDisk d
      → free_chain f b c d ≡ some d'
      → (k : ℕ) → ¬ Reaches b d k c
      → get_fat_entry b k d' ≡ get_fat_entry b k d
  unfolding free_chain
  free_chain-entry zero c d d' h e k away = cc
  free_chain-entry (suc f) c d d' h e k away = elim (Bool-cases (leb 2 c && ltb c 0xFFF8)) [
    | inr stop ↦ let same : some d ≡ some d' = rw (stop, free_chain) at e in cc
    | inl go ↦
        let two : 2 ≤ c = ground arith in
        let m : c < 0xFFF8 = ground arith in
        let ne : c ≢ k = λ q. away (subst (λ y. Reaches b d y c) q (here two m)) in
        free_chain-entry f (get_fat_entry b c d) (set_fat_entry b c 0 d) d'
          (set_fat_entry-IsDisk b c 0 d h) (rw (go, free_chain) at e) k
          (λ r. away (onward two m (Reaches-clear c d k h r)))
        ∙ get-set_fat_entry_ne b c 0 d k ne
  ]

  module _ (start_cluster : ℕ) (d d' : Disk) (h : IsDisk d)
      (e : free_cluster_chain b start_cluster d ≡ some d') where
    pub free_cluster_chain-outside :
        IsClosed b d
        → IsLink b start_cluster
        → (l : ℕ) → (l < b.reserved_sectors) ⊎ (b.reserved_sectors + b.sectors_per_fat ≤ l)
        → d' l ≡ d l
    unfolding free_cluster_chain
    free_cluster_chain-outside closed link =
        free_chain-outside (2 ^ 16 + 2) start_cluster d d' h closed link e

    pub free_cluster_chain-IsClosed : IsClosed b d → IsLink b start_cluster → IsClosed b d'
    unfolding free_cluster_chain
    free_cluster_chain-IsClosed closed link =
        free_chain-IsClosed (2 ^ 16 + 2) start_cluster d d' h closed link e

    pub free_cluster_chain-entry :
        (k : ℕ) → ¬ Reaches b d k start_cluster → get_fat_entry b k d' ≡ get_fat_entry b k d
    unfolding free_cluster_chain
    free_cluster_chain-entry = free_chain-entry (2 ^ 16 + 2) start_cluster d d' h e

Reaches-below : (b : Bpb) (d : Disk) (k : ℕ) {c : ℕ} → Reaches b d k c → c < 0xFFF8
Reaches-below b d k (here two m) = m
Reaches-below b d k (onward two m r) = m

-- A chain of one cluster comes to no other.
pub Reaches-one :
    (b : Bpb) (d : Disk) (k : ℕ) {c : ℕ} → 0xFFF8 ≤ get_fat_entry b c d → Reaches b d k c → c ≡ k
Reaches-one b d k e (here two m) = refl
Reaches-one b d k e (onward two m r) = absurd (omega (arith, Reaches-below b d k r))
