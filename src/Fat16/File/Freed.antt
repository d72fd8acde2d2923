-- ===== src/Fat16/File/Freed.antt =====
-- Freeing the clusters of a file (src/fat16.rs: `free_cluster_chain`).
use sil_os.Prelude.{
  ℕ, zero, suc, ◌+◌, ◌^◌, ◌≤◌, ◌<◌, ◌≡◌, ◌≢◌, ◌⊎◌, refl, sym, ◌∙◌, inl, inr, arith, true, false,
  ◌&&◌, some, ltb, leb, ◌==◌, if◌then◌else◌, Bool-cases,
}
use sil_os.Fat16.{Bpb, Disk, IsDisk}
use sil_os.Fat16.Table.{get_fat_entry, set_fat_entry}
use sil_os.Fat16.Table.Entries.{
  set_fat_entry-IsDisk, get-set_fat_entry_self, get-set_fat_entry_ne, set_fat_entry_other,
}
use sil_os.Fat16.File.Confined.{Reaches, here, onward, Reaches-clear}
use mathlib.Core.Path.{subst}
use sil_os.Fat16.File.{free_chain, free_cluster_chain}

-- What freeing the chain from `start` did. An entry is read where its number leads, also past the end
-- of a table that has fewer than 2 ^ 16.
pub record Freed (b : Bpb) (start : ℕ) (d d' : Disk) : Type 0 where
  pub disk : IsDisk d'
  pub entry : (c : ℕ) → (get_fat_entry b c d' ≡ 0) ⊎ (get_fat_entry b c d' ≡ get_fat_entry b c d)
  pub reserved : (c : ℕ) → c < 2 → get_fat_entry b c d' ≡ get_fat_entry b c d
  pub kept : (c : ℕ) → ¬ Reaches b d c start → get_fat_entry b c d' ≡ get_fat_entry b c d
  pub outside : (l : ℕ) → (l < b.reserved_sectors) ⊎ (b.reserved_sectors + 256 ≤ l) → d' l ≡ d l
  pub first : 2 ≤ start → start < 0xFFF8 → get_fat_entry b start d' ≡ 0

module _ (b : Bpb) where
  -- How many of the first `n` entries are in use.
  abbrev used : ℕ → Disk → ℕ
  used zero d = 0
  used (suc n) d = (if get_fat_entry b n d == 0 then 0 else 1) + used n d

  used_bound : (n : ℕ) (d : Disk) → used n d ≤ n
  used_bound zero d = omega arith
  used_bound (suc n) d = ground (arith, used_bound n d)

  used-clear_ge : (n c : ℕ) (d : Disk) → n ≤ c → used n (set_fat_entry b c 0 d) ≡ used n d
  used-clear_ge zero c d h = refl
  used-clear_ge (suc n) c d h =
      ground (arith, used-clear_ge n c d (omega arith), get-set_fat_entry_ne b c 0 d n)

  used-clear :
      (n c : ℕ) (d : Disk)
      → IsDisk d
      → c < n
      → get_fat_entry b c d ≢ 0
      → suc (used n (set_fat_entry b c 0 d)) ≡ used n d
  used-clear zero c d h l ne = absurd (omega arith)
  used-clear (suc n) c d h l ne = elim (Bool-cases (c == n)) [
    | inl e ↦
        ground (
          arith,
          used-clear_ge n c d (ground arith),
          get-set_fat_entry_self b c 0 d (omega arith) h,
        )
    | inr e ↦ ground (arith, used-clear n c d h (ground arith) ne, get-set_fat_entry_ne b c 0 d n)
  ]

  stops :
      (f c : ℕ) (d : Disk) → (leb 2 c && ltb c 0xFFF8) ≡ false → free_chain (suc f) b c d ≡ some d
  unfolding free_chain
  stops f c d e = rw (e, free_chain) refl

  goes_on :
      (f c : ℕ) (d : Disk)
      → (leb 2 c && ltb c 0xFFF8) ≡ true
      → free_chain (suc f) b c d ≡ free_chain f b (get_fat_entry b c d) (set_fat_entry b c 0 d)
  unfolding free_chain
  goes_on f c d e = rw (e, free_chain) refl

  Freed-stop : (c : ℕ) (d : Disk) → IsDisk d → (leb 2 c && ltb c 0xFFF8) ≡ false → Freed b c d d
  Freed-stop c d h e = record {
    disk = h;
    entry = λ i. inr refl;
    reserved = λ i l. refl;
    kept = λ i away. refl;
    outside = λ l out. refl;
    first = λ l g. absurd (ground arith);
  }

  module _ (c : ℕ) (d : Disk) (h : IsDisk d) (l : 2 ≤ c) (m : c < 0xFFF8) where
    cleared : get_fat_entry b c (set_fat_entry b c 0 d) ≡ 0
    cleared = get-set_fat_entry_self b c 0 d (omega arith) h

    Freed-step :
        (next : ℕ) (d' : Disk)
        → get_fat_entry b c d ≡ next
        → Freed b next (set_fat_entry b c 0 d) d'
        → Freed b c d d'
    Freed-step next d' n r = record {
      disk = r.disk;
      entry = λ i. elim (Bool-cases (c == i)) [
        | inl e ↦ elim (r.entry i) [ inl z ↦ inl z | inr k ↦ inl (ground (arith, k, cleared)) ]
        | inr e ↦ elim (r.entry i) [
          | inl z ↦ inl z
          | inr k ↦ inr (k ∙ get-set_fat_entry_ne b c 0 d i (ground arith))
        ]
      ];
      reserved = λ i m. r.reserved i m ∙ get-set_fat_entry_ne b c 0 d i (omega arith);
      kept = λ i away.
          r.kept i (λ q.
            away (onward l m (subst (λ y. Reaches b d i y) (sym n) (Reaches-clear b c d i h q))))
          ∙ get-set_fat_entry_ne b c 0 d i (λ q. away (subst (λ y. Reaches b d y c) q (here l m)));
      outside = λ i out. r.outside i out ∙ set_fat_entry_other b c 0 d i (omega arith);
      first = λ g _. elim (r.entry c) [ inl z ↦ z | inr k ↦ k ∙ cleared ];
    }

  -- A chain that is at a free cluster ends at the next round.
  free_chain-end :
      (f c : ℕ) (d : Disk)
      → IsDisk d
      → (leb 2 c && ltb c 0xFFF8) ≡ true
      → get_fat_entry b c d ≡ 0
      → (d' : Disk) × (free_chain (suc (suc f)) b c d ≡ some d') × Freed b c d d'
  free_chain-end f c d h e z =
      let d1 = set_fat_entry b c 0 d in
      (
        d1,
        goes_on (suc f) c d e ∙ ((λ i. free_chain (suc f) b (z i) d1) ∙ stops f 0 d1 refl),
        Freed-step c d h (ground arith) (ground arith) 0 d1 z
            (Freed-stop 0 d1 (set_fat_entry-IsDisk b c 0 d h) refl),
      )

  -- Each round but the last two clears an entry that is in use, of the first `n`.
  free_chain-Freed :
      (n f c : ℕ) (d : Disk)
      → 0xFFF8 ≤ n
      → IsDisk d
      → used n d + 2 ≤ f
      → (d' : Disk) × (free_chain f b c d ≡ some d') × Freed b c d d'
  free_chain-Freed n zero c d g h m = absurd (omega arith)
  free_chain-Freed n (suc zero) c d g h m = absurd (omega arith)
  free_chain-Freed n (suc (suc f)) c d g h m = elim (Bool-cases (leb 2 c && ltb c 0xFFF8)) [
    | inr e ↦ (d, stops (suc f) c d e, Freed-stop c d h e)
    | inl e ↦ elim (Bool-cases (get_fat_entry b c d == 0)) [
      | inl z ↦ free_chain-end f c d h e (ground arith)
      | inr ne ↦
          let fewer : suc (used n (set_fat_entry b c 0 d)) ≡ used n d =
            used-clear n c d h (ground arith) (ground arith) in
          let (d', eq, r) =
            free_chain-Freed n (suc f) (get_fat_entry b c d) (set_fat_entry b c 0 d) g
              (set_fat_entry-IsDisk b c 0 d h) (omega (arith, fewer, m)) in
          (
            d',
            goes_on (suc f) c d e ∙ eq,
            Freed-step c d h (ground arith) (ground arith) (get_fat_entry b c d) d' refl r,
          )
    ]
  ]

  enough :
      (n f c : ℕ) (d : Disk)
      → 0xFFF8 ≤ n
      → n + 2 ≤ f
      → IsDisk d
      → (d' : Disk) × (free_chain f b c d ≡ some d') × Freed b c d d'
  enough n f c d g m h = free_chain-Freed n f c d g h (omega (arith, used_bound n d))

  -- On any disk of 512-byte sectors and from any cluster, `free_cluster_chain` ends, also where
  -- the chain is a cycle or leads nowhere. Every entry that the chain does not come to is as it
  -- was, and so are the two reserved ones; an entry that changed is 0, and the first cluster of the
  -- chain is free. Only the 256 sectors change that 16-bit cluster numbers address from the
  -- table's start, of which a smaller table has fewer.
  pub free_cluster_chain-Freed :
      (start_cluster : ℕ) (d : Disk)
      → IsDisk d
      → (d' : Disk) × (free_cluster_chain b start_cluster d ≡ some d') × Freed b start_cluster d d'
  unfolding free_cluster_chain
  free_cluster_chain-Freed start_cluster d h =
      enough (2 ^ 16) (2 ^ 16 + 2) start_cluster d (omega arith) (omega arith) h
