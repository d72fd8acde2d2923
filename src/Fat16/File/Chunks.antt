-- ===== src/Fat16/File/Chunks.antt =====
-- One round of the writing loop: what it stores and what it leaves alone.
use sil_os.Prelude.{
  ℕ, ◌+◌, ◌*◌, ◌/◌, ◌^◌, ◌≤◌, ◌<◌, ◌≡◌, ◌≢◌, ◌⊎◌, ◌∙◌, sym, ap, inl, inr, List, Option, none, some,
  arith, tests, ◌==◌, ltb, Bool-cases, ==→eq, ==→ne, length, take,
}
use sil_os.Fat16.{Bpb, Disk, IsDisk}
use sil_os.Fat16.Table.{get_fat_entry, set_fat_entry}
use sil_os.Fat16.Table.Entries.{
  set_fat_entry_other, set_fat_entry-IsDisk, get-set_fat_entry_self, get-set_fat_entry_ne,
}
use sil_os.Fat16.Table.Closed.{IsClosed, set_fat_entry-IsClosed, IsClosed-cong}
use sil_os.Fat16.Table.Free.{IsFirstFree}
use sil_os.Fat16.Volume.{
  IsGeometry, entries, cluster_to_lba, cluster_start, cluster_start_bound, cluster_to_lba_lem,
  first_data_sector, clusters_apart, table_before_root,
}
use sil_os.Fat16.Data.{write_sectors}
use sil_os.Fat16.Data.Sectors.{
  write_sectors-IsDisk, write_sectors_other, sectors_bytes-write_sectors,
}
use sil_os.Fat16.Data.Chain.{cluster_bytes}
use sil_os.Fat16.File.{link_cluster}

-- A disk with a volume on it. The entries 0 and 1 stand for no cluster and are never free.
pub record IsVolume (b : Bpb) (d : Disk) : Type 0 where
  pub geometry : IsGeometry b
  pub disk : IsDisk d
  pub entry_0 : get_fat_entry b 0 d ≢ 0
  pub entry_1 : get_fat_entry b 1 d ≢ 0

-- What the writing loop keeps of `d`: every used entry but that of the cluster `prev`, the bytes
-- of every used cluster, and all sectors before the clusters but those of the table.
pub record Keeps (b : Bpb) (prev : Option ℕ) (d d' : Disk) : Type 0 where
  pub disk : IsDisk d'
  pub entry :
      (k : ℕ)
      → k < entries b
      → get_fat_entry b k d ≢ 0
      → some k ≢ prev
      → get_fat_entry b k d' ≡ get_fat_entry b k d
  pub used : (k : ℕ) → k < entries b → get_fat_entry b k d ≢ 0 → get_fat_entry b k d' ≢ 0
  pub bytes :
      (k : ℕ)
      → 2 ≤ k
      → k < entries b
      → get_fat_entry b k d ≢ 0
      → (i : ℕ) → i < b.sectors_per_cluster
      → d' (cluster_start b k + i) ≡ d (cluster_start b k + i)
  pub outside :
      (l : ℕ)
      → l < first_data_sector b
      → (l < b.reserved_sectors) ⊎ (b.reserved_sectors + b.sectors_per_fat ≤ l)
      → d' l ≡ d l
  pub closed : IsClosed b d → IsClosed b d'

-- The cluster before the new one, if there is one, is in use.
abbrev pub IsUsed : Bpb → Disk → Option ℕ → Type 0
IsUsed b d none = Unit
IsUsed b d (some p) = (p < entries b) × (get_fat_entry b p d ≢ 0)

module _ (b : Bpb) (d : Disk) (v : IsVolume b d) (c : ℕ) (free : IsFirstFree b d c) where
  pub two-le : 2 ≤ c
  two-le = elim (Bool-cases (c == 0)) [
    | inl z ↦ absurd (v.entry_0 (rw (==→eq c 0 z) at free.free))
    | inr nz ↦ elim (Bool-cases (c == 1)) [
      | inl o ↦ absurd (v.entry_1 (rw (==→eq c 1 o) at free.free))
      | inr nz1 ↦ omega (arith, ==→ne c 0 nz, ==→ne c 1 nz1)
    ]
  ]

  pub in_table : c < 0xFF00
  in_table = let g = v.geometry in omega (arith, free.below, g.fat_size)

  -- The table after the two writes of `link_cluster`.
  linked-IsDisk : (prev : Option ℕ) → IsDisk (link_cluster b prev c d)
  unfolding link_cluster
  linked-IsDisk none = set_fat_entry-IsDisk b c 0xFFFF d v.disk
  linked-IsDisk (some p) = set_fat_entry-IsDisk b p c _ (set_fat_entry-IsDisk b c 0xFFFF d v.disk)

  linked_end :
      (prev : Option ℕ) → IsUsed b d prev → get_fat_entry b c (link_cluster b prev c d) ≡ 0xFFFF
  unfolding link_cluster
  linked_end none u = get-set_fat_entry_self b c 0xFFFF d (omega arith) v.disk
  linked_end (some p) u =
      get-set_fat_entry_ne b p c _ c (λ e. u.1 (rw e free.free))
      ∙ get-set_fat_entry_self b c 0xFFFF d (omega arith) v.disk

  linked_previous : (p : ℕ) → get_fat_entry b p (link_cluster b (some p) c d) ≡ c
  unfolding link_cluster
  linked_previous p =
      get-set_fat_entry_self b p c _ (omega (arith, in_table))
        (set_fat_entry-IsDisk b c 0xFFFF d v.disk)

  linked_entry :
      (prev : Option ℕ) (k : ℕ)
      → get_fat_entry b k d ≢ 0
      → some k ≢ prev
      → get_fat_entry b k (link_cluster b prev c d) ≡ get_fat_entry b k d
  unfolding link_cluster
  linked_entry none k used ne = get-set_fat_entry_ne b c 0xFFFF d k (λ e. used (rw (← e) free.free))
  linked_entry (some p) k used ne =
      get-set_fat_entry_ne b p c _ k (λ e. ne (ap some (sym e)))
      ∙ get-set_fat_entry_ne b c 0xFFFF d k (λ e. used (rw (← e) free.free))

  linked_used :
      (prev : Option ℕ) (k : ℕ)
      → get_fat_entry b k d ≢ 0
      → get_fat_entry b k (link_cluster b prev c d) ≢ 0
  linked_used none k used = rw (linked_entry none k used (λ e. cc)) used
  linked_used (some p) k used = elim (Bool-cases (k == p)) [
    | inl same ↦ rw (==→eq k p same, linked_previous p) (omega (arith, two-le))
    | inr other ↦ rw (linked_entry (some p) k used (λ e. ==→ne k p other (cc))) used
  ]

  linked_outside :
      (prev : Option ℕ) (l : ℕ)
      → IsUsed b d prev
      → (l < b.reserved_sectors) ⊎ (b.reserved_sectors + b.sectors_per_fat ≤ l)
      → link_cluster b prev c d l ≡ d l
  unfolding link_cluster
  linked_outside none l u out = set_fat_entry_other b c 0xFFFF d l (omega (arith, free.below))
  linked_outside (some p) l u out =
      set_fat_entry_other b p c _ l (omega (arith, u.0))
      ∙ set_fat_entry_other b c 0xFFFF d l (omega (arith, free.below))

  marked-IsClosed : IsClosed b d → IsClosed b (set_fat_entry b c 0xFFFF d)
  marked-IsClosed = set_fat_entry-IsClosed b c 0xFFFF d (omega arith) v.disk (inr (omega arith))

  linked-IsClosed : (prev : Option ℕ) → IsClosed b d → IsClosed b (link_cluster b prev c d)
  unfolding link_cluster
  linked-IsClosed none closed = marked-IsClosed closed
  linked-IsClosed (some p) closed =
      set_fat_entry-IsClosed b p c _ (omega (arith, in_table))
        (set_fat_entry-IsDisk b c 0xFFFF d v.disk) (inl free.below) (marked-IsClosed closed)

-- The disk after a round: the table is linked and the chunk is in the cluster's sectors.
abbrev pub stored : Bpb → Option ℕ → ℕ → List ℕ → Disk → Disk
stored b prev c chunk d =
    write_sectors b.sectors_per_cluster 0 (cluster_to_lba b c) chunk (link_cluster b prev c d)

module _ (b : Bpb) (d : Disk) (v : IsVolume b d) (c : ℕ) (free : IsFirstFree b d c)
    (prev : Option ℕ) (u : IsUsed b d prev) (chunk : List ℕ) where
  start : cluster_to_lba b c ≡ cluster_start b c
  start =
      cluster_to_lba_lem b v.geometry c (two-le b d v c free) (omega (arith, in_table b d v c free))

  fits_32 : cluster_start b c + b.sectors_per_cluster < 2 ^ 26
  fits_32 = cluster_start_bound b v.geometry c (omega (arith, in_table b d v c free))

  stored_other :
      (l : ℕ)
      → (l < cluster_start b c) ⊎ (cluster_start b c + b.sectors_per_cluster ≤ l)
      → stored b prev c chunk d l ≡ link_cluster b prev c d l
  stored_other l out = rw start (
      write_sectors_other b.sectors_per_cluster 0 (cluster_start b c) chunk _ l
        (omega (arith, fits_32)) (omega arith))

  -- The table's sectors lie before all clusters.
  stored_table :
      (k : ℕ)
      → k < entries b
      → get_fat_entry b k (stored b prev c chunk d) ≡ get_fat_entry b k (link_cluster b prev c d)
  unfolding get_fat_entry
  stored_table k inside = rw (
      stored_other (b.reserved_sectors + k * 2 / 512)
        (inl (omega (arith, table_before_root b v.geometry))))

  pub stored_end : get_fat_entry b c (stored b prev c chunk d) ≡ 0xFFFF
  stored_end = stored_table c free.below ∙ linked_end b d v c free prev u

  pub stored_previous : (p : ℕ) → prev ≡ some p → get_fat_entry b p (stored b prev c chunk d) ≡ c
  stored_previous p e =
      let w : IsUsed b d (some p) = rw e at u in
      stored_table p w.0 ∙ rw e (linked_previous b d v c free p)

  pub stored_bytes :
      length chunk ≤ b.sectors_per_cluster * 512
      → take (length chunk) (cluster_bytes b c (stored b prev c chunk d)) ≡ chunk
  stored_bytes fits = rw start (
      sectors_bytes-write_sectors b.sectors_per_cluster (cluster_start b c) chunk
        (link_cluster b prev c d) (omega (arith, fits_32)) fits)

  -- Another cluster that is in use has other sectors.
  stored_cluster :
      (k : ℕ)
      → 2 ≤ k
      → get_fat_entry b k d ≢ 0
      → (i : ℕ) → i < b.sectors_per_cluster
      → stored b prev c chunk d (cluster_start b k + i) ≡ d (cluster_start b k + i)
  stored_cluster k two used i lt =
      let ne : k ≢ c = λ e. used (rw (← e) at free.free) in
      let l = cluster_start b k + i in
      let apart : (l < cluster_start b c) ⊎ (cluster_start b c + b.sectors_per_cluster ≤ l) =
        elim (Bool-cases (ltb k c)) [
          | inl below ↦ inl (omega (tests, clusters_apart b v.geometry k c (omega tests) ne two))
          | inr above ↦ inr (
              omega (
                tests,
                clusters_apart b v.geometry c k (omega tests) (λ e. ne (sym e))
                    (two-le b d v c free),
              ))
        ] in
      stored_other l apart
      ∙ linked_outside b d v c free prev l u (inr (omega (arith, table_before_root b v.geometry)))

  -- A round keeps all that `Keeps` lists.
  pub stored-Keeps : Keeps b prev d (stored b prev c chunk d)
  stored-Keeps = record {
    disk = write_sectors-IsDisk b.sectors_per_cluster 0 _ chunk _ (linked-IsDisk b d v c free prev);
    entry = λ k inside used ne. stored_table k inside ∙ linked_entry b d v c free prev k used ne;
    used = λ k inside used. rw (stored_table k inside) (linked_used b d v c free prev k used);
    bytes = λ k two inside used i lt. stored_cluster k two used i lt;
    outside = λ l before out.
        stored_other l (inl (omega arith)) ∙ linked_outside b d v c free prev l u out;
    closed = λ closed.
        IsClosed-cong b (link_cluster b prev c d) (stored b prev c chunk d) stored_table
          (linked-IsClosed b d v c free prev closed);
  }
