-- ===== src/Fat16/Data/Chain.antt =====
-- Reading along a chain of clusters, one cluster at a time, and the end of the loop.
use sil_os.Prelude.{
  ℕ, zero, suc, ◌+◌, ◌-◌, ◌*◌, ◌%◌, ◌^◌, ◌≤◌, ◌<◌, min, ◌≡◌, refl, false, inl, inr, List, [], ◌++◌,
  some, arith, ◌==◌, ltb, Bool-cases, ==→eq, ==→ne, lt→ltb, eq→==, ne→==, length, take,
  length-append, length-take, take_all,
}
use sil_os.Fat16.{Bpb, DirectoryEntry, Disk, IsDisk}
use sil_os.Fat16.Table.{get_fat_entry}
use sil_os.Fat16.Volume.{
  IsGeometry, cluster_to_lba, cluster_start, cluster_start_bound, cluster_to_lba_lem,
}
use sil_os.Fat16.Data.{Reading, reading, read_step, read_sectors, read_clusters, read_file}
use sil_os.Fat16.Data.Sectors.{sectors_bytes, length-sectors_bytes, read_sectors_lem}

-- The bytes of one cluster.
abbrev pub cluster_bytes : Bpb → ℕ → Disk → List ℕ
cluster_bytes b c d = sectors_bytes b.sectors_per_cluster (cluster_start b c) d

module _ (b : Bpb) (g : IsGeometry b) (c : ℕ) (two : 2 ≤ c) (small : c < 0xFFF8) where
  read_one :
      (rem : ℕ) (out : List ℕ) (d : Disk)
      → IsDisk d
      → read_sectors b.sectors_per_cluster 0 (cluster_to_lba b c) d (reading out rem)
        ≡ reading (out ++ take rem (cluster_bytes b c d)) (rem - b.sectors_per_cluster * 512)
  read_one rem out d h = rw (cluster_to_lba_lem b g c two (omega arith)) (
      read_sectors_lem b.sectors_per_cluster 0 (cluster_start b c) (cluster_start b c) rem out d h
        (omega arith) (omega (arith, cluster_start_bound b g c (omega arith))))

  -- The last cluster of a file gives the rest of its bytes.
  pub read_clusters_last :
      (f rem : ℕ) (out : List ℕ) (d : Disk)
      → IsDisk d
      → rem ≤ b.sectors_per_cluster * 512
      → read_clusters (suc f) b c d (reading out rem) ≡ some (out ++ take rem (cluster_bytes b c d))
  unfolding read_clusters
  read_clusters_last f rem out d h fits = rw (
    lt→ltb c 0xFFF8 small,
    read_one rem out d h,
    eq→== (rem - b.sectors_per_cluster * 512) 0 (omega arith),
  )

  -- Any other cluster gives all its bytes, and the table says where to go on.
  pub read_clusters_more :
      (f rem : ℕ) (out : List ℕ) (d : Disk)
      → IsDisk d
      → b.sectors_per_cluster * 512 < rem
      → read_clusters (suc f) b c d (reading out rem)
        ≡ read_clusters f b
            (get_fat_entry b c d)
            d
            (reading (out ++ cluster_bytes b c d) (rem - b.sectors_per_cluster * 512))
  unfolding read_clusters
  read_clusters_more f rem out d h long = rw (
    lt→ltb c 0xFFF8 small,
    read_one rem out d h,
    ne→== (rem - b.sectors_per_cluster * 512) 0 (omega arith),
    take_all rem (cluster_bytes b c d)
        (omega (arith, length-sectors_bytes b.sectors_per_cluster (cluster_start b c) d h)),
  )

-- What any pass over the sectors of a cluster does to the two counters.
record IsPass (n : ℕ) (r r' : Reading) : Type 0 where
  copied : length r'.file_data + r'.bytes_remaining ≡ length r.file_data + r.bytes_remaining
  less : 0 < n → 0 < r.bytes_remaining → r'.bytes_remaining < r.bytes_remaining
  no_more : r'.bytes_remaining ≤ r.bytes_remaining
  ends : r.bytes_remaining ≡ 0 → r'.bytes_remaining ≡ 0

IsPass-on :
    (n : ℕ) (r next r' : Reading)
    → length next.file_data + next.bytes_remaining ≡ length r.file_data + r.bytes_remaining
    → 0 < next.bytes_remaining
    → next.bytes_remaining ≡ r.bytes_remaining - min r.bytes_remaining 512
    → IsPass n next r'
    → IsPass (suc n) r r'
IsPass-on n r next r' counted pos e p = record {
  copied = omega (arith, p.copied);
  less = λ a c. omega (arith, p.no_more);
  no_more = omega (arith, p.no_more);
  ends = λ z. absurd (omega arith);
}

falls :
    (n f : ℕ) (r r' : Reading)
    → IsPass n r r'
    → 0 < n
    → r.bytes_remaining < suc f
    → (r'.bytes_remaining == 0) ≡ false
    → r'.bytes_remaining < f
falls n f r r' p pos fuel more = elim (Bool-cases (r.bytes_remaining == 0)) [
  | inl z ↦ absurd (==→ne _ 0 more (p.ends (==→eq _ 0 z)))
  | inr nz ↦
      let q : 0 < r.bytes_remaining = omega (arith, ==→ne r.bytes_remaining 0 nz) in
      omega (arith, p.less pos q)
]

read_sectors-IsPass :
    (n i lba : ℕ) (d : Disk) (r : Reading) → IsDisk d → IsPass n r (read_sectors n i lba d r)
unfolding read_sectors
read_sectors-IsPass zero i lba d r h = record {
  copied = refl;
  less = λ p. absurd (omega arith);
  no_more = omega arith;
  ends = λ e. e;
}
read_sectors-IsPass (suc n) i lba d r h =
    let s = d ((lba + i) % 2 ^ 32) in
    let next = read_step s r in
    let counted : length next.file_data + next.bytes_remaining
        ≡ length r.file_data + r.bytes_remaining =
      omega (
        arith,
        length-append r.file_data (take (min r.bytes_remaining 512) s),
        length-take (min r.bytes_remaining 512) s,
        h ((lba + i) % 2 ^ 32),
      ) in
    let rest = read_sectors-IsPass n (i + 1) lba d next h in
    elim (Bool-cases (next.bytes_remaining == 0)) [
      | inl last ↦ rw last (record {
        copied = counted;
        less = λ p q. omega arith;
        no_more = omega arith;
        ends = λ e. omega arith;
      })
      | inr more ↦ rw more (
          IsPass-on n r next (read_sectors n (i + 1) lba d next) counted
            (omega (arith, ==→ne next.bytes_remaining 0 more)) (omega arith) rest)
    ]

module _ (b : Bpb) (d : Disk) (pos : 0 < b.sectors_per_cluster) (h : IsDisk d) where
  read_clusters-total :
      (f c : ℕ) (r : Reading)
      → r.bytes_remaining < f
      → (bytes : List ℕ) × (read_clusters f b c d r ≡ some bytes)
        × (length bytes ≤ length r.file_data + r.bytes_remaining)
  unfolding read_clusters
  read_clusters-total zero c r fuel = absurd (omega arith)
  read_clusters-total (suc f) c r fuel =
      let r' = read_sectors b.sectors_per_cluster 0 (cluster_to_lba b c) d r in
      let pass = read_sectors-IsPass b.sectors_per_cluster 0 (cluster_to_lba b c) d r h in
      elim (Bool-cases (ltb c 0xFFF8)) [
        | inr end ↦ (r.file_data, rw end, omega arith)
        | inl go ↦ elim (Bool-cases (r'.bytes_remaining == 0)) [
          | inl last ↦ (r'.file_data, rw (go, last), omega (arith, pass.copied))
          | inr more ↦
              let left : r'.bytes_remaining < f =
                falls b.sectors_per_cluster f r r' pass pos fuel more in
              let (bytes, e, l) = read_clusters-total f (get_fat_entry b c d) r' left in
              (bytes, rw (go, more) e, omega (arith, pass.copied))
        ]
      ]

  -- Behind its allocation `read_file` ends, and it returns no more bytes than the record says.
  pub read_file-total :
      (entry : DirectoryEntry)
      → (bytes : List ℕ) × (read_file b entry d ≡ some bytes) × (length bytes ≤ entry.file_size)
  unfolding read_file
  read_file-total entry =
      let (bytes, e, l) =
        read_clusters-total (entry.file_size + 1) entry.cluster_low (reading [] entry.file_size)
          (omega arith) in
      (bytes, e, omega arith)
