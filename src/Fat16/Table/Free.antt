-- ===== src/Fat16/Table/Free.antt =====
-- The scan for a free cluster: what it finds is the first free entry of the table.
use sil_os.Prelude.{
  ℕ, zero, suc, ◌+◌, ◌*◌, ◌/◌, ◌%◌, ◌^◌, ◌≤◌, ◌<◌, ◌≡◌, ◌≢◌, inl, inr, none, some, arith, ◌==◌,
  Bool-cases, Option-cases, ltb,
}
use sil_os.Fat16.{Bpb, Sector, Disk}
use sil_os.Fat16.Table.{word_at, get_fat_entry, scan_sector, scan_fat, find_free_cluster}

-- The result of a scan over the even indices from `i`, `n` of them.
record IsFirst (n i : ℕ) (buffer : Sector) (r : ℕ) : Type 0 where
  from : i ≤ r
  below : r < i + 2 * n
  even : r % 2 ≡ 0
  free : word_at buffer r ≡ 0
  used : (j : ℕ) → i ≤ j → j < r → j % 2 ≡ 0 → word_at buffer j ≢ 0

scan_sector-IsFirst :
    (n i : ℕ) (buffer : Sector) (r : ℕ)
    → i % 2 ≡ 0
    → scan_sector n i buffer ≡ some r
    → IsFirst n i buffer r
unfolding scan_sector
scan_sector-IsFirst zero i buffer r e h = cc
scan_sector-IsFirst (suc n) i buffer r e h = elim (Bool-cases (word_at buffer i == 0)) [
  | inl hit ↦ record {
    from = ground arith;
    below = ground arith;
    even = ground arith;
    free = ground arith;
    used = λ j a b c. ground arith;
  }
  | inr miss ↦
      let rest = scan_sector-IsFirst n (i + 2) buffer r (omega arith) (rw miss at h) in
      record {
        from = omega arith;
        below = omega arith;
        even = rest.even;
        free = rest.free;
        used = λ j a b c. ground (arith, rest.used j);
      }
]

scan_sector-none :
    (n i : ℕ) (buffer : Sector)
    → i % 2 ≡ 0
    → scan_sector n i buffer ≡ none
    → (j : ℕ) → i ≤ j
    → j < i + 2 * n
    → j % 2 ≡ 0
    → word_at buffer j ≢ 0
unfolding scan_sector
scan_sector-none zero i buffer e h j a c p = absurd (omega arith)
scan_sector-none (suc n) i buffer e h j a c p = elim (Bool-cases (word_at buffer i == 0)) [
  | inl hit ↦ absurd (ground arith)
  | inr miss ↦ ground (arith, scan_sector-none n (i + 2) buffer (omega arith) (rw miss at h) j)
]

module _ (b : Bpb) (d : Disk) where
  -- The result of a scan over the entries from `lo` up to `hi`.
  record IsFirstEntry (lo hi c : ℕ) : Type 0 where
    from : lo ≤ c
    below : c < hi
    free : get_fat_entry b c d ≡ 0
    used : (k : ℕ) → lo ≤ k → k < c → get_fat_entry b k d ≢ 0

  open_sector :
      (s i : ℕ)
      → IsFirst 256 0 (d (b.reserved_sectors + s)) i
      → s < 256
      → IsFirstEntry (s * 256) (s * 256 + 256) ((s * 256 + i / 2) % 2 ^ 16)
  unfolding get_fat_entry
  open_sector s i f small =
      let c = s * 256 + i / 2 in
      let e : c % 2 ^ 16 ≡ c = omega arith in
      let q : c * 2 / 512 ≡ s = omega arith in
      let r : c * 2 % 512 ≡ i = omega arith in
      rw e (record {
        from = omega arith;
        below = omega arith;
        free = rw (q, r) f.free;
        used = λ k lo hi.
            let q' : k * 2 / 512 ≡ s = omega arith in
            rw q' (f.used (k * 2 % 512) (omega arith) (omega arith) (omega arith));
      })

  full_sector :
      (s : ℕ)
      → scan_sector 256 0 (d (b.reserved_sectors + s)) ≡ none
      → (k : ℕ) → s * 256 ≤ k
      → k < s * 256 + 256
      → get_fat_entry b k d ≢ 0
  unfolding get_fat_entry
  full_sector s h k lo hi =
      let q : k * 2 / 512 ≡ s = omega arith in
      rw q (
        scan_sector-none 256 0 _ (omega arith) h (k * 2 % 512) (omega arith) (omega arith)
          (omega arith))

  scan_fat-IsFirstEntry :
      (n s c : ℕ)
      → s + n ≤ 256
      → scan_fat n s b.reserved_sectors d ≡ some c
      → IsFirstEntry (s * 256) ((s + n) * 256) c
  unfolding scan_fat
  scan_fat-IsFirstEntry zero s c small h = cc
  scan_fat-IsFirstEntry (suc n) s c small h =
      elim (Option-cases (scan_sector 256 0 (d (b.reserved_sectors + s)))) [
        | inl full ↦
            let rest = scan_fat-IsFirstEntry n (s + 1) c (omega arith) (rw (full, scan_fat) at h) in
            record {
              from = omega (arith, rest.from);
              below = omega (arith, rest.below);
              free = rest.free;
              used = λ k lo hi. elim (Bool-cases (ltb k (s * 256 + 256))) [
                | inl here ↦ full_sector s full k lo (ground arith)
                | inr there ↦ rest.used k (ground arith) hi
              ];
            }
        | inr (i, hit) ↦
            let f =
              open_sector s i (scan_sector-IsFirst 256 0 _ i (omega arith) hit) (omega arith) in
            let e : (s * 256 + i / 2) % 2 ^ 16 ≡ c = cc (rw (hit, scan_fat) at h) in
            let g : IsFirstEntry (s * 256) ((s + suc n) * 256) ((s * 256 + i / 2) % 2 ^ 16) =
              record {
                from = f.from;
                below = omega (arith, f.below);
                free = f.free;
                used = f.used;
              } in
            rw e at g
      ]

  scan_fat-none :
      (n s : ℕ)
      → scan_fat n s b.reserved_sectors d ≡ none
      → (k : ℕ) → s * 256 ≤ k
      → k < (s + n) * 256
      → get_fat_entry b k d ≢ 0
  unfolding scan_fat
  scan_fat-none zero s h k lo hi = absurd (omega arith)
  scan_fat-none (suc n) s h k lo hi =
      elim (Option-cases (scan_sector 256 0 (d (b.reserved_sectors + s)))) [
        | inl full ↦ elim (Bool-cases (ltb k (s * 256 + 256))) [
          | inl here ↦ full_sector s full k lo (ground arith)
          | inr there ↦
              scan_fat-none n (s + 1) (rw (full, scan_fat) at h) k (ground arith) (omega arith)
        ]
        | inr (i, hit) ↦ absurd (cc (rw (hit, scan_fat) at h))
      ]

  pub record IsFirstFree (c : ℕ) : Type 0 where
    pub below : c < b.sectors_per_fat * 256
    pub free : get_fat_entry b c d ≡ 0
    pub used : (k : ℕ) → k < c → get_fat_entry b k d ≢ 0

  -- With at most 256 sectors in the table, the cluster that `find_free_cluster` returns lies in the
  -- table, is free, and every cluster before it is used.
  pub find_free_cluster-IsFirstFree :
      (c : ℕ) → b.sectors_per_fat ≤ 256 → find_free_cluster b d ≡ some c → IsFirstFree c
  unfolding find_free_cluster
  find_free_cluster-IsFirstFree c small h =
      let f = scan_fat-IsFirstEntry b.sectors_per_fat 0 c (omega arith) h in
      record {
        below = omega (arith, f.below);
        free = f.free;
        used = λ k hi. f.used k (omega arith) hi;
      }

  -- `find_free_cluster` returns `none` only if no entry of the table is free.
  pub find_free_cluster-none :
      find_free_cluster b d ≡ none → (k : ℕ) → k < b.sectors_per_fat * 256 → get_fat_entry b k d ≢ 0
  unfolding find_free_cluster
  find_free_cluster-none h k hi = scan_fat-none b.sectors_per_fat 0 h k (omega arith) (omega arith)
