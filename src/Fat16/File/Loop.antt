-- ===== src/Fat16/File/Loop.antt =====
-- The writing loop: it ends, and reading the chain that it made gives the data back.
use sil_os.Prelude.{
  ℕ, ◌≤◌, ◌<◌, ◌≡◌, ◌∙◌, refl, sym, List, Option, none, some, arith, length, take, drop,
  length-take, take_all,
}
use sil_os.Fat16.{Bpb, Disk, Run, ok, err, out_of_fuel, FsError, disk_full}
use sil_os.Fat16.Table.{get_fat_entry, find_free_cluster}
use sil_os.Fat16.Table.Free.{IsFirstFree}
use sil_os.Fat16.Data.Files.{bytes_per_cluster, IsCluster, Chain, last, more, Chain-cong}
use sil_os.Fat16.Data.Sectors.{sectors_bytes_cong, length-sectors_bytes}
use sil_os.Fat16.Data.Chain.{cluster_bytes}
use sil_os.Fat16.File.{first_of_chain}
use sil_os.Fat16.Volume.{entries}
use sil_os.Fat16.File.Chunks.{
  IsVolume, Keeps, IsUsed, stored, two-le, stored_end, stored_bytes, stored-Keeps,
}

-- An operation ends: with a result that satisfies `P`, or with an error that satisfies `Q`.
abbrev pub Ends : {A : Type 0} → (A → Disk → Type 0) → (FsError → Disk → Type 0) → Run A → Type 0
Ends P Q (ok a d) = P a d
Ends P Q (err e d) = Q e d
Ends P Q out_of_fuel = ⊥

-- What the loop has done when it returns `first_cluster`.
pub record Written (b : Bpb) (prev : Option ℕ) (first : ℕ) (d : Disk) (bytes : List ℕ)
    (first_cluster : ℕ) (d' : Disk) : Type 0 where
  pub cluster : ℕ
  pub first_is : first_cluster ≡ first_of_chain prev first cluster
  pub number : 2 ≤ cluster
  pub inside : cluster < entries b
  pub was_free : get_fat_entry b cluster d ≡ 0
  pub keeps : Keeps b prev d d'
  pub linked : (p : ℕ) → prev ≡ some p → get_fat_entry b p d' ≡ cluster
  pub chain : Chain b d' cluster bytes

-- What holds when the loop stops for want of a free cluster.
pub record IsFull (b : Bpb) (prev : Option ℕ) (d : Disk) (e : FsError) (d' : Disk) : Type 0 where
  pub error : e ≡ disk_full
  pub none_free : find_free_cluster b d' ≡ none
  pub keeps : Keeps b prev d d'

pub some_injective : (k c : ℕ) → some k ≡ some c → k ≡ c
some_injective k c e = cc

module _ (b : Bpb) (d : Disk) (v : IsVolume b d) where
  pub Keeps-self : (prev : Option ℕ) → Keeps b prev d d
  Keeps-self prev = record {
    disk = v.disk;
    entry = λ k inside used ne. refl;
    used = λ k inside used. used;
    bytes = λ k two inside used i lt. refl;
    outside = λ l before out. refl;
    closed = λ closed. closed;
  }

  pub Keeps-IsVolume :
      (prev : Option ℕ) (d' : Disk) → Keeps b prev d d' → 2 ≤ entries b → IsVolume b d'
  Keeps-IsVolume prev d' k two = record {
    geometry = v.geometry;
    disk = k.disk;
    entry_0 = k.used 0 (omega arith) v.entry_0;
    entry_1 = k.used 1 (omega arith) v.entry_1;
  }

  -- Keeping through a round and through the rounds behind it.
  pub Keeps-trans :
      (prev : Option ℕ) (c : ℕ) (d1 d2 : Disk)
      → get_fat_entry b c d ≡ 0
      → Keeps b prev d d1
      → Keeps b (some c) d1 d2
      → Keeps b prev d d2
  Keeps-trans prev c d1 d2 free one two = record {
    disk = two.disk;
    entry = λ k inside used ne.
        two.entry k inside (one.used k inside used) (λ e. used (rw (some_injective k c e) free))
        ∙ one.entry k inside used ne;
    used = λ k inside used. two.used k inside (one.used k inside used);
    bytes = λ k le inside used i lt.
        two.bytes k le inside (one.used k inside used) i lt ∙ one.bytes k le inside used i lt;
    outside = λ l before out. two.outside l before out ∙ one.outside l before out;
    closed = λ closed. two.closed (one.closed closed);
  }

pub Ends-map :
    {A : Type 0} (P P' : A → Disk → Type 0) (Q Q' : FsError → Disk → Type 0) (r : Run A)
    → Ends P Q r
    → ((a : A) (d : Disk) → P a d → P' a d)
    → ((e : FsError) (d : Disk) → Q e d → Q' e d)
    → Ends P' Q' r
Ends-map P P' Q Q' (ok a d) p f g = f a d p
Ends-map P P' Q Q' (err e d) p f g = g e d p
Ends-map P P' Q Q' out_of_fuel p f g = p

module _ (b : Bpb) (d : Disk) (v : IsVolume b d) (c : ℕ) (free : IsFirstFree b d c)
    (prev : Option ℕ) (u : IsUsed b d prev) where
  -- The new cluster is in use.
  stored-IsCluster : (chunk : List ℕ) → IsCluster b (stored b prev c chunk d) c
  stored-IsCluster chunk =
      (two-le b d v c free, free.below, omega (arith, stored_end b d v c free prev u chunk))

  -- A chain of one cluster.
  pub Chain-last :
      (bytes : List ℕ)
      → length bytes ≤ bytes_per_cluster b
      → Chain b (stored b prev c bytes d) c bytes
  Chain-last bytes fits =
      last (stored-IsCluster bytes) fits (stored_bytes b d v c free prev u bytes fits)

  -- A cluster in front of a chain that the later rounds made.
  pub Chain-more :
      (bytes : List ℕ) (c' : ℕ) (d' : Disk)
      → bytes_per_cluster b < length bytes
      → Keeps b (some c) (stored b prev c (take (bytes_per_cluster b) bytes) d) d'
      → get_fat_entry b c d' ≡ c'
      → 2 ≤ c'
      → Chain b d' c' (drop (bytes_per_cluster b) bytes)
      → Chain b d' c bytes
  Chain-more bytes c' d' long keeps link two next =
      let chunk = take (bytes_per_cluster b) bytes in
      let d1 = stored b prev c chunk d in
      let n_chunk : length chunk ≡ bytes_per_cluster b =
        omega (arith, length-take (bytes_per_cluster b) bytes) in
      let same : cluster_bytes b c d' ≡ chunk =
        sectors_bytes_cong b.sectors_per_cluster _ d1 d'
          (keeps.bytes c (two-le b d v c free) free.below (stored-IsCluster chunk).2)
        ∙ sym (
            take_all (length chunk) (cluster_bytes b c d1) (
              omega (
                arith,
                length-sectors_bytes b.sectors_per_cluster _ d1
                    (stored-Keeps b d v c free prev u chunk).disk,
              )))
        ∙ stored_bytes b d v c free prev u chunk (omega arith) in
      more (two-le b d v c free, free.below, omega arith) long same (rw link next)

-- A file whose clusters are in use is kept by a loop that starts a new chain.
pub Chain-Keeps :
    (b : Bpb) (d d' : Disk) {c : ℕ} {bytes : List ℕ}
    → Keeps b none d d'
    → Chain b d c bytes
    → Chain b d' c bytes
Chain-Keeps b d d' k h =
    Chain-cong b d d' (λ c u. (k.entry c u.1 u.2 (λ e. cc), k.bytes c u.0 u.1 u.2)) h
