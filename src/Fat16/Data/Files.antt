-- ===== src/Fat16/Data/Files.antt =====
-- A file's bytes on the disk: a chain of clusters in use that holds them, and reading it.
use sil_os.Prelude.{
  ℕ, zero, suc, ◌+◌, ◌-◌, ◌*◌, ◌≤◌, ◌<◌, ◌≡◌, ◌≢◌, ◌∙◌, sym, ap, List, [], ◌++◌, some, arith,
  length, take, drop, length-drop, take-append-drop,
}
use mathlib.Core.List.{append_assoc}
use sil_os.Fat16.{Bpb, DirectoryEntry, Disk, IsDisk}
use sil_os.Fat16.Table.{get_fat_entry}
use sil_os.Fat16.Volume.{IsGeometry, entries, cluster_start}
use sil_os.Fat16.Data.{reading, read_clusters, read_file}
use sil_os.Fat16.Data.Sectors.{sectors_bytes_cong}
use sil_os.Fat16.Data.Chain.{cluster_bytes, read_clusters_last, read_clusters_more}

abbrev pub bytes_per_cluster : Bpb → ℕ
bytes_per_cluster b = b.sectors_per_cluster * 512

-- A cluster of the table that is in use.
abbrev pub IsCluster : Bpb → Disk → ℕ → Type 0
IsCluster b d c = (2 ≤ c) × (c < entries b) × (get_fat_entry b c d ≢ 0)

-- The chain from `c` holds `bytes`.
pub data Chain (b : Bpb) (d : Disk) : ℕ → List ℕ → Type 0 where
  last :
      {c : ℕ} {bytes : List ℕ}
      → IsCluster b d c
      → length bytes ≤ bytes_per_cluster b
      → take (length bytes) (cluster_bytes b c d) ≡ bytes
      → Chain b d c bytes
  more :
      {c : ℕ} {bytes : List ℕ}
      → IsCluster b d c
      → bytes_per_cluster b < length bytes
      → cluster_bytes b c d ≡ take (bytes_per_cluster b) bytes
      → Chain b d (get_fat_entry b c d) (drop (bytes_per_cluster b) bytes)
      → Chain b d c bytes

module _ (b : Bpb) (g : IsGeometry b) (d : Disk) (disk : IsDisk d) where
  read_clusters-Chain :
      (f : ℕ) (out : List ℕ) {c : ℕ} {bytes : List ℕ}
      → Chain b d c bytes
      → length bytes < f
      → read_clusters f b c d (reading out (length bytes)) ≡ some (out ++ bytes)
  read_clusters-Chain zero out h fuel = absurd (omega arith)
  read_clusters-Chain (suc f) out {c} {bytes} (last k fits same) fuel =
      read_clusters_last b g c k.0 (omega (arith, k.1, g.fat_size)) f (length bytes) out d disk fits
      ∙ ap (λ l. some (out ++ l)) same
  read_clusters-Chain (suc f) out {c} {bytes} (more k long same next) fuel =
      let left : length bytes - bytes_per_cluster b ≡ length (drop (bytes_per_cluster b) bytes) =
        sym (length-drop (bytes_per_cluster b) bytes) in
      read_clusters_more b g c k.0 (omega (arith, k.1, g.fat_size)) f (length bytes) out d disk long
      ∙ rw (same, left)
          (read_clusters-Chain f (out ++ take (bytes_per_cluster b) bytes) next
              (omega (arith, g.cluster_pos))
            ∙ ap some (
                append_assoc out _ _ ∙ ap (out ++◌) (take-append-drop (bytes_per_cluster b) bytes)))

  -- `read_file` returns the bytes of the chain that the record names.
  pub read_file-Chain :
      (e : DirectoryEntry) (bytes : List ℕ)
      → Chain b d e.cluster_low bytes
      → e.file_size ≡ length bytes
      → read_file b e d ≡ some bytes
  unfolding read_file
  read_file-Chain e bytes h size =
      rw size (read_clusters-Chain (length bytes + 1) [] h (omega arith))

-- A chain stays when the table and the clusters that it uses stay.
pub Chain-cong :
    (b : Bpb) (d d' : Disk) {c : ℕ} {bytes : List ℕ}
    → ((k : ℕ)
        → IsCluster b d k
        → (get_fat_entry b k d' ≡ get_fat_entry b k d)
          × ((i : ℕ)
              → i < b.sectors_per_cluster
              → d' (cluster_start b k + i) ≡ d (cluster_start b k + i)))
    → Chain b d c bytes
    → Chain b d' c bytes
Chain-cong b d d' same (last {c} k fits e) =
    let kept = same c k in
    last (k.0, k.1, rw (kept.0) k.2) fits
      (rw (sectors_bytes_cong b.sectors_per_cluster (cluster_start b c) d d' kept.1) e)
Chain-cong b d d' same (more {c} k long e next) =
    let kept = same c k in
    more (k.0, k.1, rw (kept.0) k.2) long
      (rw (sectors_bytes_cong b.sectors_per_cluster (cluster_start b c) d d' kept.1) e)
      (rw (kept.0) (Chain-cong b d d' same next))
