-- ===== src/Fat16/File/NewFile.antt =====
-- The theorems about `write_new_file`.
use sil_os.Prelude.{
  ℕ, ◌+◌, ◌<◌, ◌^◌, ◌≡◌, ◌%◌, refl, inl, inr, List, none, some, Option-cases, length, get_or,
}
use sil_os.Fat16.{Bpb, Disk, FsError, Run, ok, err, out_of_fuel, root_directory_full}
use sil_os.Fat16.Data.Files.{Chain}
use sil_os.Fat16.Root.{find_empty_root_slot, find_file}
use sil_os.Fat16.Root.Sectors.{IsLive}
use sil_os.Fat16.File.{and_then, new_entry, put_entry, write_chunks, write_new_file}
use sil_os.Fat16.File.Chunks.{IsVolume}
use sil_os.Fat16.File.Loop.{Ends, IsFull, Written, Chain-Keeps}
use sil_os.Fat16.File.Stores.{write_chunks-Ends}
use sil_os.Fat16.File.RoundTrip.{IsFile, Refused, no_slot, no_cluster, new-IsFile, new_old-Chain}

-- The rule for a step behind another one.
pub Ends-bind :
    {A B : Type 0} (P : A → Disk → Type 0) (Q : FsError → Disk → Type 0) (P' : B → Disk → Type 0)
    (Q' : FsError → Disk → Type 0) (r : Run A) (k : A → Disk → Run B)
    → Ends P Q r
    → ((a : A) (d : Disk) → P a d → Ends P' Q' (k a d))
    → ((e : FsError) (d : Disk) → Q e d → Q' e d)
    → Ends P' Q' (and_then r k)
Ends-bind P Q P' Q' (ok a d) k h f g = f a d h
Ends-bind P Q P' Q' (err e d) k h f g = g e d h
Ends-bind P Q P' Q' out_of_fuel k h f g = h

module _ (b : Bpb) (name ext data_bytes : List ℕ) (d : Disk) (v : IsVolume b d) where
  pub new_slot :
      (lba off : ℕ)
      → find_empty_root_slot b d ≡ some (lba, off)
      → write_new_file b name ext data_bytes d
        ≡ and_then (write_chunks (length data_bytes + 1) b data_bytes 0 none 0 d) λ fc d1.
          ok tt (put_entry lba off (new_entry name ext fc (length data_bytes % 2 ^ 32)) d1)
  unfolding write_new_file
  new_slot lba off slot = rw (slot, write_new_file)

  pub new_full :
      find_empty_root_slot b d ≡ none
      → write_new_file b name ext data_bytes d ≡ err root_directory_full d
  unfolding write_new_file
  new_full full = rw (full, write_new_file)

  -- On a volume, with an 8.3 name that is not on it, `write_new_file` ends. If it succeeds, the
  -- name is found, its record has the right size, reading the file gives the data, and the disk
  -- still holds a volume. If it fails, the directory or the table was full.
  pub write_new_file-IsFile :
      length name ≡ 8
      → length ext ≡ 3
      → IsLive (get_or name 0 0)
      → find_file b name ext d ≡ none
      → length data_bytes < 2 ^ 32
      → Ends
          (λ _ d'. IsFile b name ext data_bytes d')
          (Refused b d)
          (write_new_file b name ext data_bytes d)
  write_new_file-IsFile name_8 ext_3 live absent small =
      elim (Option-cases (find_empty_root_slot b d)) [
        | inl full ↦ rw (new_full full) (no_slot refl full refl)
        | inr ((lba, off), slot) ↦ rw (new_slot lba off slot) (
            Ends-bind (Written b none 0 d data_bytes) (IsFull b none d)
              (λ _ d'. IsFile b name ext data_bytes d') (Refused b d) _ _
              (write_chunks-Ends b data_bytes d v)
              (λ fc d1 w.
                new-IsFile b name ext data_bytes d v lba off slot fc d1 w name_8 ext_3 live absent
                  small)
              (λ e d1 f. no_cluster f))
      ]

  -- Every file that was on the volume keeps its clusters and its bytes, whether `write_new_file`
  -- succeeds or fails.
  pub write_new_file-Chain :
      (c : ℕ) (bytes : List ℕ)
      → Chain b d c bytes
      → Ends
          (λ _ d'. Chain b d' c bytes)
          (λ _ d'. Chain b d' c bytes)
          (write_new_file b name ext data_bytes d)
  write_new_file-Chain c bytes h = elim (Option-cases (find_empty_root_slot b d)) [
    | inl full ↦ rw (new_full full) h
    | inr ((lba, off), slot) ↦ rw (new_slot lba off slot) (
        Ends-bind (Written b none 0 d data_bytes) (IsFull b none d) (λ _ d'. Chain b d' c bytes)
          (λ _ d'. Chain b d' c bytes) _ _ (write_chunks-Ends b data_bytes d v)
          (λ fc d1 w. new_old-Chain b name ext data_bytes d v lba off slot fc d1 w c bytes h)
          (λ e d1 f. Chain-Keeps b d d1 f.keeps h))
  ]
