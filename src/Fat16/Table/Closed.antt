-- ===== src/Fat16/Table/Closed.antt =====
-- A table whose chains stay in it (src/fat16.rs).
use sil_os.Prelude.{ℕ, ◌^◌, ◌≤◌, ◌<◌, ◌≡◌, ◌⊎◌, inl, inr, ◌==◌, Bool-cases, ==→eq, ==→ne}
use sil_os.Fat16.{Bpb, Disk, IsDisk}
use sil_os.Fat16.Volume.{entries}
use sil_os.Fat16.Table.{get_fat_entry, set_fat_entry}
use sil_os.Fat16.Table.Entries.{get-set_fat_entry_self, get-set_fat_entry_ne}

-- The number of an entry of the table, or an end mark.
abbrev pub IsLink : Bpb → ℕ → Type 0
IsLink b c = (c < entries b) ⊎ (0xFFF8 ≤ c)

-- The chains of the table lead nowhere else.
abbrev pub IsClosed : Bpb → Disk → Type 0
IsClosed b d = (k : ℕ) → k < entries b → IsLink b (get_fat_entry b k d)

pub set_fat_entry-IsClosed :
    (b : Bpb) (c v : ℕ) (d : Disk)
    → v < 2 ^ 16
    → IsDisk d
    → IsLink b v
    → IsClosed b d
    → IsClosed b (set_fat_entry b c v d)
set_fat_entry-IsClosed b c v d small h link closed k inside = elim (Bool-cases (c == k)) [
  | inl e ↦ rw (← ==→eq c k e, get-set_fat_entry_self b c v d small h) link
  | inr e ↦ rw (get-set_fat_entry_ne b c v d k (==→ne c k e)) (closed k inside)
]

-- Equal tables are closed alike.
pub IsClosed-cong :
    (b : Bpb) (d d' : Disk)
    → ((k : ℕ) → k < entries b → get_fat_entry b k d' ≡ get_fat_entry b k d)
    → IsClosed b d
    → IsClosed b d'
IsClosed-cong b d d' same closed k inside = rw (same k inside) (closed k inside)
