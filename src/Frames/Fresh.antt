-- ===== src/Frames/Fresh.antt =====
-- No frame is handed out twice (src/memory.rs).
use sil_os.Prelude.{
  ℕ, zero, suc, ◌+◌, ◌-◌, ◌*◌, ◌%◌, ◌≤◌, ◌<◌, ◌≡◌, ap, sym, ◌∙◌, inl, inr, arith, Bool-cases, some,
  List, [], ◌∷◌, ◌++◌, get_elem?,
}
use sil_os.Frames.{
  MemoryRegion, BootInfoFrameAllocator, frames_from, frame_count, usable_frames, allocate_frame,
}

-- Regions in the order of their addresses, on page boundaries, from `low` on.
pub data IsMap : ℕ → List MemoryRegion → Type 0 where
  map_end : {low : ℕ} → IsMap low []
  region :
      {low : ℕ} {r : MemoryRegion} {regions : List MemoryRegion}
      → low ≤ r.start_addr
      → r.start_addr ≤ r.end_addr
      → r.start_addr % 4096 ≡ 0
      → r.end_addr % 4096 ≡ 0
      → IsMap r.end_addr regions
      → IsMap low (r ∷ regions)

-- Frames from `low` on, none of which overlaps the one before.
data Apart : ℕ → List ℕ → Type 0 where
  apart_nil : {low : ℕ} → Apart low []
  apart : {low x : ℕ} {xs : List ℕ} → low ≤ x → Apart (x + 4096) xs → Apart low (x ∷ xs)

Apart-lower : (low low' : ℕ) (xs : List ℕ) → low ≤ low' → Apart low' xs → Apart low xs
Apart-lower low low' [] h apart_nil = apart_nil
Apart-lower low low' (x ∷ xs) h (apart l a) = apart (omega arith) a

frames_from-Apart :
    (n addr high : ℕ) (rest : List ℕ)
    → addr % 4096 ≡ 0
    → addr + n * 4096 ≤ high
    → Apart high rest
    → Apart addr (frames_from n addr ++ rest)
unfolding frames_from
frames_from-Apart zero addr high rest e h a = Apart-lower addr high rest (omega arith) a
frames_from-Apart (suc n) addr high rest e h a =
    let same : addr - addr % 4096 ≡ addr = omega arith in
    rw same (
      apart (omega arith)
        (frames_from-Apart n (addr + 4096) high rest (omega arith) (omega arith) a))

usable_frames-Apart :
    (low : ℕ) (regions : List MemoryRegion) → IsMap low regions → Apart low (usable_frames regions)
unfolding usable_frames
usable_frames-Apart low [] map_end = apart_nil
usable_frames-Apart low (r ∷ regions) (region l o s e m) =
    let rest = usable_frames-Apart r.end_addr regions m in
    elim (Bool-cases r.usable) [
      | inl u ↦
          rw (u, usable_frames)
            (Apart-lower low r.start_addr _ l (
              frames_from-Apart (frame_count r) r.start_addr r.end_addr (usable_frames regions) s
                (omega arith) rest))
      | inr u ↦ rw (u, usable_frames) (Apart-lower low r.end_addr _ (omega arith) rest)
    ]

Apart-low : (low : ℕ) (xs : List ℕ) (i x : ℕ) → Apart low xs → get_elem? xs i ≡ some x → low ≤ x
Apart-low low [] i x a h = cc
Apart-low low (y ∷ xs) zero x (apart l a) h = ground arith
Apart-low low (y ∷ xs) (suc i) x (apart l a) h =
    let k = Apart-low (y + 4096) xs i x a h in omega arith

Apart-get :
    (low : ℕ) (xs : List ℕ) (i j x y : ℕ)
    → Apart low xs
    → i < j
    → get_elem? xs i ≡ some x
    → get_elem? xs j ≡ some y
    → x + 4096 ≤ y
Apart-get low [] i j x y a h e f = cc
Apart-get low (z ∷ xs) i zero x y a h e f = absurd (omega arith)
Apart-get low (z ∷ xs) zero (suc j) x y (apart l a) h e f =
    let k = Apart-low (z + 4096) xs j y a f in ground arith
Apart-get low (z ∷ xs) (suc i) (suc j) x y (apart l a) h e f =
    Apart-get (z + 4096) xs i j x y a (omega arith) e f

-- On a memory map whose regions lie in the order of their addresses on page boundaries, a frame
-- that is allocated later lies wholly above every one that was allocated before.
pub allocate_frame-apart :
    (a b : BootInfoFrameAllocator) (x y : ℕ)
    → IsMap 0 a.memory_map
    → b.memory_map ≡ a.memory_map
    → a.next_frame < b.next_frame
    → (allocate_frame a).0 ≡ some x
    → (allocate_frame b).0 ≡ some y
    → x + 4096 ≤ y
unfolding allocate_frame
allocate_frame-apart a b x y m same later e f =
    Apart-get 0 (usable_frames a.memory_map) a.next_frame b.next_frame x y
      (usable_frames-Apart 0 a.memory_map m) later e
      (ap (λ regions. get_elem? (usable_frames regions) b.next_frame) (sym same) ∙ f)
