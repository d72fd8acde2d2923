-- ===== src/Heap/Mapped.antt =====
-- Where the pages of the heap lie (src/allocator.rs).
use sil_os.Prelude.{
  ℕ, zero, suc, ◌+◌, ◌*◌, ◌≤◌, ◌<◌, ◌≡◌, ◌≢◌, ◌⊎◌, ◌∙◌, refl, sym, inl, inr, arith, Option, none,
  some, List, [], ◌∷◌, Option-cases,
}
use mathlib.Core.Path.{subst}
use sil_os.Frames.{BootInfoFrameAllocator, allocate_frame}
use sil_os.Frames.Fresh.{IsMap, allocate_frame-apart}
use sil_os.Heap.{
  frame_allocation_failed, PageTableFlag, present, writable, MapToError, MapResult, map_ok, map_err,
  Mapper, heap_start, heap_size, HeapResult, heap_ready, heap_error, map_pages, init_allocator,
  init_heap,
}

-- What `map_to` promises of the tables, whose translation of a page is `frame_of`: on success the page
-- is mapped to the frame, the other pages are as they were, and frames that it took for tables were
-- taken from the same allocator.
pub record IsMapper {T : Type 0}
    (map_to : ℕ
      → ℕ
      → List PageTableFlag
      → BootInfoFrameAllocator
      → T
      → MapResult BootInfoFrameAllocator T)
    (frame_of : T → ℕ → Option ℕ) : Type 0 where
  pub maps :
      (page frame : ℕ) (flags : List PageTableFlag) (a a' : BootInfoFrameAllocator) (t t' : T)
      → map_to page frame flags a t ≡ map_ok a' t'
      → frame_of t' page ≡ some frame
  pub others :
      (page frame : ℕ) (flags : List PageTableFlag) (a a' : BootInfoFrameAllocator) (t t' : T)
      → map_to page frame flags a t ≡ map_ok a' t'
      → (p : ℕ) → p ≢ page
      → frame_of t' p ≡ frame_of t p
  pub takes :
      (page frame : ℕ) (flags : List PageTableFlag) (a a' : BootInfoFrameAllocator) (t t' : T)
      → map_to page frame flags a t ≡ map_ok a' t'
      → (a'.memory_map ≡ a.memory_map) × (a.next_frame ≤ a'.next_frame)

stays : (a : BootInfoFrameAllocator) → (allocate_frame a).1.memory_map ≡ a.memory_map
unfolding allocate_frame
stays a = refl

advances : (a : BootInfoFrameAllocator) → (allocate_frame a).1.next_frame ≡ suc a.next_frame
unfolding allocate_frame
advances a = refl

module _ {T : Type 0}
    (map_to : ℕ
      → ℕ
      → List PageTableFlag
      → BootInfoFrameAllocator
      → T
      → MapResult BootInfoFrameAllocator T)
    (frame_of : T → ℕ → Option ℕ) (laws : IsMapper map_to frame_of) where
  abbrev pub boot_mapper : Mapper BootInfoFrameAllocator T
  boot_mapper = record { allocate = allocate_frame; map_to = map_to }

  -- The `n` pages from `page` are mapped to frames that the allocator gave out in this order, from `a` on.
  data Backed (t : T) : ℕ → ℕ → BootInfoFrameAllocator → Type 0 where
    no_page : {page : ℕ} {a : BootInfoFrameAllocator} → Backed t zero page a
    a_page :
        {n page : ℕ} {a b : BootInfoFrameAllocator} (frame : ℕ)
        → (allocate_frame a).0 ≡ some frame
        → frame_of t page ≡ some frame
        → b.memory_map ≡ a.memory_map
        → a.next_frame < b.next_frame
        → Backed t n (page + 4096) b
        → Backed t (suc n) page a

  MapResult-cases :
      (r : MapResult BootInfoFrameAllocator T)
      → ((a : BootInfoFrameAllocator) × (t : T) × (r ≡ map_ok a t))
        ⊎ ((e : MapToError) × (a : BootInfoFrameAllocator) × (t : T) × (r ≡ map_err e a t))
  MapResult-cases (map_ok a t) = inl (a, t, refl)
  MapResult-cases (map_err e a t) = inr (e, a, t, refl)

  -- What the loop has done when every page is mapped.
  record AllBacked (n page : ℕ) (a : BootInfoFrameAllocator) (t t' : T) : Type 0 where
    pub backed : Backed t' n page a
    pub same : (p : ℕ) → (p < page) ⊎ (page + n * 4096 ≤ p) → frame_of t' p ≡ frame_of t p

  -- The loop's way over `n` pages from `page`, from one state of the allocator and the tables to
  -- another: each page was mapped to the frame that was allocated for it.
  pub data Mapped : ℕ → ℕ → BootInfoFrameAllocator → T → BootInfoFrameAllocator → T → Type 0 where
    no_step : {page : ℕ} {a : BootInfoFrameAllocator} {t : T} → Mapped zero page a t a t
    a_step :
        {n page : ℕ} {a b c : BootInfoFrameAllocator} {t u v : T} (frame : ℕ)
        → (allocate_frame a).0 ≡ some frame
        → map_to page frame (present ∷ writable ∷ []) (allocate_frame a).1 t ≡ map_ok b u
        → Mapped n (page + 4096) b u c v
        → Mapped (suc n) page a t c v

  -- Why the page `page` is not mapped: the memory map has no frame left, or `map_to` refused.
  pub data Fails (e : MapToError) (page : ℕ) (a : BootInfoFrameAllocator) (t : T) : Type 0 where
    no_frame : e ≡ frame_allocation_failed → (allocate_frame a).0 ≡ none → Fails e page a t
    refused :
        (frame : ℕ) (b : BootInfoFrameAllocator) (u : T)
        → (allocate_frame a).0 ≡ some frame
        → map_to page frame (present ∷ writable ∷ []) (allocate_frame a).1 t ≡ map_err e b u
        → Fails e page a t

  -- The first `pages` of `n` pages were mapped, and the next one was not.
  pub record Failed (n page : ℕ) (e : MapToError) (a : BootInfoFrameAllocator) (t : T)
      : Type 0 where
    pub pages : ℕ
    pub early : pages < n
    pub reached : BootInfoFrameAllocator
    pub tables : T
    pub way : Mapped pages page a t reached tables
    pub reason : Fails e (page + pages * 4096) reached tables

  Failed-now :
      (n page : ℕ) (e : MapToError) (a : BootInfoFrameAllocator) (t : T)
      → Fails e page a t
      → Failed (suc n) page e a t
  Failed-now n page e a t f =
      let z : page + 0 * 4096 ≡ page = omega arith in
      record {
        pages = 0;
        early = omega arith;
        reached = a;
        tables = t;
        way = no_step;
        reason = rw z f;
      }

  Failed-later :
      (n page frame : ℕ) (e : MapToError) (a b : BootInfoFrameAllocator) (t u : T)
      → (allocate_frame a).0 ≡ some frame
      → map_to page frame (present ∷ writable ∷ []) (allocate_frame a).1 t ≡ map_ok b u
      → Failed n (page + 4096) e b u
      → Failed (suc n) page e a t
  Failed-later n page frame e a b t u g m f =
      let z : page + 4096 + f.pages * 4096 ≡ page + suc f.pages * 4096 = omega arith in
      record {
        pages = suc f.pages;
        early = omega (arith, f.early);
        reached = f.reached;
        tables = f.tables;
        way = a_step frame g m f.way;
        reason = rw (← z) f.reason;
      }

  abbrev Outcome : ℕ → ℕ → BootInfoFrameAllocator → T → MapResult BootInfoFrameAllocator T → Type 0
  Outcome n page a t (map_ok a' t') = AllBacked n page a t t'
  Outcome n page a t (map_err e a' t') = Failed n page e a t

  Outcome-step :
      (n page frame : ℕ) (a b : BootInfoFrameAllocator) (t t2 : T)
      → (allocate_frame a).0 ≡ some frame
      → map_to page frame (present ∷ writable ∷ []) (allocate_frame a).1 t ≡ map_ok b t2
      → (r : MapResult BootInfoFrameAllocator T) → Outcome n (page + 4096) b t2 r
      → Outcome (suc n) page a t r
  Outcome-step n page frame a b t t2 e m (map_err x a' t') h =
      Failed-later n page frame x a b t t2 e m h
  Outcome-step n page frame a b t t2 e m (map_ok a' t') h =
      let flags = present ∷ writable ∷ [] in
      let took = laws.takes page frame flags (allocate_frame a).1 b t t2 m in
      record {
        backed =
            a_page frame e
              (h.same page (inl (omega arith))
                ∙ laws.maps page frame flags (allocate_frame a).1 b t t2 m)
              (took.0 ∙ stays a) (omega (arith, took.1, advances a)) h.backed;
        same = λ p out.
            h.same p (omega arith)
            ∙ laws.others page frame flags (allocate_frame a).1 b t t2 m p (omega arith);
      }

  map_pages-Outcome :
      (n page : ℕ) (a : BootInfoFrameAllocator) (t : T)
      → Outcome n page a t (map_pages boot_mapper n page a t)
  unfolding map_pages
  map_pages-Outcome zero page a t = record { backed = no_page; same = λ p out. refl }
  map_pages-Outcome (suc n) page a t = elim (Option-cases (allocate_frame a).0) [
    | inl nothing ↦
        rw (nothing, map_pages)
          (Failed-now n page frame_allocation_failed a t (no_frame refl nothing))
    | inr (frame, e) ↦
        elim (MapResult-cases
          (map_to page frame (present ∷ writable ∷ []) (allocate_frame a).1 t)) [
            | inr (x, a', t', m) ↦
                rw (e, map_pages)
                  (rw (m, map_pages) (Failed-now n page x a t (refused frame a' t' e m)))
            | inl (b, t2, m) ↦
                rw (e, map_pages)
                  (rw (m, map_pages)
                    (Outcome-step n page frame a b t t2 e m
                      (map_pages boot_mapper n (page + 4096) b t2)
                      (map_pages-Outcome n (page + 4096) b t2)))
          ]
  ]

  -- The frame behind the page `i`, given out from `a` on.
  record Behind (t : T) (page : ℕ) (a : BootInfoFrameAllocator) : Type 0 where
    pub frame : ℕ
    pub from : BootInfoFrameAllocator
    pub given : (allocate_frame from).0 ≡ some frame
    pub mapped : frame_of t page ≡ some frame
    pub same_map : from.memory_map ≡ a.memory_map
    pub since : a.next_frame ≤ from.next_frame

  Backed-Behind :
      (t : T) (n page i : ℕ) (a : BootInfoFrameAllocator)
      → Backed t n page a
      → i < n
      → Behind t (page + i * 4096) a
  Backed-Behind t zero page i a h l = absurd (omega arith)
  Backed-Behind t (suc n) page zero a (a_page frame g m s b h) l = record {
    frame = frame;
    from = a;
    given = g;
    mapped = let e : page + 0 * 4096 ≡ page = omega arith in rw e m;
    same_map = refl;
    since = omega arith;
  }
  Backed-Behind t (suc n) page (suc i) a (a_page {b = b} frame g m s k h) l =
      let r = Backed-Behind t n (page + 4096) i b h (omega arith) in
      let e : page + 4096 + i * 4096 ≡ page + suc i * 4096 = omega arith in
      record {
        frame = r.frame;
        from = r.from;
        given = r.given;
        mapped = rw (← e) (r.mapped);
        same_map = r.same_map ∙ s;
        since = omega (arith, r.since);
      }

  -- Two pages lie in frames that do not overlap.
  Backed-apart :
      (t : T) (n page i j : ℕ) (a : BootInfoFrameAllocator)
      → IsMap 0 a.memory_map
      → Backed t n page a
      → i < j
      → j < n
      → (x y : ℕ) × (frame_of t (page + i * 4096) ≡ some x)
        × (frame_of t (page + j * 4096) ≡ some y)
        × (x + 4096 ≤ y)
  Backed-apart t zero page i j a w h l k = absurd (omega arith)
  Backed-apart t (suc n) page i zero a w h l k = absurd (omega arith)
  Backed-apart t (suc n) page zero (suc j) a w (a_page {b = b} frame g m s q h) l k =
      let r = Backed-Behind t n (page + 4096) j b h (omega arith) in
      let e : page + 4096 + j * 4096 ≡ page + suc j * 4096 = omega arith in
      let z : page + 0 * 4096 ≡ page = omega arith in
      (
        frame,
        r.frame,
        rw z m,
        rw (← e) (r.mapped),
        allocate_frame-apart a r.from frame r.frame w (r.same_map ∙ s) (omega (arith, r.since)) g
            r.given,
      )
  Backed-apart t (suc n) page (suc i) (suc j) a w (a_page {b = b} frame g m s q h) l k =
      let e : page + 4096 + i * 4096 ≡ page + suc i * 4096 = omega arith in
      let e' : page + 4096 + j * 4096 ≡ page + suc j * 4096 = omega arith in
      rw (← e, ← e')
        (Backed-apart t n (page + 4096) i j b (subst (IsMap 0) (sym s) w) h (omega arith)
          (omega arith))

  -- The heap that the allocator of blocks is given: its pages lie in frames of their own, and no other
  -- page was mapped.
  pub record IsHeap (t : T) (start size : ℕ) (t' : T) : Type 0 where
    pub start_is : start ≡ heap_start
    pub size_is : size ≡ heap_size
    pub apart :
        (i j : ℕ)
        → i < j
        → j * 4096 < heap_size
        → (x y : ℕ) × (frame_of t' (heap_start + i * 4096) ≡ some x)
          × (frame_of t' (heap_start + j * 4096) ≡ some y)
          × (x + 4096 ≤ y)
    pub others :
        (p : ℕ) → (p < heap_start) ⊎ (heap_start + heap_size ≤ p) → frame_of t' p ≡ frame_of t p

  abbrev pub HeapOutcome : BootInfoFrameAllocator → T → HeapResult BootInfoFrameAllocator T → Type 0
  HeapOutcome a t (heap_ready start size a' t') = IsHeap t start size t'
  HeapOutcome a t (heap_error e a' t') = Failed 2048 heap_start e a t

  HeapOutcome-map :
      (a : BootInfoFrameAllocator) (t : T)
      → IsMap 0 a.memory_map
      → (r : MapResult BootInfoFrameAllocator T) → Outcome 2048 heap_start a t r
      → HeapOutcome a t (init_allocator boot_mapper heap_start heap_size r)
  HeapOutcome-map a t w (map_err e a' t') h = h
  HeapOutcome-map a t w (map_ok a' t') h = record {
    start_is = refl;
    size_is = refl;
    apart = λ i j l k. Backed-apart t' 2048 heap_start i j a w h.backed l (omega arith);
    others = λ p out. h.same p (omega arith);
  }

  -- On a memory map whose regions lie in the order of their addresses on page boundaries, and with a
  -- `map_to` that maps the page that it is given and no other: if `init_heap` succeeds, the blocks'
  -- allocator has the range from `HEAP_START`, the pages of that range lie in frames that do not
  -- overlap, and no other page's mapping was changed. If it fails, it has mapped fewer than the
  -- 2,048 pages in their order, each to the frame allocated for it, and for the next page the map
  -- had no frame left, or `map_to` refused it with the error that is returned.
  pub init_heap-IsHeap :
      (a : BootInfoFrameAllocator) (t : T)
      → IsMap 0 a.memory_map
      → HeapOutcome a t (init_heap boot_mapper a t)
  unfolding init_heap
  init_heap-IsHeap a t w =
      HeapOutcome-map a t w (map_pages boot_mapper 2048 heap_start a t)
        (map_pages-Outcome 2048 heap_start a t)
