-- ===== src/Task/Keyboard/Wakeup.antt =====
-- No scancode is waited for that has arrived, and none is reordered (src/task/keyboard.rs).
use sil_os.Prelude.{
  ℕ, ◌≤◌, ◌<◌, ◌≡◌, ◌≢◌, inl, inr, refl, ap, sym, ◌∙◌, arith, tests, true, Bool-cases, some, List,
  [], ◌∷◌, ◌++◌, ltb, length, take, take_all, take-append_le, length-append, length-take,
  append_nil, append_assoc,
}
use sil_os.Task.Keyboard.{
  Keys, Poll, ready, pending, add_scancode, add_scancodes, pop, second_look, poll_next,
}

-- A scancode on an initialised queue goes last if there is room, else it is dropped.
pub add_scancode_room :
    (code : ℕ) (queue : List ℕ) (k : Keys)
    → k.scancode_queue ≡ some queue
    → length queue < 100
    → (add_scancode code k).scancode_queue ≡ some (queue ++ code ∷ [])
unfolding add_scancode
add_scancode_room code queue k q room = ground arith

pub add_scancode_full :
    (code : ℕ) (queue : List ℕ) (k : Keys)
    → k.scancode_queue ≡ some queue
    → 100 ≤ length queue
    → (add_scancode code k).scancode_queue ≡ some queue
unfolding add_scancode
add_scancode_full code queue k q full = ground arith

-- An initialised queue of at most 100 takes scancodes in the order of their arrival until it holds
-- 100 and drops the others.
pub add_scancodes-queue :
    (codes queue : List ℕ) (k : Keys)
    → k.scancode_queue ≡ some queue
    → length queue ≤ 100
    → (add_scancodes codes k).scancode_queue ≡ some (take 100 (queue ++ codes))
unfolding add_scancodes
add_scancodes-queue [] queue k q fits =
    q ∙ ap some (sym (ap (take 100) (append_nil queue) ∙ take_all 100 queue fits))
add_scancodes-queue (code ∷ codes) queue k q fits = elim (Bool-cases (ltb (length queue) 100)) [
  | inl room ↦
      add_scancodes-queue codes (queue ++ code ∷ []) (add_scancode code k)
        (add_scancode_room code queue k q (omega tests))
        (omega (tests, length-append queue (code ∷ [])))
      ∙ ap (λ xs. some (take 100 xs)) (append_assoc queue (code ∷ []) codes)
  | inr full ↦
      add_scancodes-queue codes queue (add_scancode code k)
        (add_scancode_full code queue k q (omega tests)) fits
      ∙ ap some (
          take-append_le queue codes 100 (omega tests)
          ∙ sym (take-append_le queue (code ∷ codes) 100 (omega tests)))
]

pop_ready :
    (queue : List ℕ) (k : Keys)
    → k.scancode_queue ≡ some queue
    → 0 < length queue
    → (pop k).0 ≢ pending
pop_ready [] k q h = absurd (omega arith)
pop_ready (code ∷ queue) k q h = ground arith

pop_empty : (k : Keys) → k.scancode_queue ≡ some [] → pop k ≡ (pending, k)
pop_empty k q = ground arith

-- The polling task registers between two looks at the queue.
abbrev registered : List ℕ → Keys → Keys
registered before k = record (add_scancodes before k) { waker = true }

poll_registered :
    (before after : List ℕ) (k : Keys)
    → k.scancode_queue ≡ some []
    → poll_next before after k ≡ pop (add_scancodes after (registered before k))
unfolding poll_next second_look
poll_registered before after k q = ap (second_look before after) (pop_empty k q)

first_pending :
    (before after : List ℕ) (r : Poll × Keys)
    → (second_look before after r).0 ≡ pending
    → r.0 ≡ pending
unfolding second_look
first_pending before after (ready code, k) h = h
first_pending before after (pending, k) h = refl

-- No wake-up is lost: if `poll_next` reports that it is pending on an initialised queue of at most
-- 100, then nothing was queued, no scancode arrived before the waker was registered or between that
-- and the second look at the queue, and the waker is still registered.
pub poll_next-pending :
    (before after queue : List ℕ) (k : Keys)
    → k.scancode_queue ≡ some queue
    → length queue ≤ 100
    → (poll_next before after k).0 ≡ pending
    → (queue ≡ []) × (before ≡ []) × (after ≡ []) × ((poll_next before after k).1.waker ≡ true)
unfolding poll_next
poll_next-pending before after (code ∷ queue) k q fits h =
    absurd (pop_ready (code ∷ queue) k q (omega arith) (first_pending before after (pop k) h))
poll_next-pending (b ∷ before) after [] k q fits h =
    let q1 = add_scancodes-queue (b ∷ before) [] k q (omega arith) in
    let q2 =
      add_scancodes-queue after (take 100 (b ∷ before)) (registered (b ∷ before) k) q1
        (omega (arith, length-take 100 (b ∷ before))) in
    absurd (
      pop_ready _ _ q2 (omega arith)
        (ap (λ r. r.0) (sym (poll_registered (b ∷ before) after k q)) ∙ h))
poll_next-pending [] (a ∷ after) [] k q fits h =
    let q2 = add_scancodes-queue (a ∷ after) [] (registered [] k) q (omega arith) in
    absurd (
      pop_ready _ _ q2 (omega arith) (ap (λ r. r.0) (sym (poll_registered [] (a ∷ after) k q)) ∙ h))
poll_next-pending [] [] [] k q fits h = (
  refl,
  refl,
  refl,
  ap (λ r. r.1.waker) (poll_registered [] [] k q ∙ pop_empty (registered [] k) q),
)
