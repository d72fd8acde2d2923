-- ===== src/Task/Keyboard.antt =====
-- The scancode queue (src/task/keyboard.rs) and the queue of decoded keys (src/input.rs). The
-- interrupt handler adds scancodes; the keyboard task polls for them.
pub mod Wakeup
pub mod Decode
use sil_os.Prelude.{
  ℕ, suc, Bool, true, false, Option, none, some, List, [], ◌∷◌, ◌++◌, ltb, if◌then◌else◌, length,
  codes,
}

-- `scancode_queue` before its initialisation is `none`; `waker` says whether the keyboard task is
-- registered to be woken; `woken` counts for a wake-up that is on its way; `warnings` counts the lines that are printed.
pub record Keys : Type 0 where
  pub scancode_queue : Option (List ℕ)
  pub waker : Bool
  pub woken : Bool
  pub warnings : ℕ

-- `ArrayQueue::push` with room for 100.
abbrev pub try_push : ℕ → List ℕ → Option (List ℕ)
try_push code queue = if ltb (length queue) 100 then some (queue ++ code ∷ []) else none

-- `WAKER.wake()`: a registered waker is taken and woken.
abbrev pub wake : Keys → Keys
wake k = if k.waker then (record k { waker = false; woken = true }) else k

abbrev pub warn : Keys → Keys
warn k = record k { warnings = suc k.warnings }

-- What `add_scancode` prints in this state.
abbrev pub scancode_warning : Keys → Option (List ℕ)
scancode_warning k = elim k.scancode_queue [
  | none ↦ some (codes "WARNING: scancode queue uninitialized")
  | some queue ↦
      if ltb (length queue) 100
      then none
      else some (codes "WARNING: scancode queue full; dropping keyboard input")
]

unfoldable pub add_scancode : ℕ → Keys → Keys
add_scancode code k = elim k.scancode_queue [
  | none ↦ warn k
  | some queue ↦ elim (try_push code queue) [
    | none ↦ warn k
    | some queue' ↦ wake (record k { scancode_queue = some queue' })
  ]
]

unfoldable pub add_scancodes : List ℕ → Keys → Keys
unfolding add_scancode
add_scancodes [] k = k
add_scancodes (code ∷ codes) k = add_scancodes codes (add_scancode code k)

-- `add_processed_char` on `INPUT_QUEUE`, which is `none` before its initialisation. Nothing makes the
-- queue, so the room that it would have is an argument.
abbrev pub add_processed_char : ℕ → ℕ → Option (List ℕ) → Option (List ℕ)
add_processed_char room c none = none
add_processed_char room c (some queue) =
    if ltb (length queue) room then some (queue ++ c ∷ []) else some queue

-- `ScancodeStream::new`; a second call panics.
abbrev pub stream_new : Keys → Option Keys
stream_new k = elim k.scancode_queue [
  | none ↦ some (record k { scancode_queue = some [] })
  | some queue ↦ none
]

pub data Poll : Type 0 where
  ready : ℕ → Poll
  pending : Poll

-- `queue.pop()`: the code, if there is one, and the rest of the queue.
abbrev pub pop : Keys → Poll × Keys
pop k = elim k.scancode_queue [
  | none ↦ (pending, k)
  | some queue ↦ elim queue [
    | [] ↦ (pending, k)
    | code ∷ queue' ↦ (ready code, record k { scancode_queue = some queue' })
  ]
]

-- The second look at the queue, once the waker is registered.
unfoldable pub second_look : List ℕ → List ℕ → Poll × Keys → Poll × Keys
unfolding add_scancodes
second_look before after (ready code, k) = (ready code, k)
second_look before after (pending, k) =
    pop (add_scancodes after (record (add_scancodes before k) { waker = true }))

-- `poll_next` while the interrupt handler adds the codes `before` between the first `pop` and the
-- registration of the waker, and `after` between the registration and the second `pop`.
unfoldable pub poll_next : List ℕ → List ℕ → Keys → Poll × Keys
unfolding second_look
poll_next before after k = second_look before after (pop k)
