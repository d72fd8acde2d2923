-- ===== src/Interrupts/Delivered.antt =====
-- Interrupts in the order of their arrival, from the PICs to the keyboard's queue (src/interrupts.rs).
use sil_os.Prelude.{
  ℕ, Bool, if◌then◌else◌, ◌≤◌, ◌<◌, ◌≡◌, ◌≢◌, ◌⊎◌, ◌∙◌, inl, inr, refl, ap, sym, arith, tests,
  false, Bool-cases, Option, none, some, List, [], ◌∷◌, ◌++◌, ltb, length, take, codes, utf8,
  append_nil, append_assoc, take_all, take-append_le, length-append,
}
use mathlib.Core.Path.{subst}
use sil_os.Vga.Printing.{IsWriter, write_string-IsWriter}
use sil_os.Task.Keyboard.{Keys, scancode_warning, add_scancode}
use sil_os.Task.Keyboard.Wakeup.{add_scancode_room, add_scancode_full}
use sil_os.Interrupts.{
  InterruptIndex, timer, keyboard, ata_primary, ata_secondary, as_u8, as_usize, Machine, Details,
  Handled, returned, halted, waits, print_warning, end_keyboard, deliver,
}

-- What a PIC's interrupt brings: its index, and the code at the keyboard's port.
abbrev pub Event : Type 0
Event = InterruptIndex × Details

-- The codes of the keyboard's interrupts among them, and the vectors of all.
abbrev pub codes_of : List Event → List ℕ
codes_of [] = []
codes_of ((keyboard, d) ∷ events) = d.scancode ∷ codes_of events
codes_of ((timer, d) ∷ events) = codes_of events
codes_of ((ata_primary, d) ∷ events) = codes_of events
codes_of ((ata_secondary, d) ∷ events) = codes_of events

abbrev pub vectors_of : List Event → List ℕ
vectors_of [] = []
vectors_of ((index, d) ∷ events) = as_u8 index ∷ vectors_of events

-- One interrupt after the other; `none` is one without a handler, or a handler that does not return.
abbrev pub after_handled : Option Handled → (Machine → Option Machine) → Option Machine
after_handled none next = none
after_handled (some halted) next = none
after_handled (some waits) next = none
after_handled (some (returned m)) next = next m

unfoldable pub deliver_all : List Event → Machine → Option Machine
deliver_all [] m = some m
deliver_all ((index, d) ∷ events) m =
    after_handled (deliver (as_usize index) d m) (deliver_all events)

-- None of them is of the second ATA channel, which has no handler.
abbrev pub AllHandled : List Event → Type 0
AllHandled [] = Unit
AllHandled ((index, d) ∷ events) = (index ≢ ata_secondary) × AllHandled events

warning_room :
    (queue : List ℕ) (k : Keys)
    → k.scancode_queue ≡ some queue
    → length queue < 100
    → scancode_warning k ≡ none
warning_room queue k q room = ground arith

warning_full :
    (queue : List ℕ) (k : Keys)
    → k.scancode_queue ≡ some queue
    → 100 ≤ length queue
    → (text : List ℕ) × (scancode_warning k ≡ some text)
warning_full queue k q full =
    (codes "WARNING: scancode queue full; dropping keyboard input", ground arith)

-- No code is dropped, or the screen is free and in order.
abbrev pub MayPrint : List ℕ → Machine → Type 0
MayPrint codes m = (length codes ≤ 100) ⊎ ((m.writer_locked ≡ false) × IsWriter m.writer)

unlocked : (locked : Bool) → locked ≡ false → (h : Handled) → (if locked then waits else h) ≡ h
unlocked locked e h = rw e refl

-- A warning that is printed: the handler goes on.
prints :
    (text : List ℕ) (next : Machine → Handled) (m : Machine)
    → m.writer_locked ≡ false
    → IsWriter m.writer
    → (w : _) × (print_warning (some text) next m ≡ next (record m { writer = w })) × IsWriter w
prints text next m free fits =
    let (w, e, i) = write_string-IsWriter (utf8 (text ++ codes "\n")) m.writer fits in
    (w, unlocked m.writer_locked free _ ∙ rw e refl, i)

-- However the interrupts of the timer, the keyboard and the first ATA channel follow each other, if
-- there is room for all scancodes, or the interrupted code does not hold the lock of the writer,
-- whose column is in its row: each of them is handled and returns, and the PICs are told the end
-- of each one's own vector, in their order. The keyboard's queue takes the codes in their order
-- until it holds 100 and drops the others.
pub deliver_all-queue :
    (events : List Event) (m : Machine) (queue : List ℕ)
    → AllHandled events
    → m.keys.scancode_queue ≡ some queue
    → length queue ≤ 100
    → MayPrint (queue ++ codes_of events) m
    → (m' : Machine) × (deliver_all events m ≡ some m')
      × (m'.keys.scancode_queue ≡ some (take 100 (queue ++ codes_of events)))
      × (m'.ended ≡ m.ended ++ vectors_of events)
unfolding deliver_all deliver as_u8
deliver_all-queue [] m queue h q fits may = (
  m,
  refl,
  q ∙ ap some (sym (ap (take 100) (append_nil queue) ∙ take_all 100 queue fits)),
  sym (append_nil m.ended),
)
deliver_all-queue ((timer, d) ∷ events) m queue h q fits may =
    let (m', e, k, v) =
      deliver_all-queue events (record m { ended = m.ended ++ 32 ∷ [] }) queue h.1 q fits may in
    (m', e, k, v ∙ append_assoc m.ended (32 ∷ []) (vectors_of events))
deliver_all-queue ((ata_primary, d) ∷ events) m queue h q fits may =
    let (m', e, k, v) =
      deliver_all-queue events (record m { ended = m.ended ++ 46 ∷ [] }) queue h.1 q fits may in
    (m', e, k, v ∙ append_assoc m.ended (46 ∷ []) (vectors_of events))
deliver_all-queue ((ata_secondary, d) ∷ events) m queue h q fits may = absurd (h.0 refl)
deliver_all-queue ((keyboard, d) ∷ events) m queue h q fits may =
    let added = record m { keys = add_scancode d.scancode m.keys } in
    elim (Bool-cases (ltb (length queue) 100)) [
      | inl room ↦
          let less : length queue < 100 = omega tests in
          let again = append_assoc queue (d.scancode ∷ []) (codes_of events) in
          let (m', e, k, v) =
            deliver_all-queue events (record added { ended = m.ended ++ 33 ∷ [] })
              (queue ++ d.scancode ∷ []) h.1 (add_scancode_room d.scancode queue m.keys q less)
              (omega (arith, length-append queue (d.scancode ∷ [])))
              (subst (λ xs. MayPrint xs m) (sym again) may) in
          (
            m',
            ap (λ w. after_handled (some (print_warning w end_keyboard added)) (deliver_all events))
                  (warning_room queue m.keys q less)
                ∙ e,
            k ∙ ap (λ xs. some (take 100 xs)) again,
            v ∙ append_assoc m.ended (33 ∷ []) (vectors_of events),
          )
      | inr full ↦
          let more : 100 ≤ length queue = omega tests in
          elim may [
            | inl all_fit ↦
                absurd (omega (arith, length-append queue (d.scancode ∷ codes_of events)))
            | inr (free, in_row) ↦
                let (text, warns) = warning_full queue m.keys q more in
                let (w, printed, i) = prints text end_keyboard added free in_row in
                let (m', e, k, v) =
                  deliver_all-queue events (record added { writer = w; ended = m.ended ++ 33 ∷ [] })
                    queue h.1 (add_scancode_full d.scancode queue m.keys q more) fits
                    (inr (free, i)) in
                (
                  m',
                  ap
                        (λ x.
                          after_handled (some (print_warning x end_keyboard added))
                            (deliver_all events))
                        warns
                      ∙ ap (λ x. after_handled (some x) (deliver_all events)) printed
                      ∙ e,
                  k
                      ∙ ap some (
                          take-append_le queue (codes_of events) 100 more
                          ∙ sym (take-append_le queue (d.scancode ∷ codes_of events) 100 more)),
                  v ∙ append_assoc m.ended (33 ∷ []) (vectors_of events),
                )
          ]
    ]
