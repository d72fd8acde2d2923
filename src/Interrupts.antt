-- ===== src/Interrupts.antt =====
-- The interrupt handlers and their table (src/interrupts.rs), and `hlt_loop` (src/lib.rs), where a
-- handler ends that does not return. What the processor shows of a fault is given as text.
pub mod Delivered
use sil_os.Prelude.{
  ℕ, Bool, ◌+◌, Option, none, some, List, [], ◌∷◌, ◌++◌, ◌==◌, if◌then◌else◌, codes, utf8,
}
use sil_os.Vga.{Writer, write_string}
use sil_os.Task.Keyboard.{Keys, scancode_warning, add_scancode}

abbrev pub pic_1_offset : ℕ
pic_1_offset = 32

abbrev pub pic_2_offset : ℕ
pic_2_offset = pic_1_offset + 8

pub data InterruptIndex : Type 0 where
  timer keyboard ata_primary ata_secondary : InterruptIndex

unfoldable pub as_u8 : InterruptIndex → ℕ
as_u8 timer = pic_1_offset
as_u8 keyboard = pic_1_offset + 1
as_u8 ata_primary = pic_1_offset + 14
as_u8 ata_secondary = pic_1_offset + 15

abbrev pub as_usize : InterruptIndex → ℕ
as_usize index = as_u8 index

-- What the handlers change: the keyboard's queue, the screen, and what the PICs were told, in order:
-- `notify_end_of_interrupt` with these vectors. `writer_locked` says whether the code that was
-- interrupted holds the lock of the screen's writer.
pub record Machine : Type 0 where
  pub keys : Keys
  pub writer : Writer
  pub writer_locked : Bool
  pub ended : List ℕ

-- What comes with an interrupt: the code at port 0x60, and the texts of the stack frame, of the
-- register CR2, of a page fault's error code and of a panic.
pub record Details : Type 0 where
  pub scancode : ℕ
  pub stack_frame : List ℕ
  pub cr2 : List ℕ
  pub error_code : List ℕ
  pub panic_info : List ℕ

-- A handler returns; or the processor stays in `hlt_loop`, where a panic while it prints ends too; or
-- the handler waits for a lock that the interrupted code holds, which does not go on meanwhile.
pub data Handled : Type 0 where
  returned : Machine → Handled
  halted : Handled
  waits : Handled

-- `PICS.lock().notify_end_of_interrupt(..)`
abbrev pub notify_end_of_interrupt : InterruptIndex → Machine → Machine
notify_end_of_interrupt index m = record m { ended = m.ended ++ as_u8 index ∷ [] }

abbrev pub print_line : List ℕ → (Machine → Handled) → Machine → Handled
print_line text next m =
    if m.writer_locked then waits else elim (write_string (utf8 (text ++ codes "\n")) m.writer) [
      | none ↦ halted
      | some w ↦ next (record m { writer = w })
    ]

abbrev pub print_warning : Option (List ℕ) → (Machine → Handled) → Machine → Handled
print_warning none next m = next m
print_warning (some text) next m = print_line text next m

unfoldable pub timer_interrupt_handler : Machine → Handled
timer_interrupt_handler m = returned (notify_end_of_interrupt timer m)

unfoldable pub ata_interrupt_handler : Machine → Handled
ata_interrupt_handler m = returned (notify_end_of_interrupt ata_primary m)

abbrev pub end_keyboard : Machine → Handled
end_keyboard m = returned (notify_end_of_interrupt keyboard m)

unfoldable pub keyboard_interrupt_handler : ℕ → Machine → Handled
unfolding add_scancode
keyboard_interrupt_handler scancode m =
    print_warning (scancode_warning m.keys) end_keyboard
      (record m { keys = add_scancode scancode m.keys })

-- `hlt_loop()` does not return.
abbrev pub hlt_loop : Machine → Handled
hlt_loop m = halted

unfoldable pub page_fault_handler : Details → Machine → Handled
page_fault_handler d = print_line (codes "EXCEPTION: PAGE FAULT") (
    print_line (codes "Accessed Address: " ++ d.cr2)
      (print_line (codes "Error Code: " ++ d.error_code) (print_line d.stack_frame hlt_loop)))

unfoldable pub breakpoint_handler : Details → Machine → Handled
breakpoint_handler d = print_line (codes "EXCEPTION: BREAKPOINT\n" ++ d.stack_frame) returned

-- The panic handler prints what it is given and halts.
unfoldable pub double_fault_handler : Details → Machine → Handled
double_fault_handler d = print_line d.panic_info hlt_loop

abbrev pub Handler : Type 0
Handler = Details → Machine → Handled

-- An entry of the table; of two for one vector the later one holds.
abbrev pub set_handler_fn : ℕ → Handler → (ℕ → Option Handler) → ℕ → Option Handler
set_handler_fn vector handler idt v = if v == vector then some handler else idt v

-- Breakpoint, double fault and page fault have the vectors 3, 8 and 14.
unfoldable pub idt : ℕ → Option Handler
unfolding as_u8 timer_interrupt_handler ata_interrupt_handler keyboard_interrupt_handler
    page_fault_handler breakpoint_handler double_fault_handler
idt = set_handler_fn 14 page_fault_handler (
    set_handler_fn (as_usize ata_primary) (λ d m. ata_interrupt_handler m)
      (set_handler_fn (as_usize keyboard) (λ d m. keyboard_interrupt_handler d.scancode m)
        (set_handler_fn (as_usize timer) (λ d m. timer_interrupt_handler m)
          (set_handler_fn 8 double_fault_handler
            (set_handler_fn 3 breakpoint_handler (λ v. none))))))

-- An interrupt with a handler.
unfoldable pub deliver : ℕ → Details → Machine → Option Handled
unfolding idt
deliver vector d m = elim (idt vector) [ none ↦ none | some handler ↦ some (handler d m) ]
