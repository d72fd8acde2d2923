-- ===== src/Task/Keyboard/Decode.antt =====
-- From scancodes to key events (src/task/keyboard.rs: `print_keypresses`; src/input.rs). Decoding is the
-- pc_keyboard crate's: `add_byte` takes a scancode and the decoder's state of type `K`, and gives an event
-- of type `E` where one is complete; what is no scancode gives none.
use sil_os.Prelude.{ℕ, Option, none, some, List, [], ◌∷◌, ◌++◌}

module _ {E K : Type 0} (add_byte : ℕ → K → K × Option E) where
  -- `KEY_EVENT_QUEUE.lock().push_back(key_event)`
  abbrev pub push_event : Option E → List E → List E
  push_event none queue = queue
  push_event (some key_event) queue = queue ++ key_event ∷ []

  -- The loop over the scancodes that the stream gives.
  unfoldable pub print_keypresses : List ℕ → K → List E → K × List E
  print_keypresses [] keyboard queue = (keyboard, queue)
  print_keypresses (scancode ∷ scancodes) keyboard queue =
      let (keyboard', decoded) = add_byte scancode keyboard in
      print_keypresses scancodes keyboard' (push_event decoded queue)

-- `pop_key`
abbrev pub pop_key : {E : Type 0} → List E → Option E × List E
pop_key [] = (none, [])
pop_key (key_event ∷ queue) = (some key_event, queue)
