-- ===== src/Pong/Run.antt =====
-- The loop of the game (src/pong.rs: `PongGame::run`), over what each of its rounds finds in the
-- queue of key events. `wait` only passes time.
use sil_os.Prelude.{Option, none, some, List, [], ◌∷◌}
use sil_os.Pong.{
  PongGame, KeyCode, KeyState, Outcome, Step, playing, finished, handle_key, update, check_win,
}

module _ {E : Type 0} (code : E → KeyCode) (state : E → KeyState) where
  -- `while let Some(key_event) = pop_key()`: what is left in the queue, and the step.
  unfoldable pub handle_keys : List E → PongGame → List E × Step
  handle_keys [] g = ([], playing g)
  handle_keys (e ∷ queue) g = elim (handle_key (code e) (state e) g) [
    | playing g' ↦ handle_keys queue g'
    | finished r g' ↦ (queue, finished r g')
  ]

  -- The rounds, until the game ends; `none` says that the rounds ran out first.
  unfoldable pub run : List (List E) → PongGame → Option (Outcome × PongGame × List (List E))
  unfolding handle_keys update check_win
  run [] g = none
  run (queue ∷ polls) g =
      let (left, step) = handle_keys queue g in
      elim step [
        | finished r g' ↦ some (r, g', left ∷ polls)
        | playing g' ↦ elim (check_win (update g')) [
          | finished r g'' ↦ some (r, g'', polls)
          | playing g'' ↦ run polls g''
        ]
      ]
