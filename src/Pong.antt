-- ===== src/Pong.antt =====
-- The game (src/pong.rs). The coordinates are signed; `update` also draws on the canvas.
pub mod Ball
pub mod Run
use sil_os.Prelude.{
  ℕ, zero, suc, ◌+◌, ◌-◌, ◌^◌, Bool, true, false, ◌&&◌, ◌||◌, if◌then◌else◌, ℤ, pos, negsuc, ◌+ℤ◌,
  ◌-ℤ◌, ltb_ℤ, leb_ℤ,
}
use sil_os.Vga.{Buffer, color_code_new, cyan, white, black}
use sil_os.Vga.Canvas.{set_char, clear_canvas}

pub record PongGame : Type 0 where
  pub canvas : Buffer
  pub ball_x : ℤ
  pub ball_y : ℤ
  pub dx : ℤ
  pub dy : ℤ
  pub paddle1_y : ℤ
  pub paddle2_y : ℤ
  pub w_pressed : Bool
  pub s_pressed : Bool
  pub up_pressed : Bool
  pub down_pressed : Bool

abbrev pub new : Buffer → PongGame
new chars = record {
  canvas = chars;
  ball_x = pos 40;
  ball_y = pos 12;
  dx = pos 1;
  dy = pos 1;
  paddle1_y = pos 10;
  paddle2_y = pos 10;
  w_pressed = false;
  s_pressed = false;
  up_pressed = false;
  down_pressed = false;
}

-- The keys and key states that the game tells apart.
pub data KeyCode : Type 0 where
  w : KeyCode
  s : KeyCode
  o : KeyCode
  l : KeyCode
  escape : KeyCode
  other_key : KeyCode

pub data KeyState : Type 0 where
  down : KeyState
  up : KeyState
  other_state : KeyState

pub data Outcome : Type 0 where
  exited : Outcome
  player_1_wins : Outcome
  player_2_wins : Outcome

-- The game goes on, or `run` returns after clearing the canvas.
pub data Step : Type 0 where
  playing : PongGame → Step
  finished : Outcome → PongGame → Step

abbrev pub finish : Outcome → PongGame → Step
finish r g = finished r (record g { canvas = clear_canvas g.canvas })

abbrev pub handle_key : KeyCode → KeyState → PongGame → Step
handle_key w down g = playing (record g { w_pressed = true })
handle_key w up g = playing (record g { w_pressed = false })
handle_key s down g = playing (record g { s_pressed = true })
handle_key s up g = playing (record g { s_pressed = false })
handle_key o down g = playing (record g { up_pressed = true })
handle_key o up g = playing (record g { up_pressed = false })
handle_key l down g = playing (record g { down_pressed = true })
handle_key l up g = playing (record g { down_pressed = false })
handle_key escape down g = finish exited g
handle_key _ _ g = playing g

abbrev pub isize_min : ℤ
isize_min = negsuc (2 ^ 63 - 1)

-- `isize::saturating_sub(1)`
abbrev pub saturating_pred : ℤ → ℤ
saturating_pred y = if ltb_ℤ isize_min y then y -ℤ pos 1 else isize_min

-- One paddle: `24 - paddle_height` is 19.
abbrev pub move_paddle : Bool → Bool → ℤ → ℤ
move_paddle up_key down_key y =
    let y1 = if up_key then saturating_pred y else y in
    if down_key && ltb_ℤ y1 (pos 19) then y1 +ℤ pos 1 else y1

-- `as usize`
abbrev pub to_usize : ℤ → ℕ
to_usize (pos n) = n
to_usize (negsuc n) = 2 ^ 64 - (n + 1)

-- `for offset in offset..offset + n`
unfoldable pub draw_paddle : ℕ → ℕ → ℕ → ℤ → Buffer → Buffer
draw_paddle zero offset paddle_x y chars = chars
draw_paddle (suc n) offset paddle_x y chars =
    let current_y = y +ℤ pos offset in
    draw_paddle n (offset + 1) paddle_x y (
      if leb_ℤ (pos 0) current_y && ltb_ℤ current_y (pos 25)
      then set_char paddle_x (to_usize current_y) b'|' (color_code_new cyan black) chars
      else chars)

-- `(low..high).contains(&x)`
abbrev pub contains : ℤ → ℤ → ℤ → Bool
contains low high x = leb_ℤ low x && ltb_ℤ x high

abbrev pub negate : ℤ → ℤ
negate d = pos 0 -ℤ d

abbrev pub bounce_y : ℤ → ℤ → ℤ
bounce_y y dy = if leb_ℤ y (pos 0) || leb_ℤ (pos 24) y then negate dy else dy

-- The paddles reach from `y - 4` to `y + 3` for the ball.
abbrev pub at_paddle : ℤ → ℤ → Bool
at_paddle paddle y = contains (paddle -ℤ pos 4) (paddle +ℤ pos 4) y

abbrev pub bounce_left : ℤ → ℤ → ℤ → ℤ → ℤ
bounce_left x y paddle dx =
    if contains (pos 0) (pos 5) x && at_paddle paddle y && ltb_ℤ dx (pos 0) then negate dx else dx

abbrev pub bounce_right : ℤ → ℤ → ℤ → ℤ → ℤ
bounce_right x y paddle dx =
    if contains (pos 76) (pos 80) x && at_paddle paddle y && ltb_ℤ (pos 0) dx then negate dx else dx

unfoldable pub draw_game : ℤ → ℤ → PongGame → Buffer
unfolding draw_paddle
draw_game paddle1 paddle2 g =
    set_char (to_usize g.ball_x) (to_usize g.ball_y) b'O' (color_code_new white black)
      (draw_paddle 5 0 76 paddle2 (draw_paddle 5 0 2 paddle1 (clear_canvas g.canvas)))

unfoldable pub update : PongGame → PongGame
unfolding draw_game
update g =
    let paddle1 = move_paddle g.w_pressed g.s_pressed g.paddle1_y in
    let paddle2 = move_paddle g.up_pressed g.down_pressed g.paddle2_y in
    let x = g.ball_x +ℤ g.dx in
    let y = g.ball_y +ℤ g.dy in
    record g {
      canvas = draw_game paddle1 paddle2 g;
      ball_x = x;
      ball_y = y;
      dy = bounce_y y g.dy;
      dx = bounce_right x y paddle2 (bounce_left x y paddle1 g.dx);
      paddle1_y = paddle1;
      paddle2_y = paddle2;
    }

-- The win conditions at the end of a round of `run`.
unfoldable pub check_win : PongGame → Step
check_win g =
    if ltb_ℤ g.ball_x (pos 1)
    then finish player_2_wins g
    else if ltb_ℤ (pos 79) g.ball_x
    then finish player_1_wins g
    else playing g
