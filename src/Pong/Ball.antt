-- ===== src/Pong/Ball.antt =====
-- Where the ball can be (src/pong.rs).
use sil_os.Prelude.{
  ℕ, ◌+◌, ◌-◌, ◌≤◌, ◌<◌, ◌≡◌, inl, inr, refl, ap, arith, Bool, true, false, Bool-cases, ℤ, pos,
  negsuc, ◌+ℤ◌, ltb_ℤ, if◌then◌else◌, ◌&&◌, ◌==◌,
}
use sil_os.Pong.{
  PongGame, update, bounce_y, bounce_left, bounce_right, move_paddle, contains, at_paddle, negate,
}

-- One step to a side, or up or down.
pub data IsUnit : ℤ → Type 0 where
  forth : IsUnit (pos 1)
  back : IsUnit (negsuc 0)

-- The ball is on one of the rows 0 to 24, and on the first and the last it is about to come back.
pub data IsInside : ℤ → ℤ → Type 0 where
  at_top : IsInside (pos 0) (pos 1)
  at_bottom : IsInside (pos 24) (negsuc 0)
  falling : (n : ℕ) → 0 < n → n < 24 → IsInside (pos n) (pos 1)
  rising : (n : ℕ) → 0 < n → n < 24 → IsInside (pos n) (negsuc 0)

pub record IsPlayable (g : PongGame) : Type 0 where
  pub row : IsInside g.ball_y g.dy
  pub side : IsUnit g.dx

turn-IsUnit : (b : Bool) (d : ℤ) → IsUnit d → IsUnit (if b then negate d else d)
turn-IsUnit true _ forth = back
turn-IsUnit true _ back = forth
turn-IsUnit false d h = h

bounce_left-IsUnit : (x y p d : ℤ) → IsUnit d → IsUnit (bounce_left x y p d)
bounce_left-IsUnit x y p d h =
    turn-IsUnit (contains (pos 0) (pos 5) x && at_paddle p y && ltb_ℤ d (pos 0)) d h

bounce_right-IsUnit : (x y p d : ℤ) → IsUnit d → IsUnit (bounce_right x y p d)
bounce_right-IsUnit x y p d h =
    turn-IsUnit (contains (pos 76) (pos 80) x && at_paddle p y && ltb_ℤ (pos 0) d) d h

fall : (n : ℕ) → pos n +ℤ pos 1 ≡ pos (n + 1)
fall n = ground arith

rise : (n : ℕ) → 0 < n → pos n +ℤ negsuc 0 ≡ pos (n - 1)
rise n h = ground arith

keeps_on : (n : ℕ) (d : ℤ) → 0 < n → n < 24 → bounce_y (pos n) d ≡ d
keeps_on n d l h = ground arith

IsInside-at : (y y' d d' : ℤ) → y ≡ y' → d ≡ d' → IsInside y' d' → IsInside y d
IsInside-at y y' d d' e f h = rw (e, f) h

fall-IsInside : (n : ℕ) → n < 24 → IsInside (pos (n + 1)) (bounce_y (pos (n + 1)) (pos 1))
fall-IsInside n h = elim (Bool-cases (n == 23)) [
  | inl e ↦
      let last : n + 1 ≡ 24 = ground arith in
      IsInside-at _ (pos 24) _ (negsuc 0) (ap pos last) (ap (λ k. bounce_y (pos k) (pos 1)) last)
        at_bottom
  | inr e ↦
      IsInside-at _ _ _ _ refl (keeps_on (n + 1) (pos 1) (omega arith) (ground arith))
        (falling (n + 1) (omega arith) (ground arith))
]

rise-IsInside :
    (n : ℕ) → 0 < n → n ≤ 24 → IsInside (pos (n - 1)) (bounce_y (pos (n - 1)) (negsuc 0))
rise-IsInside n l h = elim (Bool-cases (n == 1)) [
  | inl e ↦
      let first : n - 1 ≡ 0 = ground arith in
      IsInside-at _ (pos 0) _ (pos 1) (ap pos first) (ap (λ k. bounce_y (pos k) (negsuc 0)) first)
        at_top
  | inr e ↦
      IsInside-at _ _ _ _ refl (keeps_on (n - 1) (negsuc 0) (ground arith) (omega arith))
        (rising (n - 1) (ground arith) (omega arith))
]

step-IsInside : (y d : ℤ) → IsInside y d → IsInside (y +ℤ d) (bounce_y (y +ℤ d) d)
step-IsInside _ _ at_top = falling 1 (omega arith) (omega arith)
step-IsInside _ _ at_bottom = rising 23 (omega arith) (omega arith)
step-IsInside _ _ (falling n l h) = rw (fall n) (fall-IsInside n h)
step-IsInside _ _ (rising n l h) = rw (rise n l) (rise-IsInside n l (omega arith))

-- A ball on one of the rows 0 to 24, about to come back on the first and the last, is so again
-- after `update`, whatever the keys and the paddles do, and it still moves by one to a side.
pub update-IsPlayable : (g : PongGame) → IsPlayable g → IsPlayable (update g)
unfolding update
update-IsPlayable g v = record {
  row = step-IsInside g.ball_y g.dy v.row;
  side =
      let paddle1 = move_paddle g.w_pressed g.s_pressed g.paddle1_y in
      let paddle2 = move_paddle g.up_pressed g.down_pressed g.paddle2_y in
      let x = g.ball_x +ℤ g.dx in
      let y = g.ball_y +ℤ g.dy in
      bounce_right-IsUnit x y paddle2 (bounce_left x y paddle1 g.dx)
        (bounce_left-IsUnit x y paddle1 g.dx v.side);
}
