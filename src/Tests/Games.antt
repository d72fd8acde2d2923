-- ===== src/Tests/Games.antt =====
-- The game and the hash map at concrete inputs (src/pong.rs, src/hashmap.rs).
use sil_os.Prelude.{ℕ, zero, suc, ◌≡◌, ◌==◌, refl, arith, true, List, none, some, negsuc}
use sil_os.Vga.{blank}
use sil_os.Pong.{PongGame, new, update}
use sil_os.Pong.Ball.{IsPlayable, falling, forth, update-IsPlayable}
use sil_os.HashMap.{Key, buckets_new, get, put, remove_key}
use sil_os.HashMap.Laws.{get-put, get-remove_key, put-panics}

abbrev new_game : PongGame
new_game = new λ r k. blank 0

new_game-IsPlayable : IsPlayable new_game
new_game-IsPlayable = record { row = falling 12 (omega arith) (omega arith); side = forth }

update-IsPlayable_example : IsPlayable (update new_game)
update-IsPlayable_example = update-IsPlayable new_game new_game-IsPlayable

abbrev updates : ℕ → PongGame → PongGame
updates zero g = g
updates (suc n) g = updates n (update g)

-- Nothing keeps the paddle on the screen while its key is held.
paddle_leaves : (updates 11 (record new_game { w_pressed = true })).paddle1_y ≡ negsuc 0
unfolding update
paddle_leaves = refl

-- Numbers that are their own hash.
abbrev number_key : Key ℕ
number_key = record { hash = λ n. n; eq = λ a b. a == b }

abbrev empty_map : List (List (ℕ × ℕ))
empty_map = buckets_new number_key

nothing_yet : get number_key 5 empty_map ≡ none
unfolding get
nothing_yet = refl

get-put_example :
    (buckets' : List (List (ℕ × ℕ))) × (put number_key 5 8 empty_map ≡ some buckets')
    × (get number_key 5 buckets' ≡ some 8)
get-put_example = get-put number_key 5 refl empty_map (omega arith) 8 nothing_yet

get-remove_key_example :
    (buckets' : List (List (ℕ × ℕ))) × (remove_key number_key 5 8 empty_map ≡ some buckets')
    × (get number_key 5 buckets' ≡ none)
get-remove_key_example = get-remove_key number_key 5 refl empty_map (omega arith) 8

put_200 : put number_key 200 8 empty_map ≡ none
put_200 = put-panics number_key 200 refl 8 empty_map (omega arith)
