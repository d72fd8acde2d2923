-- ===== src/Task.antt =====
-- Tasks and the queues that feed them (src/task/, src/input.rs). What a future does when it is
-- polled is a parameter: from its own state it says whether it is done, what it has become, and
-- which tasks its wakers woke meanwhile.
pub mod Executor
pub mod Keyboard
use sil_os.Prelude.{ℕ, ◌+◌, ◌%◌, ◌^◌, Bool, true, false, List, [], ◌∷◌}

pub record Polled (F : Type 0) : Type 0 where
  pub ready : Bool
  pub future : F
  pub wakes : List ℕ

-- `TaskId::new`: the id handed out and the next value of the counter.
abbrev pub task_id_new : ℕ → ℕ × ℕ
task_id_new next_id = (next_id, (next_id + 1) % 2 ^ 64)

-- `YieldNow::poll` in the task `id`: pending once, after waking its own task.
abbrev pub poll_yield_now : ℕ → Bool → Polled Bool
poll_yield_now id true = record { ready = true; future = true; wakes = [] }
poll_yield_now id false = record { ready = false; future = true; wakes = id ∷ [] }
