-- ===== src/Task/Executor.antt =====
-- The executor (src/task/executor.rs). A push to the full task queue panics, as does a task whose
-- id is taken: both are `none`.
pub mod Fair
use sil_os.Prelude.{
  ℕ, zero, suc, Bool, Option, none, some, List, [], ◌∷◌, ◌++◌, ltb, if◌then◌else◌, length, lookup,
  insert, remove, is_empty, not,
}
use sil_os.Task.{Polled}

-- A waker is known by the task that it wakes.
pub record Executor (F : Type 0) : Type 0 where
  pub tasks : List (ℕ × F)
  pub task_queue : List ℕ
  pub waker_cache : List (ℕ × ℕ)

abbrev pub queue_size : ℕ
queue_size = 100

abbrev pub new : {F : Type 0} → Executor F
new = record { tasks = []; task_queue = []; waker_cache = [] }

-- `ArrayQueue::push(..).expect(..)`
abbrev pub push : ℕ → List ℕ → Option (List ℕ)
push id queue = if ltb (length queue) queue_size then some (queue ++ id ∷ []) else none

-- `TaskWaker::wake_task`, for one waker after the other.
abbrev pub wake_tasks : List ℕ → List ℕ → Option (List ℕ)
wake_tasks [] queue = some queue
wake_tasks (id ∷ ids) queue = elim (push id queue) [ none ↦ none | some q ↦ wake_tasks ids q ]

module _ {F : Type 0} (poll : ℕ → F → Polled F) where
  unfoldable pub spawn : ℕ → F → Executor F → Option (Executor F)
  spawn id task e = elim (lookup id e.tasks) [
    | some old ↦ none
    | none ↦ elim (push id e.task_queue) [
      | none ↦ none
      | some queue ↦ some (record e { tasks = insert id task e.tasks; task_queue = queue })
    ]
  ]

  -- `waker_cache.entry(task_id).or_insert_with(..)`
  abbrev pub cached : ℕ → List (ℕ × ℕ) → List (ℕ × ℕ)
  cached id cache = elim (lookup id cache) [ none ↦ insert id id cache | some w ↦ cache ]

  -- What is left of a task that was polled.
  abbrev pub after_poll : ℕ → Polled F → List ℕ → Executor F → Executor F
  after_poll id p queue e =
      if p.ready
      then (record {
        tasks = remove id e.tasks;
        task_queue = queue;
        waker_cache = remove id (cached id e.waker_cache);
      })
      else (record {
        tasks = insert id p.future e.tasks;
        task_queue = queue;
        waker_cache = cached id e.waker_cache;
      })

  -- The body of `while let Some(task_id) = task_queue.pop()`.
  unfoldable pub run_task : ℕ → List ℕ → Executor F → Option (Executor F)
  run_task id queue e = elim (lookup id e.tasks) [
    | none ↦ some (record e { task_queue = queue })
    | some task ↦ elim (wake_tasks (poll id task).wakes queue) [
      | none ↦ none
      | some queue' ↦ some (after_poll id (poll id task) queue' e)
    ]
  ]

  -- At most `n` rounds of `run_ready_tasks`, which goes on while tasks wake each other.
  unfoldable pub run_ready_tasks : ℕ → Executor F → Option (Executor F)
  unfolding run_task
  run_ready_tasks zero e = some e
  run_ready_tasks (suc n) e = elim e.task_queue [
    | [] ↦ some e
    | id ∷ queue ↦ elim (run_task id queue e) [ none ↦ none | some e' ↦ run_ready_tasks n e' ]
  ]

  -- `sleep_if_idle`: whether the processor halts until the next interrupt.
  abbrev pub sleep_if_idle : Executor F → Bool
  sleep_if_idle e = is_empty e.task_queue
