-- ===== src/Task/Executor/Fair.antt =====
-- The executor does not panic and serves its queue in order (src/task/executor.rs).
use sil_os.Prelude.{
  ℕ, zero, suc, ◌≤◌, ◌<◌, ◌≡◌, ◌⊎◌, inl, inr, refl, ap, sym, ◌∙◌, arith, true, Bool-cases,
  Option-cases, none, some, List, [], ◌∷◌, ◌++◌, length, length-append, append_nil, append_assoc,
  lookup, insert, length-remove, length-insert_new, length-insert_old, lookup-insert_self,
}
use sil_os.Task.{Polled}
use sil_os.Task.Executor.{Executor, push, wake_tasks, spawn, after_poll, run_task, run_ready_tasks}

-- No more queued wake-ups than tasks, and no more tasks than the queue has room for.
pub record IsExecutor {F : Type 0} (e : Executor F) : Type 0 where
  pub queued : length e.task_queue ≤ length e.tasks
  pub fits : length e.tasks ≤ 100

-- A future that is woken at most once by each poll, and not when it is done.
pub record WakesOnce {F : Type 0} (p : Polled F) : Type 0 where
  pub once : length p.wakes ≤ 1
  pub done : p.ready ≡ true → p.wakes ≡ []

push_lem : (id : ℕ) (queue : List ℕ) → length queue < 100 → push id queue ≡ some (queue ++ id ∷ [])
push_lem id queue h = ground arith

wake_lem :
    (ids queue : List ℕ)
    → length ids ≤ 1
    → length queue < 100
    → wake_tasks ids queue ≡ some (queue ++ ids)
wake_lem [] queue l h = ap some (sym (append_nil queue))
wake_lem (id ∷ []) queue l h = rw (push_lem id queue h, wake_tasks) refl
wake_lem (a ∷ b ∷ ids) queue l h = absurd (omega arith)

-- An empty queue ends `run_ready_tasks`, a queued id is one more round.
module _ {F : Type 0} (poll : ℕ → F → Polled F) (n : ℕ) (e : Executor F) where
  run_idle : e.task_queue ≡ [] → run_ready_tasks poll (suc n) e ≡ some e
  unfolding run_ready_tasks
  run_idle idle = ground arith

  run_next :
      (id : ℕ) (queue : List ℕ) (e' : Executor F)
      → e.task_queue ≡ id ∷ queue
      → run_task poll id queue e ≡ some e'
      → run_ready_tasks poll (suc n) e ≡ run_ready_tasks poll n e'
  unfolding run_ready_tasks
  run_next id queue e' q ran = rw (q, ran, run_ready_tasks) refl

assoc_behind :
    (front : List ℕ) (id : ℕ) (back extra queue : List ℕ)
    → queue ≡ (front ++ (id ∷ back)) ++ extra
    → queue ≡ front ++ (id ∷ (back ++ extra))
assoc_behind front id back extra queue e = e ∙ append_assoc front (id ∷ back) extra

queue_cases : (queue : List ℕ) → (queue ≡ []) ⊎ ((id : ℕ) × (rest : List ℕ) × (queue ≡ id ∷ rest))
queue_cases [] = inl refl
queue_cases (id ∷ rest) = inr (id, rest, refl)

module _ {F : Type 0} (poll : ℕ → F → Polled F) where
  -- One round took `id` off the queue: what is behind it moved up, and new wake-ups came last.
  record Served (queue : List ℕ) (e e' : Executor F) : Type 0 where
    extra : List ℕ
    behind : e'.task_queue ≡ queue ++ extra
    executor : IsExecutor e'

  after_poll-Served :
      (id : ℕ) (queue : List ℕ) (e : Executor F) (task : F) (p : Polled F)
      → WakesOnce p
      → lookup id e.tasks ≡ some task
      → IsExecutor e
      → e.task_queue ≡ id ∷ queue
      → Served queue e (after_poll poll id p (queue ++ p.wakes) e)
  after_poll-Served id queue e task p w at v q = elim (Bool-cases p.ready) [
    | inl ready ↦
        let l = length-remove id task e.tasks at in
        rw (ready, after_poll)
          (record {
            extra = p.wakes;
            behind = refl;
            executor = record {
              queued = omega (
                arith,
                l,
                v.queued,
                ap length q,
                ap length (w.done ready),
                length-append queue p.wakes,
              );
              fits = omega (arith, l, v.fits);
            };
          })
    | inr pending ↦
        let l = length-insert_old id p.future task e.tasks at in
        rw (pending, after_poll)
          (record {
            extra = p.wakes;
            behind = refl;
            executor = record {
              queued = omega (arith, l, v.queued, ap length q, w.once, length-append queue p.wakes);
              fits = omega (arith, l, v.fits);
            };
          })
  ]

  run_task-Served :
      (wakes : (id : ℕ) (task : F) → WakesOnce (poll id task))
      → (id : ℕ) (queue : List ℕ) (e : Executor F) → IsExecutor e
      → e.task_queue ≡ id ∷ queue
      → (e' : Executor F) × (run_task poll id queue e ≡ some e') × Served queue e e'
  unfolding run_task
  run_task-Served wakes id queue e v q = elim (Option-cases (lookup id e.tasks)) [
    | inl gone ↦ (
      record e { task_queue = queue },
      rw (gone, run_task) refl,
      record {
        extra = [];
        behind = sym (append_nil queue);
        executor = record { queued = omega (arith, v.queued, ap length q); fits = v.fits };
      },
    )
    | inr (task, at) ↦
        let p = poll id task in
        let woken : wake_tasks p.wakes queue ≡ some (queue ++ p.wakes) =
          wake_lem p.wakes queue (wakes id task).once
            (omega (arith, v.queued, v.fits, ap length q)) in
        (
          after_poll poll id p (queue ++ p.wakes) e,
          rw (at, woken, run_task) refl,
          after_poll-Served id queue e task p (wakes id task) at v q,
        )
  ]

  -- If futures are woken at most once by each poll, and not when they are done, and there are at
  -- most 100 tasks and no more queued wake-ups than tasks, then however many rounds
  -- `run_ready_tasks` takes, it never panics on a full queue, and the wake-ups that are queued stay
  -- no more than the tasks.
  pub run_ready_tasks-IsExecutor :
      (wakes : (id : ℕ) (task : F) → WakesOnce (poll id task))
      → (n : ℕ) (e : Executor F) → IsExecutor e
      → (e' : Executor F) × (run_ready_tasks poll n e ≡ some e') × IsExecutor e'
  unfolding run_ready_tasks
  run_ready_tasks-IsExecutor wakes zero e v = (e, refl, v)
  run_ready_tasks-IsExecutor wakes (suc n) e v = elim (queue_cases e.task_queue) [
    | inl idle ↦ (e, run_idle poll n e idle, v)
    | inr (id, queue, q) ↦
        let (e1, ran, s) = run_task-Served wakes id queue e v q in
        let (e2, rest, v2) = run_ready_tasks-IsExecutor wakes n e1 s.executor in
        (e2, run_next poll n e id queue e1 q ran ∙ rest, v2)
  ]

  -- Under the same conditions the queue is served in order: a task that stands behind the wake-ups `front` is next after as
  -- many rounds as `front` is long, whatever is woken meanwhile.
  pub run_ready_tasks-next :
      (wakes : (id : ℕ) (task : F) → WakesOnce (poll id task))
      → (front : List ℕ) (id : ℕ) (back : List ℕ) (e : Executor F) → IsExecutor e
      → e.task_queue ≡ front ++ (id ∷ back)
      → (e' : Executor F) × (later : List ℕ) × (run_ready_tasks poll (length front) e ≡ some e')
        × (e'.task_queue ≡ id ∷ (back ++ later))
  unfolding run_ready_tasks
  run_ready_tasks-next wakes [] id back e v q =
      (e, [], refl, q ∙ ap (id ∷◌) (sym (append_nil back)))
  run_ready_tasks-next wakes (x ∷ front) id back e v q =
      let (e1, ran, s) = run_task-Served wakes x (front ++ id ∷ back) e v q in
      let (e2, later, rest, next) =
        run_ready_tasks-next wakes front id (back ++ s.extra) e1 s.executor
          (assoc_behind front id back s.extra e1.task_queue s.behind) in
      (
        e2,
        s.extra ++ later,
        run_next poll (length front) e x (front ++ id ∷ back) e1 q ran ∙ rest,
        next ∙ ap (id ∷◌) (append_assoc back s.extra later),
      )

  -- A new task with a fresh id is spawned without a panic as long as there are fewer than 100 tasks
  -- and no more queued wake-ups than tasks; it is found under its id, and its wake-up is the last
  -- in the queue.
  pub spawn-IsExecutor :
      (id : ℕ) (task : F) (e : Executor F)
      → IsExecutor e
      → lookup id e.tasks ≡ none
      → length e.tasks < 100
      → (e' : Executor F) × (spawn poll id task e ≡ some e')
        × IsExecutor e'
        × (lookup id e'.tasks ≡ some task)
        × (e'.task_queue ≡ e.task_queue ++ id ∷ [])
  unfolding spawn
  spawn-IsExecutor id task e v fresh room =
      let tasks' = insert id task e.tasks in
      let queue' = e.task_queue ++ id ∷ [] in
      let l = length-insert_new id task e.tasks fresh in
      let pushed = push_lem id e.task_queue (omega (arith, v.queued)) in
      (
        record e { tasks = tasks'; task_queue = queue' },
        rw (fresh, pushed, spawn) refl,
        record {
          queued = omega (arith, l, v.queued, length-append e.task_queue (id ∷ []));
          fits = omega (arith, l);
        },
        lookup-insert_self id task e.tasks,
        refl,
      )
