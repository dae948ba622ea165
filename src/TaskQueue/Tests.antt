-- ===== src/TaskQueue/Tests.antt =====
-- Runs of a queue with one worker.
use zettelkasten_public_subs.Common.{
  ℕ, suc, ◌≡◌, refl, Bool, true, false, none, some, List, [], ◌∷◌, ◌++◌, ◌≢◌, arith, zero, ◌≤◌,
}
use zettelkasten_public_subs.TaskQueue.{
  wait_for_queue_completion, stop_after_current_task, acquiring, testing, unsatisfied, blocked,
  exited, faulted, idle, stopping, requested, cleared, joining, TaskQueue, new_queue, init_workers,
  start, stop, wait_for_completion, wake, has_work, take_front, is_stop_after, is_empty, resume,
  put, IsWorker, Step, acquire, test_true, test_false, leave, take, finish_task, pass, store,
  call_start, call_stop, call_wait, clear, notify_all, Steps, none_yet, Reach, at_start, later, Run,
  going, begin, moves, store_void,
}
use zettelkasten_public_subs.TaskQueue.During.{During, none_so_far, then_one, after_request}
use zettelkasten_public_subs.TaskQueue.Safety.{front_of_tasks, tasks_in_order}
use zettelkasten_public_subs.TaskQueue.Drain.{wait_for_completion-drains}
use zettelkasten_public_subs.TaskQueue.Shutdown.{no_step, one_more, stop-returns}
use zettelkasten_public_subs.TaskQueue.Wakeup.{stop_hangs, overtaken}
use zettelkasten_public_subs.TaskQueue.Mutex.{push_lem, push_future_task, push_void_task}

-- A started queue whose worker found the deque empty and is about to block when `stop` is called.
abbrev about_to_block : TaskQueue
about_to_block = record {
  tasks = [];
  num_workers = 1;
  stop_policy = stop_after_current_task;
  is_running = true;
  stop_requested = false;
  workers = unsatisfied ∷ [];
  locker = some 0;
  client = stopping false;
  passed = 0;
  unnotified = 0;
  pushed = [];
  started = [];
}

about_to_block-Reach : Reach 1 about_to_block
unfolding new_queue start init_workers stop has_work
about_to_block-Reach =
    later
      (later (later (later at_start (call_start refl)) (acquire 0 refl refl))
        (test_false 0 refl refl))
      (call_stop refl)

stop_hangs_example :
    Steps about_to_block (overtaken 0 false about_to_block)
    × IsWorker (overtaken 0 false about_to_block) 0 blocked
    × ((overtaken 0 false about_to_block).client ≡ joining false)
stop_hangs_example = stop_hangs 0 about_to_block-Reach refl refl refl refl none_yet

-- A queue with a stored task whose worker has not begun, in `wait_for_completion`.
abbrev with_task : TaskQueue
with_task = record {
  tasks = 7 ∷ [];
  num_workers = 1;
  stop_policy = wait_for_queue_completion;
  is_running = true;
  stop_requested = false;
  workers = acquiring ∷ [];
  locker = none;
  client = stopping true;
  passed = 0;
  unnotified = 1;
  pushed = 7 ∷ [];
  started = [];
}

with_task-Reach : Reach 1 with_task
unfolding new_queue start init_workers stop wait_for_completion
with_task-Reach =
    later (later (later (later at_start (pass refl)) (store 7 refl refl)) (call_start refl))
      (call_wait refl)

with_task-Run : Run 1 (going 1 with_task)
unfolding new_queue start init_workers stop wait_for_completion
with_task-Run =
    moves (moves (store_void 7 (moves begin (pass refl)) refl refl) (call_start refl))
      (call_wait refl)

front_of_tasks_example : acquiring ≢ faulted
front_of_tasks_example = front_of_tasks with_task-Run 0 acquiring refl

tasks_in_order_example : with_task.pushed ≡ with_task.started ++ with_task.tasks
tasks_in_order_example = tasks_in_order with_task-Run

-- The worker runs the task and returns.
abbrev all_done : TaskQueue
all_done = record {
  tasks = [];
  num_workers = 1;
  stop_policy = wait_for_queue_completion;
  is_running = false;
  stop_requested = true;
  workers = exited ∷ [];
  locker = none;
  client = joining true;
  passed = 0;
  unnotified = 1;
  pushed = 7 ∷ [];
  started = 7 ∷ [];
}

in_requested : (c : Bool) → requested c ≢ idle
in_requested c e = cc

in_cleared : (c : Bool) → cleared c ≢ idle
in_cleared c e = cc

in_joining : (c : Bool) → joining c ≢ idle
in_joining c e = cc

with_task-all_done : During (after_request true with_task) all_done
unfolding has_work resume take_front is_empty is_stop_after wake
with_task-all_done =
    then_one
      (then_one
        (then_one
          (then_one
            (then_one
              (then_one
                (then_one
                  (then_one (then_one none_so_far (acquire 0 refl refl) (in_requested true))
                    (test_true 0 refl refl) (in_requested true))
                  (take 0 refl refl) (in_requested true))
                (finish_task 0 7 refl) (in_requested true))
              (acquire 0 refl refl) (in_requested true))
            (test_true 0 refl refl) (in_requested true))
          (leave 0 refl refl) (in_requested true))
        (clear refl) (in_cleared true))
      (notify_all refl) (in_joining true)

wait_for_completion-drains_example : ◌≡◌ {A = List ℕ} [] [] × ◌≡◌ {A = List ℕ} (7 ∷ []) (7 ∷ [])
wait_for_completion-drains_example =
    wait_for_completion-drains with_task-Reach refl refl (omega arith) with_task-all_done (refl, tt)

-- The worker takes the mutex.
abbrev one_acquired : TaskQueue
one_acquired = put 0 testing (record (after_request true with_task) { locker = some 0 })

not_unsatisfied : (i : ℕ) → ¬ IsWorker with_task i unsatisfied
not_unsatisfied zero h = cc
not_unsatisfied (suc i) h = cc

stop-returns_example : (1 ≤ 13) × ((u : TaskQueue) × Step one_acquired u)
stop-returns_example =
    stop-returns with_task-Reach refl not_unsatisfied
      (one_more no_step (acquire 0 refl refl) (in_requested true))

-- Another thread takes the mutex before the end of the scope.
push_lem_example :
    (push_future_task 0 (λ m. some 1) false none (5 ∷ []) 6 ≡ some (true, 5 ∷ 6 ∷ [], some 1))
    × (push_void_task 0 (λ m. some 1) false none (5 ∷ []) 6 ≡ none)
push_lem_example = push_lem 0 (λ m. some 1) false none (5 ∷ []) 6 (λ e. ground arith)
