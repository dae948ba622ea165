-- ===== src/TaskQueue/Shutdown.antt =====
-- `stop` returns: from the request on the threads take a bounded number of steps, and they can take
-- one until all workers are joined, unless a worker was about to block.
pub mod Measure
pub mod Progress
use zettelkasten_public_subs.Common.{
  ℕ, suc, ◌≡◌, refl, sym, ap, ◌∙◌, subst, Bool, true, false, none, some, List, [], ◌∷◌, ◌++◌, ◌≢◌,
  ◌⊎◌, inl, inr, arith, get_elem?, set, replicate, map, if◌then◌else◌, ◌||◌, get_elem?-set_ne,
  Option, if_elim,
}
use zettelkasten_public_subs.TaskQueue.{
  StopPolicy, wait_for_queue_completion, stop_after_current_task, Worker, acquiring, testing,
  unsatisfied, blocked, satisfied, exited, faulted, running, Client, idle, stopping, requested,
  cleared, joining, TaskQueue, new_queue, set_num_workers, init_workers, start, stop,
  wait_for_completion, wake, finish, has_work, Resumed, leaves, faults, takes, take_front,
  is_stop_after, is_empty, resume, put, IsWorker, AllExited, Step, acquire, test_true, test_false,
  block, leave, take, fault, finish_task, pass, store, notify_one, notify_none, call_start,
  call_set_num, call_stop, call_wait, request, clear, notify_all, join, Steps, none_yet, then_step,
  Reach, at_start, later, spurious,
}
use zettelkasten_public_subs.TaskQueue.Workers.{
  set_self, set-cases, replicate-cases, append-kept, wake-get_elem?, wake-cases,
  AllExited-get_elem?,
}
use mathlib.Core.List.{append_assoc, append-nil}
use native.Mathlib.Decide.{ℕ_discrete}
use zettelkasten_public_subs.TaskQueue.Invariant.{
  holds, is_asked, Fits, Holder, IsQueue, Keeps, Fits-kept, put-Fits, put-held, put-Holder,
}
use zettelkasten_public_subs.Common.{
  ◌<◌, length, length-set, length-map, ◌+◌, ◌*◌, ◌≤◌, zero, length-append,
}
use zettelkasten_public_subs.TaskQueue.Safety.{Step-IsQueue, Reach-IsQueue}
use zettelkasten_public_subs.TaskQueue.Invariant.Moves.{
  woken-IsQueue, resume-takes_tasks, resume-leaves_asked,
}
use zettelkasten_public_subs.TaskQueue.During.{
  During, none_so_far, then_one, then_wake, after_request, completes, finish-client, IsPatient,
  Reach-IsPatient, not_idle, not_stopping, asked_lem,
}
use zettelkasten_public_subs.TaskQueue.Shutdown.Measure.{
  measure, Step-measure, total, total-le, phase,
}
use zettelkasten_public_subs.TaskQueue.Shutdown.Progress.{
  IsPrompt, Step-IsPrompt, CanStep, client-CanStep,
}

-- Steps, counted, before the call of `stop` has returned; without spurious wakeups.
pub data Taken (s : TaskQueue) : ℕ → TaskQueue → Type 0 where
  no_step : Taken s 0 s
  one_more :
      {n : ℕ} {t u : TaskQueue} → Taken s n t → Step t u → u.client ≢ idle → Taken s (suc n) u

Step-asked :
    {s t : TaskQueue}
    → is_asked s.client ≡ true
    → Step s t
    → t.client ≢ idle
    → is_asked t.client ≡ true
Step-asked a (acquire i at_i free) ne = a
Step-asked a (test_true i at_i h) ne = a
Step-asked a (test_false i at_i h) ne = a
Step-asked a (block i at_i) ne = a
Step-asked a (leave i at_i e) ne = a
Step-asked a (take i at_i e) ne = a
Step-asked a (fault i at_i e) ne = a
Step-asked a (finish_task i t at_i) ne = a
Step-asked a (pass h) ne = a
Step-asked a (store t h free) ne = a
Step-asked a (notify_one i h at_i) ne = a
Step-asked a (notify_none h idle_all) ne = a
Step-asked {s} a (call_start at_c) ne = absurd (not_idle s a at_c)
Step-asked {s} a (call_set_num n at_c e) ne = absurd (not_idle s a at_c)
Step-asked {s} a (call_stop at_c) ne = absurd (not_idle s a at_c)
Step-asked {s} a (call_wait at_c) ne = absurd (not_idle s a at_c)
Step-asked a (request at_c) ne = refl
Step-asked a (clear at_c) ne = refl
Step-asked a (notify_all at_c) ne = refl
Step-asked {s} a (join {c} at_c all) ne = absurd (ne (finish-client c s))

record IsStopping (s : TaskQueue) : Type 0 where
  queue : IsQueue s
  asks : is_asked s.client ≡ true
  prompt : IsPrompt s

Step-IsStopping : {s t : TaskQueue} → IsStopping s → Step s t → t.client ≢ idle → IsStopping t
Step-IsStopping d st ne = record {
  queue = Step-IsQueue d.queue st;
  asks = Step-asked d.asks st ne;
  prompt = Step-IsPrompt d.queue d.asks d.prompt st ne;
}

Taken-IsStopping :
    {s : TaskQueue} {n : ℕ} {t : TaskQueue} → IsStopping s → Taken s n t → IsStopping t
Taken-IsStopping d no_step = d
Taken-IsStopping d (one_more path st ne) = Step-IsStopping (Taken-IsStopping d path) st ne

Taken-measure :
    {s : TaskQueue} {n : ℕ} {t : TaskQueue} → IsStopping s → Taken s n t → n + measure t ≤ measure s
Taken-measure d no_step = omega arith
Taken-measure d (one_more path st ne) =
    let now = Taken-IsStopping d path in
    omega (arith, Taken-measure d path, Step-measure now.queue now.asks st ne)

requested-measure :
    (c : Bool) (s : TaskQueue)
    → measure (after_request c s)
      ≤ 5 * length s.workers + 5 * length s.tasks + 7 * s.passed + s.unnotified + 2
unfolding measure phase
requested-measure c s = omega (arith, total-le s.workers)

requested-IsStopping :
    {num : ℕ} {s : TaskQueue} {c : Bool}
    → Reach num s
    → s.client ≡ stopping c
    → ((i : ℕ) → ¬ IsWorker s i unsatisfied)
    → IsStopping (after_request c s)
requested-IsStopping r at_c awake = record {
  queue = Step-IsQueue (Reach-IsQueue r) (request at_c);
  asks = refl;
  prompt = record { awake = awake; woken = λ c' e. cc };
}

-- `stop` returns, if tasks do and there are no spurious wakeups: where no worker stands between its
-- test of the predicate and the wait when the stop is requested, every sequence of steps of the
-- threads that follows before `stop` returns has at most the length that the numbers of the workers,
-- tasks and pushes give, and after it some thread can take another step. So each such sequence
-- leads to the end of the joins.
pub stop-returns :
    {num n : ℕ} {s t : TaskQueue} {c : Bool}
    → Reach num s
    → s.client ≡ stopping c
    → ((i : ℕ) → ¬ IsWorker s i unsatisfied)
    → Taken (after_request c s) n t
    → (n ≤ 5 * length s.workers + 5 * length s.tasks + 7 * s.passed + s.unnotified + 2)
      × ((u : TaskQueue) × Step t u)
stop-returns {s} {t} {c} r at_c awake path =
    let start_state = requested-IsStopping r at_c awake in
    let now = Taken-IsStopping start_state path in
    (
      omega (arith, Taken-measure start_state path, requested-measure c s),
      client-CanStep t.client now.queue now.prompt refl now.asks,
    )
