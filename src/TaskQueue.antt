-- ===== src/TaskQueue.antt =====
-- TaskQueue of 2022-06-25-C++-notes/Sandbox/task_queue.hpp: the members with the mutex, the workers
-- and the calls, as functions on the state and as a relation of the steps that the threads take in
-- any order. A task is known by a number. One thread calls `start`, `stop`, `set_num_workers` and
-- `wait_for_completion`; any thread pushes. `Step` has the steps of `push_future_task`; `Run` adds those
-- of `push_void_task`, whose second unlock, of a mutex that the thread does not hold, ends in undefined
-- behaviour. The steps of a worker are the points at which another
-- thread can come in: taking the mutex, the test of the predicate, the wait, which releases the
-- mutex and blocks at once, and the run of a task. Each read or write of `m_stop_requested` is a step.
pub mod Mutex
pub mod Workers
pub mod Invariant
pub mod Safety
pub mod During
pub mod Drain
pub mod Shutdown
pub mod Wakeup
pub mod Tests
use zettelkasten_public_subs.Common.{
  ℕ, suc, ◌+◌, ◌≡◌, Bool, true, false, Option, none, some, List, [], ◌∷◌, ◌++◌, map, if◌then◌else◌,
  get_elem?, set, replicate, ◌||◌,
}

pub data StopPolicy : Type 0 where
  wait_for_queue_completion stop_after_current_task : StopPolicy

-- Where a worker stands: before `locker`, at the predicate, about to block in `wait` after the
-- predicate gave false, blocked, behind `wait`, in `task()`, or returned. `faulted` is `front` of an
-- empty deque.
pub data Worker : Type 0 where
  acquiring testing unsatisfied blocked satisfied exited faulted : Worker
  running : ℕ → Worker

-- Where the thread that controls the queue stands: outside of the calls, or in `stop` behind the test
-- of `m_running`, behind each of its two writes, and in the joins. The flag says that
-- `wait_for_completion` called it.
pub data Client : Type 0 where
  idle : Client
  stopping requested cleared joining : Bool → Client

pub record TaskQueue : Type 0 where
  pub tasks : List ℕ
  pub num_workers : ℕ
  pub stop_policy : StopPolicy
  pub is_running : Bool
  pub stop_requested : Bool
  pub workers : List Worker
  -- `m_locker`: the worker that holds it.
  pub locker : Option ℕ
  pub client : Client
  -- Calls of `push_future_task` that passed the test of `m_stop_requested` and have not stored
  -- their task, and those that have and have not called `notify_one`.
  pub passed : ℕ
  pub unnotified : ℕ
  -- The tasks in the order in which they were stored, and in which workers took them.
  pub pushed : List ℕ
  pub started : List ℕ

-- The constructor.
unfoldable pub new_queue : ℕ → TaskQueue
new_queue num = record {
  tasks = [];
  num_workers = num;
  stop_policy = stop_after_current_task;
  is_running = false;
  stop_requested = false;
  workers = [];
  locker = none;
  client = idle;
  passed = 0;
  unnotified = 0;
  pushed = [];
  started = [];
}

-- A result `none` is the exception.
unfoldable pub set_num_workers : ℕ → TaskQueue → Option TaskQueue
set_num_workers num s = if s.is_running then none else some (record s { num_workers = num })

unfoldable pub init_workers : ℕ → TaskQueue → TaskQueue
init_workers num s = record s { workers = s.workers ++ replicate num acquiring }

unfoldable pub start : TaskQueue → TaskQueue
start s = if s.is_running then s else init_workers s.num_workers (record s { is_running = true })

-- `stop` up to its test of `m_running`.
unfoldable pub stop : Bool → TaskQueue → TaskQueue
stop completing s = if s.is_running then record s { client = stopping completing } else s

-- `wait_for_completion` up to the same test in `stop`.
unfoldable pub wait_for_completion : TaskQueue → TaskQueue
wait_for_completion s =
    if s.is_running then stop true (record s { stop_policy = wait_for_queue_completion }) else s

-- `notify_all`, and what `notify_one` does to the worker that it wakes.
unfoldable pub wake : Worker → Worker
wake blocked = acquiring
wake w = w

-- What follows the joins: the rest of `stop`, and of `wait_for_completion` if it made the call.
unfoldable pub finish : Bool → TaskQueue → TaskQueue
finish completing s =
    let stopped = record s { workers = []; stop_requested = false; client = idle } in
    if completing then start (record stopped { stop_policy = stop_after_current_task }) else stopped

-- The predicate of the wait.
unfoldable pub has_work : TaskQueue → Bool
has_work s = elim s.tasks [ [] ↦ s.stop_requested | _ ∷ _ ↦ true ]

-- What a worker does with the mutex behind the wait.
pub data Resumed : Type 0 where
  leaves faults : Resumed
  takes : ℕ → List ℕ → Resumed

unfoldable pub take_front : List ℕ → Resumed
take_front [] = faults
take_front (t ∷ ts) = takes t ts

unfoldable pub is_stop_after : StopPolicy → Bool
is_stop_after wait_for_queue_completion = false
is_stop_after stop_after_current_task = true

unfoldable pub is_empty : List ℕ → Bool
is_empty [] = true
is_empty (t ∷ ts) = false

unfoldable pub resume : TaskQueue → Resumed
resume s =
    if s.stop_requested
    then (if is_empty s.tasks || is_stop_after s.stop_policy then leaves else take_front s.tasks)
    else take_front s.tasks

abbrev pub put : ℕ → Worker → TaskQueue → TaskQueue
put i w s = record s { workers = set s.workers i w }

abbrev pub IsWorker : TaskQueue → ℕ → Worker → Type 0
IsWorker s i w = get_elem? s.workers i ≡ some w

abbrev pub AllExited : List Worker → Type 0
AllExited [] = Unit
AllExited (w ∷ ws) = (w ≡ exited) × AllExited ws

-- One step of one thread, without spurious wakeups. `pass`, `store` and the notification are the steps
-- of `push_future_task`.
pub data Step (s : TaskQueue) : TaskQueue → Type 0 where
  acquire :
      (i : ℕ)
      → IsWorker s i acquiring
      → s.locker ≡ none
      → Step s (put i testing (record s { locker = some i }))
  test_true : (i : ℕ) → IsWorker s i testing → has_work s ≡ true → Step s (put i satisfied s)
  test_false : (i : ℕ) → IsWorker s i testing → has_work s ≡ false → Step s (put i unsatisfied s)
  block : (i : ℕ) → IsWorker s i unsatisfied → Step s (put i blocked (record s { locker = none }))
  leave :
      (i : ℕ)
      → IsWorker s i satisfied
      → resume s ≡ leaves
      → Step s (put i exited (record s { locker = none }))
  take :
      (i : ℕ) {t : ℕ} {ts : List ℕ}
      → IsWorker s i satisfied
      → resume s ≡ takes t ts
      → Step s (
          put i (running t) (record s { locker = none; tasks = ts; started = s.started ++ t ∷ [] }))
  fault : (i : ℕ) → IsWorker s i satisfied → resume s ≡ faults → Step s (put i faulted s)
  finish_task : (i t : ℕ) → IsWorker s i (running t) → Step s (put i acquiring s)
  pass : s.stop_requested ≡ false → Step s (record s { passed = suc s.passed })
  store :
      (t : ℕ) {p : ℕ}
      → s.passed ≡ suc p
      → s.locker ≡ none
      → Step s (record s {
        passed = p;
        tasks = s.tasks ++ t ∷ [];
        pushed = s.pushed ++ t ∷ [];
        unnotified = suc s.unnotified;
      })
  notify_one :
      (i : ℕ) {u : ℕ}
      → s.unnotified ≡ suc u
      → IsWorker s i blocked
      → Step s (put i (wake blocked) (record s { unnotified = u }))
  notify_none :
      {u : ℕ}
      → s.unnotified ≡ suc u
      → ((i : ℕ) → ¬ IsWorker s i blocked)
      → Step s (record s { unnotified = u })
  call_start : s.client ≡ idle → Step s (start s)
  call_set_num :
      (n : ℕ) {s' : TaskQueue} → s.client ≡ idle → set_num_workers n s ≡ some s' → Step s s'
  call_stop : s.client ≡ idle → Step s (stop false s)
  call_wait : s.client ≡ idle → Step s (wait_for_completion s)
  request :
      {c : Bool}
      → s.client ≡ stopping c
      → Step s (record s { client = requested c; stop_requested = true })
  clear :
      {c : Bool}
      → s.client ≡ requested c
      → Step s (record s { client = cleared c; is_running = false })
  notify_all :
      {c : Bool}
      → s.client ≡ cleared c
      → Step s (record s { client = joining c; workers = map wake s.workers })
  join : {c : Bool} → s.client ≡ joining c → AllExited s.workers → Step s (finish c s)

-- Steps, one after the other.
pub data Steps (s : TaskQueue) : TaskQueue → Type 0 where
  none_yet : Steps s s
  then_step : {t u : TaskQueue} → Steps s t → Step t u → Steps s u

-- What a queue can come to, spurious wakeups included.
pub data Reach (num : ℕ) : TaskQueue → Type 0 where
  at_start : Reach num (new_queue num)
  later : {s t : TaskQueue} → Reach num s → Step s t → Reach num t
  spurious :
      {s : TaskQueue} (i : ℕ)
      → Reach num s
      → IsWorker s i blocked
      → Reach num (put i (wake blocked) s)

-- A queue on which this many calls of `push_void_task` have stored a task and have the end of their
-- scope before them, or undefined behaviour.
pub data Course : Type 0 where
  going : ℕ → TaskQueue → Course
  undefined : Course

-- What the threads come to when they call `push_void_task` too. Up to its end it does what
-- `push_future_task` does; `unlock_again` is `~unique_lock`, which `unlock` of Mutex is about.
pub data Run (num : ℕ) : Course → Type 0 where
  begin : Run num (going 0 (new_queue num))
  moves : {v : ℕ} {s t : TaskQueue} → Run num (going v s) → Step s t → Run num (going v t)
  wakes :
      {v : ℕ} {s : TaskQueue} (i : ℕ)
      → Run num (going v s)
      → IsWorker s i blocked
      → Run num (going v (put i (wake blocked) s))
  store_void :
      {v : ℕ} {s : TaskQueue} (t : ℕ) {p : ℕ}
      → Run num (going v s)
      → s.passed ≡ suc p
      → s.locker ≡ none
      → Run num (
          going (suc v) (record s {
            passed = p;
            tasks = s.tasks ++ t ∷ [];
            pushed = s.pushed ++ t ∷ [];
            unnotified = suc s.unnotified;
          }))
  unlock_again : {v : ℕ} {s : TaskQueue} → Run num (going (suc v) s) → Run num undefined
