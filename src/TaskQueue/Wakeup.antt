-- ===== src/TaskQueue/Wakeup.antt =====
-- A worker that was about to block when `stop` notified. `stop` writes `m_stop_requested` and calls
-- `notify_all` without the mutex, so both can come between the test of the predicate and the wait.
use zettelkasten_public_subs.Common.{
  ℕ, ◌≡◌, refl, ap, ◌∙◌, Bool, true, false, none, some, [], ◌∷◌, ◌++◌, ◌≢◌, arith, get_elem?, map,
  get_elem?-set_ne,
}
use zettelkasten_public_subs.TaskQueue.{
  Worker, acquiring, testing, unsatisfied, blocked, satisfied, exited, faulted, running, stopping,
  joining, TaskQueue, wake, put, IsWorker, Step, acquire, test_true, test_false, block, leave, take,
  fault, finish_task, pass, store, notify_one, notify_none, call_start, call_set_num, call_stop,
  call_wait, request, clear, notify_all, join, Steps, none_yet, then_step, Reach,
}
use zettelkasten_public_subs.TaskQueue.Workers.{set_self, wake-get_elem?, AllExited-get_elem?}
use native.Mathlib.Decide.{ℕ_discrete}
use zettelkasten_public_subs.TaskQueue.Invariant.{is_asked, IsQueue}
use zettelkasten_public_subs.TaskQueue.Safety.{Step-IsQueue, Reach-IsQueue}

-- A worker that nobody will notify.
record IsLost (i : ℕ) (c : Bool) (s : TaskQueue) : Type 0 where
  queue : IsQueue s
  joins : s.client ≡ joining c
  asleep : IsWorker s i blocked
  nobody : s.passed ≡ 0
  silent : s.unnotified ≡ 0

-- Another worker moves.
put-IsLost :
    {i : ℕ} {c : Bool} {s : TaskQueue} (t : TaskQueue) (j : ℕ) {v : Worker} (w : Worker)
    → IsLost i c s
    → IsWorker s j v
    → v ≢ blocked
    → t.workers ≡ s.workers
    → t.client ≡ s.client
    → t.passed ≡ s.passed
    → t.unnotified ≡ s.unnotified
    → IsQueue (put j w t)
    → IsLost i c (put j w t)
put-IsLost {i} {c} {s} t j w l at_j nb ws cl pa un q = record {
  queue = q;
  joins = cl ∙ l.joins;
  asleep = elim (ℕ_discrete j i) [
    | yes e ↦ absurd (nb (ground (arith, l.asleep)))
    | no n ↦ get_elem?-set_ne t.workers w n ∙ ap (λ xs. get_elem? xs i) ws ∙ l.asleep
  ];
  nobody = pa ∙ l.nobody;
  silent = un ∙ l.silent;
}

Step-IsLost :
    {i : ℕ} {c : Bool} {s t : TaskQueue} → IsLost i c s → Step s t → IsQueue t → IsLost i c t
Step-IsLost {s} l (acquire j at_j free) q =
    put-IsLost (record s { locker = some j }) j testing l at_j (λ e. cc) refl refl refl refl q
Step-IsLost {s} l (test_true j at_j h) q =
    put-IsLost s j satisfied l at_j (λ e. cc) refl refl refl refl q
Step-IsLost {s} l (test_false j at_j h) q =
    put-IsLost s j unsatisfied l at_j (λ e. cc) refl refl refl refl q
Step-IsLost {s} l (block j at_j) q =
    put-IsLost (record s { locker = none }) j blocked l at_j (λ e. cc) refl refl refl refl q
Step-IsLost {s} l (leave j at_j e) q =
    put-IsLost (record s { locker = none }) j exited l at_j (λ e. cc) refl refl refl refl q
Step-IsLost {s} l (take j {t} {ts} at_j e) q =
    put-IsLost (record s { locker = none; tasks = ts; started = s.started ++ t ∷ [] }) j (running t)
      l at_j (λ e. cc) refl refl refl refl q
Step-IsLost {s} l (fault j at_j e) q = put-IsLost s j faulted l at_j (λ e. cc) refl refl refl refl q
Step-IsLost {s} l (finish_task j t at_j) q =
    put-IsLost s j acquiring l at_j (λ e. cc) refl refl refl refl q
Step-IsLost l (pass h) q = absurd (cc (h, l.queue.asked, ap is_asked l.joins))
Step-IsLost l (store t h free) q = absurd (omega (arith, h, l.nobody))
Step-IsLost l (notify_one j h at_j) q = absurd (omega (arith, h, l.silent))
Step-IsLost l (notify_none h idle_all) q = absurd (omega (arith, h, l.silent))
Step-IsLost l (call_start at_c) q = absurd (cc (at_c, l.joins))
Step-IsLost l (call_set_num n at_c e) q = absurd (cc (at_c, l.joins))
Step-IsLost l (call_stop at_c) q = absurd (cc (at_c, l.joins))
Step-IsLost l (call_wait at_c) q = absurd (cc (at_c, l.joins))
Step-IsLost l (request at_c) q = absurd (cc (at_c, l.joins))
Step-IsLost l (clear at_c) q = absurd (cc (at_c, l.joins))
Step-IsLost l (notify_all at_c) q = absurd (cc (at_c, l.joins))
Step-IsLost {i} {s} l (join at_c all) q = absurd (cc (AllExited-get_elem? s.workers i all l.asleep))

Steps-IsLost : {i : ℕ} {c : Bool} {s t : TaskQueue} → IsLost i c s → Steps s t → IsLost i c t
Steps-IsLost l none_yet = l
Steps-IsLost l (then_step path st) =
    let now = Steps-IsLost l path in Step-IsLost now st (Step-IsQueue now.queue st)

-- The four steps to it.
abbrev pub overtaken : ℕ → Bool → TaskQueue → TaskQueue
overtaken i c s = put i blocked (record s {
  client = joining c;
  stop_requested = true;
  is_running = false;
  workers = map wake s.workers;
  locker = none;
})

overtaken-Steps :
    (s : TaskQueue) (i : ℕ) (c : Bool)
    → s.client ≡ stopping c
    → IsWorker s i unsatisfied
    → Steps s (overtaken i c s)
unfolding wake
overtaken-Steps s i c at_c at_i =
    then_step
      (then_step (then_step (then_step none_yet (request at_c)) (clear refl)) (notify_all refl))
      (block i (wake-get_elem? s.workers i at_i))

overtaken-IsLost :
    (s : TaskQueue) (i : ℕ) (c : Bool)
    → IsQueue (overtaken i c s)
    → IsWorker s i unsatisfied
    → s.passed ≡ 0
    → s.unnotified ≡ 0
    → IsLost i c (overtaken i c s)
overtaken-IsLost s i c q at_i none_passed silent = record {
  queue = q;
  joins = refl;
  asleep = set_self (map wake s.workers) i (wake-get_elem? s.workers i at_i);
  nobody = none_passed;
  silent = silent;
}

Steps-IsQueue : {s t : TaskQueue} → IsQueue s → Steps s t → IsQueue t
Steps-IsQueue q none_yet = q
Steps-IsQueue q (then_step path st) = Step-IsQueue (Steps-IsQueue q path) st

-- When `stop` has passed its test while a worker stands between its test of the predicate and the
-- wait, and no push is in progress, the threads can take steps to the state `overtaken`, and whatever
-- steps they take from there, that worker stays blocked and the thread of `stop` stays in the joins:
-- without a spurious wakeup `stop` never returns.
pub stop_hangs :
    {num : ℕ} {s u : TaskQueue} {c : Bool} (i : ℕ)
    → Reach num s
    → s.client ≡ stopping c
    → IsWorker s i unsatisfied
    → s.passed ≡ 0
    → s.unnotified ≡ 0
    → Steps (overtaken i c s) u
    → Steps s (overtaken i c s) × IsWorker u i blocked × (u.client ≡ joining c)
stop_hangs {s} {c} i r at_c at_i none_passed silent more =
    let path = overtaken-Steps s i c at_c at_i in
    let l = overtaken-IsLost s i c (Steps-IsQueue (Reach-IsQueue r) path) at_i none_passed silent in
    let now = Steps-IsLost l more in (path, now.asleep, now.joins)
