-- ===== src/TaskQueue/Invariant.antt =====
-- The invariant of the queue: who holds the mutex, what a worker behind the wait can rely on, and the
-- order of the tasks.
pub mod Moves
pub mod Calls
use zettelkasten_public_subs.Common.{
  ℕ, suc, ◌≡◌, refl, sym, ap, ◌∙◌, subst, Bool, true, false, none, some, List, [], ◌∷◌, ◌++◌, ◌≢◌,
  ◌⊎◌, inl, inr, arith, get_elem?, set, replicate, map, if◌then◌else◌, ◌||◌, get_elem?-set_ne,
  Option,
}
use zettelkasten_public_subs.TaskQueue.{
  StopPolicy, wait_for_queue_completion, stop_after_current_task, Worker, acquiring, testing,
  unsatisfied, blocked, satisfied, exited, faulted, running, Client, idle, stopping, requested,
  cleared, joining, TaskQueue, new_queue, set_num_workers, init_workers, start, stop,
  wait_for_completion, wake, finish, has_work, Resumed, leaves, faults, takes, take_front,
  is_stop_after, is_empty, resume, put, IsWorker, AllExited, Step, acquire, test_true, test_false,
  block, leave, take, fault, finish_task, pass, store, notify_one, notify_none, call_start,
  call_set_num, call_stop, call_wait, request, clear, notify_all, join, Steps, none_yet, then_step,
  Reach, at_start, later, spurious,
}
use zettelkasten_public_subs.TaskQueue.Workers.{
  set_self, set-cases, replicate-cases, append-kept, wake-get_elem?, wake-cases,
  AllExited-get_elem?,
}
use mathlib.Core.List.{append_assoc}
use native.Mathlib.Decide.{ℕ_discrete}

abbrev pub holds : Worker → Bool
holds testing = true
holds unsatisfied = true
holds satisfied = true
holds _ = false

-- `stop` has set `m_stop_requested`.
abbrev pub is_asked : Client → Bool
is_asked idle = false
is_asked (stopping c) = false
is_asked _ = true

-- What a worker can rely on where it stands.
abbrev pub Fits : TaskQueue → ℕ → Worker → Type 0
Fits s i testing = s.locker ≡ some i
Fits s i unsatisfied = s.locker ≡ some i
Fits s i satisfied = (s.locker ≡ some i) × (has_work s ≡ true)
Fits s i exited = s.stop_requested ≡ true
Fits s i faulted = ⊥
Fits s i _ = Unit

abbrev pub Holder : TaskQueue → ℕ → Type 0
Holder s i = (w : Worker) × IsWorker s i w × (holds w ≡ true)

pub record IsQueue (s : TaskQueue) : Type 0 where
  pub fits : (i : ℕ) (w : Worker) → IsWorker s i w → Fits s i w
  pub held : (i : ℕ) → s.locker ≡ some i → Holder s i
  pub asked : s.stop_requested ≡ is_asked s.client
  pub fifo : s.pushed ≡ s.started ++ s.tasks

-- What the rest of the state must keep for a worker that a step does not move.
pub record Keeps (s t : TaskQueue) (j : ℕ) : Type 0 where
  pub lock : s.locker ≡ some j → t.locker ≡ some j
  pub work : s.locker ≡ some j → has_work s ≡ true → has_work t ≡ true
  pub stays : s.stop_requested ≡ true → t.stop_requested ≡ true

pub Fits-kept : (s t : TaskQueue) (j : ℕ) (w : Worker) → Keeps s t j → Fits s j w → Fits t j w
Fits-kept s t j testing k f = k.lock f
Fits-kept s t j unsatisfied k f = k.lock f
Fits-kept s t j satisfied k f = (k.lock f.0, k.work f.0 f.1)
Fits-kept s t j exited k f = k.stays f
Fits-kept s t j faulted k f = f
Fits-kept s t j acquiring k f = tt
Fits-kept s t j blocked k f = tt
Fits-kept s t j (running n) k f = tt

-- A step that moves the worker `i` keeps what the others rely on.
pub put-Fits :
    (s t : TaskQueue) (i : ℕ) (w : Worker)
    → ((j : ℕ) (v : Worker) → IsWorker s j v → Fits s j v)
    → Fits (put i w t) i w
    → t.workers ≡ s.workers
    → ((j : ℕ) → i ≢ j → Keeps s (put i w t) j)
    → (j : ℕ) (v : Worker) → IsWorker (put i w t) j v
    → Fits (put i w t) j v
put-Fits s t i w all own same keeps j v h =
    elim (set-cases s.workers i w j v (subst (λ ws. get_elem? (set ws i w) j ≡ some v) same h)) [
      | inl (e, f) ↦
          subst (λ (k : ℕ). Fits (put i w t) k v) (sym e)
            (subst (λ (u : Worker). Fits (put i w t) i u) (sym f) own)
      | inr (n, f) ↦ Fits-kept s (put i w t) j v (keeps j n) (all j v f)
    ]

-- A worker that does not hold the mutex moves, and the mutex keeps its holder.
pub put-held :
    (s : TaskQueue) (i : ℕ) {v : Worker} (u : Worker)
    → IsWorker s i v
    → holds v ≡ false
    → (k : ℕ) → Holder s k
    → Holder (put i u s) k
put-held s i {v} u at_i free k (w, at_k, h) = elim (ℕ_discrete i k) [
  | yes e ↦ absurd (ground arith)
  | no n ↦ (w, get_elem?-set_ne s.workers u n ∙ at_k, h)
]

-- The moved worker holds the mutex.
pub put-Holder :
    (s : TaskQueue) (i : ℕ) {v : Worker} (u : Worker)
    → IsWorker s i v
    → holds u ≡ true
    → (k : ℕ) → ◌≡◌ {A = Option ℕ} (some i) (some k)
    → Holder (put i u s) k
put-Holder s i u at_i h k e =
    subst (λ j. Holder (put i u s) j) (ground arith) (u, set_self s.workers i at_i, h)
