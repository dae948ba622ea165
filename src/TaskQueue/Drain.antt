-- ===== src/TaskQueue/Drain.antt =====
-- `wait_for_completion` from the request of the stop on to the joins.
use zettelkasten_public_subs.Common.{
  ℕ, ◌≡◌, refl, sym, ap, ◌∙◌, Bool, true, false, none, some, List, [], ◌∷◌, ◌++◌, ◌≢◌, inl, inr,
  arith, get_elem?, map, Option,
}
use zettelkasten_public_subs.TaskQueue.{
  wait_for_queue_completion, Worker, acquiring, testing, unsatisfied, blocked, satisfied, exited,
  faulted, running, idle, stopping, cleared, joining, TaskQueue, wake, leaves, takes, take_front,
  is_stop_after, is_empty, resume, put, IsWorker, AllExited, Step, acquire, test_true, test_false,
  block, leave, take, fault, finish_task, pass, store, notify_one, notify_none, call_start,
  call_set_num, call_stop, call_wait, request, clear, notify_all, join, Reach,
}
use zettelkasten_public_subs.TaskQueue.Workers.{set-cases, wake-cases}
use mathlib.Core.List.{append-nil}
use zettelkasten_public_subs.TaskQueue.Invariant.{is_asked, IsQueue}
use zettelkasten_public_subs.Common.{◌<◌, length, length-set, length-map}
use zettelkasten_public_subs.TaskQueue.Safety.{Step-IsQueue, Reach-IsQueue}
use zettelkasten_public_subs.TaskQueue.Invariant.Moves.{woken-IsQueue, resume-takes_tasks}
use zettelkasten_public_subs.TaskQueue.During.{
  During, none_so_far, then_one, then_wake, after_request, completes, finish-client,
  Reach-IsPatient, not_idle, not_stopping, asked_lem,
}

-- A queue that is emptied: nobody can push, and a worker has returned only from an empty deque.
record IsDrained (p : List ℕ) (s : TaskQueue) : Type 0 where
  queue : IsQueue s
  policy : s.stop_policy ≡ wait_for_queue_completion
  asks : is_asked s.client ≡ true
  nobody : s.passed ≡ 0
  present : 0 < length s.workers
  empty : (i : ℕ) → IsWorker s i exited → s.tasks ≡ []
  same : s.pushed ≡ p

-- A worker moves, but not out of its loop.
put-exited :
    (s : TaskQueue) (i : ℕ) (w : Worker) (j : ℕ)
    → w ≢ exited
    → IsWorker (put i w s) j exited
    → IsWorker s j exited
put-exited s i w j ne h = elim (set-cases s.workers i w j exited h) [
  | inl (e, f) ↦ absurd (ne (sym f))
  | inr (n, old) ↦ old
]

wake-exited :
    (ws : List Worker) (i : ℕ)
    → get_elem? (map wake ws) i ≡ some exited
    → get_elem? ws i ≡ some exited
wake-exited ws i h = elim (wake-cases ws i h) [ inl e ↦ cc | inr e ↦ e ]

module _ {p : List ℕ} {s : TaskQueue} (d : IsDrained p s) where
  -- A worker moves, and the deque stays as it is.
  moved-IsDrained :
      (i : ℕ) (w : Worker) (lock : Option ℕ) (u : ℕ)
      → w ≢ exited
      → IsQueue (put i w (record s { locker = lock; unnotified = u }))
      → IsDrained p (put i w (record s { locker = lock; unnotified = u }))
  moved-IsDrained i w lock u ne q = record {
    queue = q;
    policy = d.policy;
    asks = d.asks;
    nobody = d.nobody;
    present = omega (arith, length-set s.workers i w, d.present);
    empty = λ j h. d.empty j (put-exited s i w j ne h);
    same = d.same;
  }

  leave-empty : resume s ≡ leaves → s.tasks ≡ []
  unfolding resume take_front is_empty is_stop_after
  leave-empty e = ground (arith, d.policy)

  leave-IsDrained :
      (i : ℕ)
      → resume s ≡ leaves
      → IsQueue (put i exited (record s { locker = none }))
      → IsDrained p (put i exited (record s { locker = none }))
  leave-IsDrained i e q = record {
    queue = q;
    policy = d.policy;
    asks = d.asks;
    nobody = d.nobody;
    present = omega (arith, length-set s.workers i exited, d.present);
    empty = λ j h. leave-empty e;
    same = d.same;
  }

  take-IsDrained :
      (i : ℕ) {t : ℕ} {ts : List ℕ}
      → resume s ≡ takes t ts
      → let s' =
          put i
            (running t)
            (record s { locker = none; tasks = ts; started = s.started ++ t ∷ [] }) in
        IsQueue s' → IsDrained p s'
  take-IsDrained i {t} {ts} e q = record {
    queue = q;
    policy = d.policy;
    asks = d.asks;
    nobody = d.nobody;
    present = omega (arith, length-set s.workers i (running t), d.present);
    empty = λ j h.
        let was = d.empty j (put-exited s i (running t) j (λ f. cc) h) in
        absurd (ground (arith, resume-takes_tasks d.queue e));
    same = d.same;
  }

  clear-IsDrained :
      (c : Bool)
      → IsQueue (record s { client = cleared c; is_running = false })
      → IsDrained p (record s { client = cleared c; is_running = false })
  clear-IsDrained c q = record {
    queue = q;
    policy = d.policy;
    asks = refl;
    nobody = d.nobody;
    present = d.present;
    empty = d.empty;
    same = d.same;
  }

  notify_all-IsDrained :
      (c : Bool)
      → IsQueue (record s { client = joining c; workers = map wake s.workers })
      → IsDrained p (record s { client = joining c; workers = map wake s.workers })
  notify_all-IsDrained c q = record {
    queue = q;
    policy = d.policy;
    asks = refl;
    nobody = d.nobody;
    present = omega (arith, length-map s.workers wake, d.present);
    empty = λ j h. d.empty j (wake-exited s.workers j h);
    same = d.same;
  }

  notify_none-IsDrained :
      (u : ℕ) → IsQueue (record s { unnotified = u }) → IsDrained p (record s { unnotified = u })
  notify_none-IsDrained u q = record {
    queue = q;
    policy = d.policy;
    asks = d.asks;
    nobody = d.nobody;
    present = d.present;
    empty = d.empty;
    same = d.same;
  }

Step-IsDrained :
    {p : List ℕ} {s t : TaskQueue}
    → IsDrained p s
    → Step s t
    → t.client ≢ idle
    → IsQueue t
    → IsDrained p t
unfolding wake
Step-IsDrained {s} d (acquire i at_i free) ne q =
    moved-IsDrained d i testing (some i) s.unnotified (λ e. cc) q
Step-IsDrained {s} d (test_true i at_i h) ne q =
    moved-IsDrained d i satisfied s.locker s.unnotified (λ e. cc) q
Step-IsDrained {s} d (test_false i at_i h) ne q =
    moved-IsDrained d i unsatisfied s.locker s.unnotified (λ e. cc) q
Step-IsDrained {s} d (block i at_i) ne q = moved-IsDrained d i blocked none s.unnotified (λ e. cc) q
Step-IsDrained d (leave i at_i e) ne q = leave-IsDrained d i e q
Step-IsDrained d (take i at_i e) ne q = take-IsDrained d i e q
Step-IsDrained {s} d (fault i at_i e) ne q =
    moved-IsDrained d i faulted s.locker s.unnotified (λ e. cc) q
Step-IsDrained {s} d (finish_task i t at_i) ne q =
    moved-IsDrained d i acquiring s.locker s.unnotified (λ e. cc) q
Step-IsDrained {s} d (pass h) ne q = absurd (cc (h, asked_lem d.queue d.asks))
Step-IsDrained {s} d (store t h free) ne q = absurd (omega (arith, h, d.nobody))
Step-IsDrained {s} d (notify_one i {u} h at_i) ne q =
    moved-IsDrained d i acquiring s.locker u (λ e. cc) q
Step-IsDrained d (notify_none {u} h idle_all) ne q = notify_none-IsDrained d u q
Step-IsDrained {s} d (call_start at_c) ne q = absurd (not_idle s d.asks at_c)
Step-IsDrained {s} d (call_set_num n at_c e) ne q = absurd (not_idle s d.asks at_c)
Step-IsDrained {s} d (call_stop at_c) ne q = absurd (not_idle s d.asks at_c)
Step-IsDrained {s} d (call_wait at_c) ne q = absurd (not_idle s d.asks at_c)
Step-IsDrained {s} d (request {c} at_c) ne q = absurd (not_stopping s c d.asks at_c)
Step-IsDrained d (clear {c} at_c) ne q = clear-IsDrained d c q
Step-IsDrained d (notify_all {c} at_c) ne q = notify_all-IsDrained d c q
Step-IsDrained {s} d (join {c} at_c all) ne q = absurd (ne (finish-client c s))

During-IsDrained : {p : List ℕ} {s t : TaskQueue} → IsDrained p s → During s t → IsDrained p t
unfolding wake
During-IsDrained d none_so_far = d
During-IsDrained d (then_one r st ne) =
    let now = During-IsDrained d r in Step-IsDrained now st ne (Step-IsQueue now.queue st)
During-IsDrained d (then_wake {t} i r at_i) =
    let now = During-IsDrained d r in
    moved-IsDrained now i acquiring t.locker t.unnotified (λ e. cc)
      (woken-IsQueue now.queue i t.unnotified at_i)

AllExited-some :
    (ws : List Worker) → 0 < length ws → AllExited ws → (i : ℕ) × (get_elem? ws i ≡ some exited)
AllExited-some [] h all = absurd (omega arith)
AllExited-some (w ∷ ws) h all = (0, ap some all.0)

requested-IsDrained :
    {num : ℕ} {s : TaskQueue}
    → Reach num s
    → s.client ≡ stopping true
    → s.passed ≡ 0
    → 0 < length s.workers
    → IsDrained s.pushed (after_request true s)
requested-IsDrained {s} r at_c none_passed some_workers = record {
  queue = Step-IsQueue (Reach-IsQueue r) (request at_c);
  policy = Reach-IsPatient r (ap completes at_c);
  asks = refl;
  nobody = none_passed;
  present = some_workers;
  empty = λ i h.
      absurd (cc ((Reach-IsQueue r).fits i exited h, (Reach-IsQueue r).asked, ap is_asked at_c));
  same = refl;
}

-- When `wait_for_completion` requests the stop and there are workers and no call of a push that has
-- passed its test without having stored its task, then at the joins, when all workers have returned,
-- the deque is empty and the tasks that were taken are all that were pushed before the call, in
-- their order.
pub wait_for_completion-drains :
    {num : ℕ} {s t : TaskQueue}
    → Reach num s
    → s.client ≡ stopping true
    → s.passed ≡ 0
    → 0 < length s.workers
    → During (after_request true s) t
    → AllExited t.workers
    → (t.tasks ≡ []) × (t.started ≡ s.pushed)
wait_for_completion-drains {t} r at_c none_passed some_workers path all =
    let d = During-IsDrained (requested-IsDrained r at_c none_passed some_workers) path in
    let (i, at_i) = AllExited-some t.workers d.present all in
    let left = d.empty i at_i in
    (
      left,
      sym (append-nil t.started) ∙ ap (λ l. t.started ++ l) (sym left) ∙ sym d.queue.fifo ∙ d.same,
    )
