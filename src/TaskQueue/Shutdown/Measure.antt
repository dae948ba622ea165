-- ===== src/TaskQueue/Shutdown/Measure.antt =====
-- What the threads can still do once a stop is requested, as a number that each step makes smaller.
use zettelkasten_public_subs.Common.{
  ℕ, suc, ◌≡◌, ap, ◌∙◌, true, some, List, [], ◌∷◌, ◌≢◌, arith, get_elem?, set, map,
}
use zettelkasten_public_subs.TaskQueue.{
  Worker, acquiring, testing, unsatisfied, blocked, satisfied, exited, faulted, running, Client,
  idle, stopping, requested, cleared, joining, TaskQueue, wake, has_work, put, IsWorker, Step,
  acquire, test_true, test_false, block, leave, take, fault, finish_task, pass, store, notify_one,
  notify_none, call_start, call_set_num, call_stop, call_wait, request, clear, notify_all, join,
}
use zettelkasten_public_subs.TaskQueue.Invariant.{is_asked, IsQueue}
use zettelkasten_public_subs.Common.{◌<◌, length, ◌+◌, ◌*◌, ◌≤◌, zero, length-append}
use zettelkasten_public_subs.TaskQueue.Invariant.Moves.{resume-takes_tasks}
use zettelkasten_public_subs.TaskQueue.During.{finish-client, not_idle, not_stopping, asked_lem}

unfoldable pub weight : Worker → ℕ
weight acquiring = 3
weight testing = 2
weight unsatisfied = 5
weight blocked = 4
weight satisfied = 1
weight exited = 0
weight faulted = 0
weight (running t) = 4

unfoldable pub total : List Worker → ℕ
total [] = 0
total (w ∷ ws) = weight w + total ws

total-set :
    (ws : List Worker) (i : ℕ) {v : Worker} (w : Worker)
    → get_elem? ws i ≡ some v
    → total (set ws i w) + weight v ≡ total ws + weight w
unfolding total
total-set [] i w h = cc
total-set (x ∷ ws) zero {v} w h = let same : weight v ≡ weight x = cc in omega (arith, same)
total-set (x ∷ ws) (suc i) w h = omega (arith, total-set ws i w h)

weight-wake : (w : Worker) → weight (wake w) ≤ weight w
unfolding weight wake
weight-wake acquiring = omega arith
weight-wake testing = omega arith
weight-wake unsatisfied = omega arith
weight-wake blocked = omega arith
weight-wake satisfied = omega arith
weight-wake exited = omega arith
weight-wake faulted = omega arith
weight-wake (running t) = omega arith

total-wake : (ws : List Worker) → total (map wake ws) ≤ total ws
unfolding total
total-wake [] = omega arith
total-wake (w ∷ ws) = omega (arith, weight-wake w, total-wake ws)

pub total-le : (ws : List Worker) → total ws ≤ 5 * length ws
unfolding total weight
total-le [] = omega arith
total-le (acquiring ∷ ws) = omega (arith, total-le ws)
total-le (testing ∷ ws) = omega (arith, total-le ws)
total-le (unsatisfied ∷ ws) = omega (arith, total-le ws)
total-le (blocked ∷ ws) = omega (arith, total-le ws)
total-le (satisfied ∷ ws) = omega (arith, total-le ws)
total-le (exited ∷ ws) = omega (arith, total-le ws)
total-le (faulted ∷ ws) = omega (arith, total-le ws)
total-le (running t ∷ ws) = omega (arith, total-le ws)

unfoldable pub phase : Client → ℕ
phase idle = 0
phase (stopping c) = 0
phase (requested c) = 2
phase (cleared c) = 1
phase (joining c) = 0

-- What the threads can still do.
unfoldable pub measure : TaskQueue → ℕ
measure s = total s.workers + 5 * length s.tasks + 7 * s.passed + s.unnotified + phase s.client

put-measure :
    (s t : TaskQueue) (i : ℕ) {v : Worker} (w : Worker)
    → IsWorker s i v
    → t.workers ≡ s.workers
    → measure (put i w t) + weight v ≡ measure t + weight w
unfolding measure
put-measure s t i {v} w at_i same =
    omega (arith, total-set t.workers i w (ap (λ ws. get_elem? ws i) same ∙ at_i))

pub asked-has_work : (s : TaskQueue) → s.stop_requested ≡ true → has_work s ≡ true
unfolding has_work
asked-has_work s e = ground arith

-- Each step while the stop is requested takes something away.
pub Step-measure :
    {s t : TaskQueue}
    → IsQueue s
    → is_asked s.client ≡ true
    → Step s t
    → t.client ≢ idle
    → measure t < measure s
unfolding wake measure weight
Step-measure {s} q a (acquire i at_i free) ne = omega (arith, total-set s.workers i testing at_i)
Step-measure {s} q a (test_true i at_i h) ne = omega (arith, total-set s.workers i satisfied at_i)
Step-measure {s} q a (test_false i at_i h) ne = absurd (cc (h, asked-has_work s (asked_lem q a)))
Step-measure {s} q a (block i at_i) ne = omega (arith, total-set s.workers i blocked at_i)
Step-measure {s} q a (leave i at_i e) ne = omega (arith, total-set s.workers i exited at_i)
Step-measure {s} q a (take i {t} {ts} at_i e) ne =
    omega (arith, total-set s.workers i (running t) at_i, ap (length {0}) (resume-takes_tasks q e))
Step-measure {s} q a (fault i at_i e) ne = omega (arith, total-set s.workers i faulted at_i)
Step-measure {s} q a (finish_task i t at_i) ne = omega (arith, total-set s.workers i acquiring at_i)
Step-measure {s} q a (pass h) ne = absurd (cc (h, asked_lem q a))
Step-measure {s} q a (store t h free) ne = omega (arith, h, length-append {A = ℕ} s.tasks (t ∷ []))
Step-measure {s} q a (notify_one i {u} h at_i) ne =
    omega (arith, h, total-set s.workers i acquiring at_i)
Step-measure {s} q a (notify_none {u} h idle_all) ne = omega (arith, h)
Step-measure {s} q a (call_start at_c) ne = absurd (not_idle s a at_c)
Step-measure {s} q a (call_set_num n at_c e) ne = absurd (not_idle s a at_c)
Step-measure {s} q a (call_stop at_c) ne = absurd (not_idle s a at_c)
Step-measure {s} q a (call_wait at_c) ne = absurd (not_idle s a at_c)
Step-measure {s} q a (request {c} at_c) ne = absurd (not_stopping s c a at_c)
Step-measure {s} q a (clear {c} at_c) ne =
    let was = ap phase at_c in unfold phase in omega (arith, was)
Step-measure {s} q a (notify_all {c} at_c) ne =
    let was = ap phase at_c in unfold phase in omega (arith, was, total-wake s.workers)
Step-measure {s} q a (join {c} at_c all) ne = absurd (ne (finish-client c s))
