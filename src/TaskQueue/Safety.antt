-- ===== src/TaskQueue/Safety.antt =====
-- What holds of a queue in every state that it can come to, in whatever order the threads run, as long
-- as no call of `push_void_task` has unlocked the mutex a second time.
use zettelkasten_public_subs.Common.{ℕ, suc, ◌≡◌, refl, ap, ◌∙◌, true, some, ◌++◌, ◌≢◌, arith}
use zettelkasten_public_subs.TaskQueue.{
  Worker, acquiring, testing, unsatisfied, blocked, satisfied, exited, faulted, running, TaskQueue,
  new_queue, IsWorker, Step, acquire, test_true, test_false, block, leave, take, fault, finish_task,
  pass, store, notify_one, notify_none, call_start, call_set_num, call_stop, call_wait, request,
  clear, notify_all, join, Reach, at_start, later, spurious, Course, going, undefined, Run, begin,
  moves, wakes, store_void, unlock_again,
}
use zettelkasten_public_subs.TaskQueue.Invariant.{holds, IsQueue}
use zettelkasten_public_subs.TaskQueue.Invariant.Moves.{
  acquire-IsQueue, test_true-IsQueue, test_false-IsQueue, block-IsQueue, leave-IsQueue,
  take-IsQueue, satisfied-not_faults, finish_task-IsQueue, woken-IsQueue,
}
use zettelkasten_public_subs.TaskQueue.Invariant.Calls.{
  pass-IsQueue, notify_none-IsQueue, store-IsQueue, request-IsQueue, clear-IsQueue,
  notify_all-IsQueue, set_num_workers-IsQueue, call_start-IsQueue, call_stop-IsQueue,
  wait_for_completion-IsQueue, finish-IsQueue,
}

holder-locker :
    {s : TaskQueue}
    → IsQueue s
    → (i : ℕ) (w : Worker) → IsWorker s i w
    → holds w ≡ true
    → s.locker ≡ some i
holder-locker inv i testing h e = inv.fits i testing h
holder-locker inv i unsatisfied h e = inv.fits i unsatisfied h
holder-locker inv i satisfied h e = (inv.fits i satisfied h).0
holder-locker inv i acquiring h e = cc
holder-locker inv i blocked h e = cc
holder-locker inv i exited h e = cc
holder-locker inv i faulted h e = cc
holder-locker inv i (running t) h e = cc

new_queue-IsQueue : (num : ℕ) → IsQueue (new_queue num)
unfolding new_queue
new_queue-IsQueue num = record { fits = λ i w h. cc; held = λ i e. cc; asked = refl; fifo = refl }

pub Step-IsQueue : {s t : TaskQueue} → IsQueue s → Step s t → IsQueue t
Step-IsQueue inv (acquire i at_i free) = acquire-IsQueue inv i at_i free
Step-IsQueue inv (test_true i at_i h) = test_true-IsQueue inv i at_i h
Step-IsQueue inv (test_false i at_i h) = test_false-IsQueue inv i at_i
Step-IsQueue inv (block i at_i) = block-IsQueue inv i at_i
Step-IsQueue inv (leave i at_i e) = leave-IsQueue inv i at_i e
Step-IsQueue inv (take i at_i e) = take-IsQueue inv i at_i e
Step-IsQueue inv (fault i at_i e) = absurd (satisfied-not_faults inv i at_i e)
Step-IsQueue inv (finish_task i t at_i) = finish_task-IsQueue inv i t at_i
Step-IsQueue {s} inv (pass h) = pass-IsQueue inv (suc s.passed)
Step-IsQueue {s} inv (store t {p} h free) = store-IsQueue inv t p (suc s.unnotified) free
Step-IsQueue inv (notify_one i {u} h at_i) = woken-IsQueue inv i u at_i
Step-IsQueue inv (notify_none {u} h idle_all) = notify_none-IsQueue inv u
Step-IsQueue inv (call_start at_c) = call_start-IsQueue inv
Step-IsQueue inv (call_set_num n at_c e) = set_num_workers-IsQueue inv n e
Step-IsQueue inv (call_stop at_c) = call_stop-IsQueue inv at_c
Step-IsQueue inv (call_wait at_c) = wait_for_completion-IsQueue inv at_c
Step-IsQueue inv (request {c} at_c) = request-IsQueue inv c
Step-IsQueue inv (clear {c} at_c) = clear-IsQueue inv c at_c
Step-IsQueue inv (notify_all {c} at_c) = notify_all-IsQueue inv c at_c
Step-IsQueue inv (join {c} at_c all) = finish-IsQueue c inv all

pub Reach-IsQueue : {num : ℕ} {s : TaskQueue} → Reach num s → IsQueue s
Reach-IsQueue {num} at_start = new_queue-IsQueue num
Reach-IsQueue (later r st) = Step-IsQueue (Reach-IsQueue r) st
Reach-IsQueue (spurious {s} i r at_i) = woken-IsQueue (Reach-IsQueue r) i s.unnotified at_i

-- A course without undefined behaviour comes to states that the steps reach.
Reached : ℕ → Course → Type 0
Reached num (going v s) = Reach num s
Reached num undefined = Unit

Run-Reached : {num : ℕ} {c : Course} → Run num c → Reached num c
unfolding Reached
Run-Reached begin = at_start
Run-Reached (moves r st) = later (Run-Reached r) st
Run-Reached (wakes i r at_i) = spurious i (Run-Reached r) at_i
Run-Reached (store_void t r h free) = later (Run-Reached r) (store t h free)
Run-Reached (unlock_again r) = tt

Run-IsQueue : {num v : ℕ} {s : TaskQueue} → Run num (going v s) → IsQueue s
unfolding Reached
Run-IsQueue r = Reach-IsQueue (Run-Reached r)

-- However the threads interleave and whatever members they call, `push_void_task` included, as long as
-- no call of that one has come to its second unlock: at most one worker is between taking the mutex
-- and giving it up.
one_worker_holds :
    {num v : ℕ} {s : TaskQueue}
    → Run num (going v s)
    → (i j : ℕ) (w u : Worker) → IsWorker s i w
    → IsWorker s j u
    → holds w ≡ true
    → holds u ≡ true
    → i ≡ j
one_worker_holds r i j w u hi hj bi bj =
    let inv = Run-IsQueue r in
    let mine = holder-locker inv i w hi bi in
    let other = holder-locker inv j u hj bj in ground arith

-- However the threads interleave and whatever members they call, `push_void_task` included, as long as
-- no call of that one has come to its second unlock, which is undefined: no worker has called `front`
-- on an empty deque.
pub front_of_tasks :
    {num v : ℕ} {s : TaskQueue}
    → Run num (going v s)
    → (i : ℕ) (w : Worker) → IsWorker s i w
    → w ≢ faulted
front_of_tasks {s} r i w at_i e = (Run-IsQueue r).fits i faulted (at_i ∙ ap some e)

-- However the threads interleave and whatever members they call, `push_void_task` included, as long as
-- no call of that one has come to its second unlock, which is undefined: the tasks that workers have
-- taken, in the order in which they took them, followed by those in the deque, are the tasks that were
-- pushed, in the order in which they were stored: none is lost, none runs twice and none is overtaken.
pub tasks_in_order :
    {num v : ℕ} {s : TaskQueue} → Run num (going v s) → s.pushed ≡ s.started ++ s.tasks
tasks_in_order r = (Run-IsQueue r).fifo
