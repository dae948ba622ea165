-- ===== src/TaskQueue/During.antt =====
-- What happens while the call of `stop` is in progress.
use zettelkasten_public_subs.Common.{ℕ, ◌≡◌, refl, ap, ◌∙◌, Bool, true, false, [], ◌≢◌, arith}
use zettelkasten_public_subs.TaskQueue.{
  wait_for_queue_completion, stop_after_current_task, blocked, Client, idle, stopping, requested,
  cleared, joining, TaskQueue, new_queue, set_num_workers, init_workers, start, stop,
  wait_for_completion, wake, finish, put, IsWorker, Step, acquire, test_true, test_false, block,
  leave, take, fault, finish_task, pass, store, notify_one, notify_none, call_start, call_set_num,
  call_stop, call_wait, request, clear, notify_all, join, Reach, at_start, later, spurious,
}
use zettelkasten_public_subs.TaskQueue.Invariant.{is_asked, IsQueue}

-- Steps and spurious wakeups before the call of `stop` has returned.
pub data During (s : TaskQueue) : TaskQueue → Type 0 where
  none_so_far : During s s
  then_one : {t u : TaskQueue} → During s t → Step t u → u.client ≢ idle → During s u
  then_wake :
      {t : TaskQueue} (i : ℕ)
      → During s t
      → IsWorker t i blocked
      → During s (put i (wake blocked) t)

abbrev pub after_request : Bool → TaskQueue → TaskQueue
after_request c s = record s { client = requested c; stop_requested = true }

-- `wait_for_completion` made the call of `stop`.
abbrev pub completes : Client → Bool
completes idle = false
completes (stopping c) = c
completes (requested c) = c
completes (cleared c) = c
completes (joining c) = c

-- While it waits for the joins, the policy is to run all tasks.
abbrev pub IsPatient : TaskQueue → Type 0
IsPatient s = completes s.client ≡ true → s.stop_policy ≡ wait_for_queue_completion

start-client : (s : TaskQueue) → (start s).client ≡ s.client
unfolding start init_workers
start-client s = ground arith

pub finish-client : (c : Bool) (s : TaskQueue) → (finish c s).client ≡ idle
unfolding finish
finish-client false s = refl
finish-client true s = start-client (record s {
  workers = [];
  stop_requested = false;
  client = idle;
  stop_policy = stop_after_current_task;
})

Step-IsPatient : {s t : TaskQueue} → Step s t → IsPatient s → IsPatient t
unfolding start init_workers stop wait_for_completion set_num_workers
Step-IsPatient (acquire i at_i free) h = h
Step-IsPatient (test_true i at_i e) h = h
Step-IsPatient (test_false i at_i e) h = h
Step-IsPatient (block i at_i) h = h
Step-IsPatient (leave i at_i e) h = h
Step-IsPatient (take i at_i e) h = h
Step-IsPatient (fault i at_i e) h = h
Step-IsPatient (finish_task i t at_i) h = h
Step-IsPatient (pass e) h = h
Step-IsPatient (store t e free) h = h
Step-IsPatient (notify_one i e at_i) h = h
Step-IsPatient (notify_none e idle_all) h = h
Step-IsPatient {s} (call_start at_c) h = λ e. ground arith
Step-IsPatient {s} (call_set_num n at_c e) h = λ f. ground arith
Step-IsPatient {s} (call_stop at_c) h = λ e. ground arith
Step-IsPatient {s} (call_wait at_c) h = λ e. ground arith
Step-IsPatient (request at_c) h = λ e. h (ap completes at_c ∙ e)
Step-IsPatient (clear at_c) h = λ e. h (ap completes at_c ∙ e)
Step-IsPatient (notify_all at_c) h = λ e. h (ap completes at_c ∙ e)
Step-IsPatient {s} (join {c} at_c all) h = λ e. cc (ap completes (finish-client c s))

pub Reach-IsPatient : {num : ℕ} {s : TaskQueue} → Reach num s → IsPatient s
unfolding new_queue
Reach-IsPatient at_start = λ e. cc
Reach-IsPatient (later r st) = Step-IsPatient st (Reach-IsPatient r)
Reach-IsPatient (spurious i r at_i) = Reach-IsPatient r

-- The steps that a call in progress rules out.
pub not_idle : (s : TaskQueue) → is_asked s.client ≡ true → s.client ≢ idle
not_idle s h e = cc (ap is_asked e)

pub not_stopping : (s : TaskQueue) (c : Bool) → is_asked s.client ≡ true → s.client ≢ stopping c
not_stopping s c h e = cc (ap is_asked e)

pub asked_lem : {s : TaskQueue} → IsQueue s → is_asked s.client ≡ true → s.stop_requested ≡ true
asked_lem inv h = inv.asked ∙ h
