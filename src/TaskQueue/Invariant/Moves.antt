-- ===== src/TaskQueue/Invariant/Moves.antt =====
-- The moves of a worker keep the invariant.
use zettelkasten_public_subs.Common.{
  ℕ, ◌≡◌, refl, sym, ap, ◌∙◌, true, none, some, List, [], ◌∷◌, ◌++◌, ◌≢◌, arith,
}
use zettelkasten_public_subs.TaskQueue.{
  Worker, acquiring, testing, unsatisfied, blocked, satisfied, exited, running, TaskQueue, wake,
  has_work, leaves, faults, takes, take_front, is_stop_after, is_empty, resume, put, IsWorker,
}
use mathlib.Core.List.{append_assoc}
use zettelkasten_public_subs.TaskQueue.Invariant.{Fits, IsQueue, put-Fits, put-held, put-Holder}

resume-not_faults : (s : TaskQueue) → has_work s ≡ true → resume s ≢ faults
unfolding has_work resume take_front is_empty is_stop_after
resume-not_faults s h e = ground arith

module _ {s : TaskQueue} (inv : IsQueue s) where
  pub acquire-IsQueue :
      (i : ℕ)
      → IsWorker s i acquiring
      → s.locker ≡ none
      → IsQueue (put i testing (record s { locker = some i }))
  unfolding has_work
  acquire-IsQueue i at_i free = record {
    fits =
        put-Fits s (record s { locker = some i }) i testing inv.fits refl refl
          λ j n. record { lock = λ e. cc; work = λ e h. h; stays = λ e. e };
    held = put-Holder s i testing at_i refl;
    asked = inv.asked;
    fifo = inv.fifo;
  }

  pub test_true-IsQueue :
      (i : ℕ) → IsWorker s i testing → has_work s ≡ true → IsQueue (put i satisfied s)
  unfolding has_work
  test_true-IsQueue i at_i h = record {
    fits =
        put-Fits s s i satisfied inv.fits (inv.fits i testing at_i, h) refl
          λ j n. record { lock = λ e. e; work = λ e h. h; stays = λ e. e };
    held = λ k e. put-Holder s i satisfied at_i refl k (sym (inv.fits i testing at_i) ∙ e);
    asked = inv.asked;
    fifo = inv.fifo;
  }

  pub test_false-IsQueue : (i : ℕ) → IsWorker s i testing → IsQueue (put i unsatisfied s)
  unfolding has_work
  test_false-IsQueue i at_i = record {
    fits =
        put-Fits s s i unsatisfied inv.fits (inv.fits i testing at_i) refl
          λ j n. record { lock = λ e. e; work = λ e h. h; stays = λ e. e };
    held = λ k e. put-Holder s i unsatisfied at_i refl k (sym (inv.fits i testing at_i) ∙ e);
    asked = inv.asked;
    fifo = inv.fifo;
  }

  -- A worker that holds the mutex gives it up.
  released-Fits :
      (t : TaskQueue) (i : ℕ) (w : Worker)
      → s.locker ≡ some i
      → Fits (put i w t) i w
      → t.workers ≡ s.workers
      → t.stop_requested ≡ s.stop_requested
      → (j : ℕ) (v : Worker) → IsWorker (put i w t) j v
      → Fits (put i w t) j v
  released-Fits t i w mine own same stops = put-Fits s t i w inv.fits own same λ j n. record {
    lock = λ e. absurd (ground arith);
    work = λ e. absurd (ground arith);
    stays = λ e. stops ∙ e;
  }

  pub block-IsQueue :
      (i : ℕ) → IsWorker s i unsatisfied → IsQueue (put i blocked (record s { locker = none }))
  block-IsQueue i at_i = record {
    fits =
        released-Fits (record s { locker = none }) i blocked (inv.fits i unsatisfied at_i) tt refl
          refl;
    held = λ k e. cc;
    asked = inv.asked;
    fifo = inv.fifo;
  }

  pub resume-leaves_asked : resume s ≡ leaves → s.stop_requested ≡ true
  unfolding resume take_front
  resume-leaves_asked e = ground arith

  pub leave-IsQueue :
      (i : ℕ)
      → IsWorker s i satisfied
      → resume s ≡ leaves
      → IsQueue (put i exited (record s { locker = none }))
  leave-IsQueue i at_i e = record {
    fits =
        released-Fits (record s { locker = none }) i exited (inv.fits i satisfied at_i).0
          (resume-leaves_asked e) refl refl;
    held = λ k e. cc;
    asked = inv.asked;
    fifo = inv.fifo;
  }

  pub resume-takes_tasks : {t : ℕ} {ts : List ℕ} → resume s ≡ takes t ts → s.tasks ≡ t ∷ ts
  unfolding resume take_front is_empty is_stop_after
  resume-takes_tasks e = ground arith

  pub take-IsQueue :
      (i : ℕ) {t : ℕ} {ts : List ℕ}
      → IsWorker s i satisfied
      → resume s ≡ takes t ts
      → IsQueue (
          put i (running t) (record s { locker = none; tasks = ts; started = s.started ++ t ∷ [] }))
  take-IsQueue i {t} {ts} at_i e = record {
    fits =
        released-Fits (record s { locker = none; tasks = ts; started = s.started ++ t ∷ [] }) i
          (running t) (inv.fits i satisfied at_i).0 tt refl refl;
    held = λ k e. cc;
    asked = inv.asked;
    fifo =
        inv.fifo
        ∙ ap (λ l. s.started ++ l) (resume-takes_tasks e)
        ∙ sym (append_assoc s.started (t ∷ []) ts);
  }

  pub satisfied-not_faults : (i : ℕ) → IsWorker s i satisfied → resume s ≢ faults
  satisfied-not_faults i at_i = resume-not_faults s (inv.fits i satisfied at_i).1

  pub finish_task-IsQueue : (i t : ℕ) → IsWorker s i (running t) → IsQueue (put i acquiring s)
  unfolding has_work
  finish_task-IsQueue i t at_i = record {
    fits =
        put-Fits s s i acquiring inv.fits tt refl
          λ j n. record { lock = λ e. e; work = λ e h. h; stays = λ e. e };
    held = λ k e. put-held s i acquiring at_i refl k (inv.held k e);
    asked = inv.asked;
    fifo = inv.fifo;
  }

  -- One worker is woken, with any count of calls that have not notified.
  pub woken-IsQueue :
      (i u : ℕ)
      → IsWorker s i blocked
      → IsQueue (put i (wake blocked) (record s { unnotified = u }))
  unfolding has_work wake
  woken-IsQueue i u at_i = record {
    fits =
        put-Fits s (record s { unnotified = u }) i acquiring inv.fits tt refl
          λ j n. record { lock = λ e. e; work = λ e h. h; stays = λ e. e };
    held = λ k e. put-held s i acquiring at_i refl k (inv.held k e);
    asked = inv.asked;
    fifo = inv.fifo;
  }
