-- ===== src/TaskQueue/Invariant/Calls.antt =====
-- The calls of the pushing threads and of the thread that controls the queue keep the invariant.
use zettelkasten_public_subs.Common.{
  ℕ, ◌≡◌, refl, sym, ap, ◌∙◌, subst, Bool, true, false, none, some, [], ◌∷◌, ◌++◌, ◌≢◌, inl, inr,
  arith, get_elem?, replicate, map, if_elim,
}
use zettelkasten_public_subs.TaskQueue.{
  StopPolicy, wait_for_queue_completion, stop_after_current_task, Worker, acquiring, testing,
  unsatisfied, blocked, satisfied, exited, faulted, running, idle, stopping, requested, cleared,
  joining, TaskQueue, set_num_workers, init_workers, start, stop, wait_for_completion, wake, finish,
  has_work, IsWorker, AllExited,
}
use zettelkasten_public_subs.TaskQueue.Workers.{
  replicate-cases, append-kept, wake-get_elem?, wake-cases, AllExited-get_elem?,
}
use mathlib.Core.List.{append_assoc}
use zettelkasten_public_subs.TaskQueue.Invariant.{holds, is_asked, Fits, IsQueue, Keeps, Fits-kept}

-- The state but for the workers is as the invariant says of `s`, and no worker has moved.
same-Fits :
    (s t : TaskQueue)
    → ((j : ℕ) (v : Worker) → IsWorker s j v → Fits s j v)
    → t.workers ≡ s.workers
    → ((j : ℕ) → Keeps s t j)
    → (j : ℕ) (v : Worker) → IsWorker t j v
    → Fits t j v
same-Fits s t all same keeps j v h =
    Fits-kept s t j v (keeps j) (all j v (subst (λ ws. get_elem? ws j ≡ some v) same h))

wake-holds : (w : Worker) → holds w ≡ true → wake w ≡ w
unfolding wake
wake-holds acquiring h = cc
wake-holds testing h = refl
wake-holds unsatisfied h = refl
wake-holds blocked h = cc
wake-holds satisfied h = refl
wake-holds exited h = refl
wake-holds faulted h = refl
wake-holds (running t) h = refl

-- After the joins nobody holds the mutex.
joined-free : {s : TaskQueue} → IsQueue s → AllExited s.workers → (k : ℕ) → s.locker ≢ some k
joined-free {s} inv all k e =
    let (w, at_k, h) = inv.held k e in
    let gone : w ≡ exited = AllExited-get_elem? s.workers k all at_k in ground arith

module _ {s : TaskQueue} (inv : IsQueue s) where
  pub pass-IsQueue : (p : ℕ) → IsQueue (record s { passed = p })
  unfolding has_work
  pass-IsQueue p = record {
    fits =
        same-Fits s (record s { passed = p }) inv.fits refl
          λ j. record { lock = λ e. e; work = λ e h. h; stays = λ e. e };
    held = inv.held;
    asked = inv.asked;
    fifo = inv.fifo;
  }

  pub notify_none-IsQueue : (u : ℕ) → IsQueue (record s { unnotified = u })
  unfolding has_work
  notify_none-IsQueue u = record {
    fits =
        same-Fits s (record s { unnotified = u }) inv.fits refl
          λ j. record { lock = λ e. e; work = λ e h. h; stays = λ e. e };
    held = inv.held;
    asked = inv.asked;
    fifo = inv.fifo;
  }

  pub store-IsQueue :
      (t p u : ℕ)
      → s.locker ≡ none
      → IsQueue (record s {
        passed = p;
        tasks = s.tasks ++ t ∷ [];
        pushed = s.pushed ++ t ∷ [];
        unnotified = u;
      })
  store-IsQueue t p u free = record {
    fits =
        same-Fits s
          (record s {
            passed = p;
            tasks = s.tasks ++ t ∷ [];
            pushed = s.pushed ++ t ∷ [];
            unnotified = u;
          })
          inv.fits refl λ j. record { lock = λ e. e; work = λ e. cc; stays = λ e. e };
    held = inv.held;
    asked = inv.asked;
    fifo = ap (λ l. l ++ t ∷ []) inv.fifo ∙ append_assoc s.started s.tasks (t ∷ []);
  }

  pub request-IsQueue :
      (c : Bool) → IsQueue (record s { client = requested c; stop_requested = true })
  unfolding has_work
  request-IsQueue c = record {
    fits =
        same-Fits s (record s { client = requested c; stop_requested = true }) inv.fits refl
          λ j. record { lock = λ e. e; work = λ e h. ground arith; stays = λ e. refl };
    held = inv.held;
    asked = refl;
    fifo = inv.fifo;
  }

  pub clear-IsQueue :
      (c : Bool)
      → s.client ≡ requested c
      → IsQueue (record s { client = cleared c; is_running = false })
  unfolding has_work
  clear-IsQueue c at_c = record {
    fits =
        same-Fits s (record s { client = cleared c; is_running = false }) inv.fits refl
          λ j. record { lock = λ e. e; work = λ e h. h; stays = λ e. e };
    held = inv.held;
    asked = inv.asked ∙ ap is_asked at_c;
    fifo = inv.fifo;
  }

  pub notify_all-IsQueue :
      (c : Bool)
      → s.client ≡ cleared c
      → IsQueue (record s { client = joining c; workers = map wake s.workers })
  unfolding has_work
  notify_all-IsQueue c at_c = record {
    fits = λ j v h. elim (wake-cases s.workers j h) [
      | inl e ↦ subst (λ (w : Worker). Fits t j w) (sym e) tt
      | inr e ↦
          Fits-kept s t j v (record { lock = λ e. e; work = λ e h. h; stays = λ e. e })
            (inv.fits j v e)
    ];
    held = λ k e.
        let (w, at_k, h) = inv.held k e in
        (w, wake-get_elem? s.workers k at_k ∙ ap some (wake-holds w h), h);
    asked = inv.asked ∙ ap is_asked at_c;
    fifo = inv.fifo;
  }
    where
      t : TaskQueue
      t = record s { client = joining c; workers = map wake s.workers }

  set_num-IsQueue : (n : ℕ) → IsQueue (record s { num_workers = n })
  unfolding has_work
  set_num-IsQueue n = record {
    fits =
        same-Fits s (record s { num_workers = n }) inv.fits refl
          λ j. record { lock = λ e. e; work = λ e h. h; stays = λ e. e };
    held = inv.held;
    asked = inv.asked;
    fifo = inv.fifo;
  }

  pub set_num_workers-IsQueue :
      (n : ℕ) {s' : TaskQueue} → set_num_workers n s ≡ some s' → IsQueue s'
  unfolding set_num_workers
  set_num_workers-IsQueue n {s'} e = subst IsQueue (ground arith) (set_num-IsQueue n)

  policy-IsQueue : (p : StopPolicy) → IsQueue (record s { stop_policy = p })
  unfolding has_work
  policy-IsQueue p = record {
    fits =
        same-Fits s (record s { stop_policy = p }) inv.fits refl
          λ j. record { lock = λ e. e; work = λ e h. h; stays = λ e. e };
    held = inv.held;
    asked = inv.asked;
    fifo = inv.fifo;
  }

  stopping-IsQueue : (c : Bool) → s.client ≡ idle → IsQueue (record s { client = stopping c })
  unfolding has_work
  stopping-IsQueue c at_c = record {
    fits =
        same-Fits s (record s { client = stopping c }) inv.fits refl
          λ j. record { lock = λ e. e; work = λ e h. h; stays = λ e. e };
    held = inv.held;
    asked = inv.asked ∙ ap is_asked at_c;
    fifo = inv.fifo;
  }

  stop-IsQueue : (c : Bool) → s.client ≡ idle → IsQueue (stop c s)
  unfolding stop
  stop-IsQueue c at_c = if_elim IsQueue s.is_running (stopping-IsQueue c at_c) inv

  init_workers-IsQueue : (n : ℕ) → IsQueue (init_workers n (record s { is_running = true }))
  unfolding has_work init_workers
  init_workers-IsQueue n = record {
    fits = λ j v h. elim (replicate-cases s.workers n j v h) [
      | inl e ↦ subst (λ (w : Worker). Fits t j w) (sym e) tt
      | inr e ↦
          Fits-kept s t j v (record { lock = λ e. e; work = λ e h. h; stays = λ e. e })
            (inv.fits j v e)
    ];
    held = λ k e.
        let (w, at_k, h) = inv.held k e in
        (w, append-kept s.workers (replicate n acquiring) k at_k, h);
    asked = inv.asked;
    fifo = inv.fifo;
  }
    where
      t : TaskQueue
      t = record s { is_running = true; workers = s.workers ++ replicate n acquiring }

  start-IsQueue : IsQueue (start s)
  unfolding start
  start-IsQueue = if_elim IsQueue s.is_running inv (init_workers-IsQueue s.num_workers)

  stopped-IsQueue :
      AllExited s.workers
      → IsQueue (record s { workers = []; stop_requested = false; client = idle })
  stopped-IsQueue all = record {
    fits = λ j v h. cc;
    held = λ k e. absurd (joined-free inv all k e);
    asked = refl;
    fifo = inv.fifo;
  }

pub call_start-IsQueue : {s : TaskQueue} → IsQueue s → IsQueue (start s)
call_start-IsQueue inv = start-IsQueue inv

pub call_stop-IsQueue : {s : TaskQueue} → IsQueue s → s.client ≡ idle → IsQueue (stop false s)
call_stop-IsQueue inv at_c = stop-IsQueue inv false at_c

pub wait_for_completion-IsQueue :
    {s : TaskQueue} → IsQueue s → s.client ≡ idle → IsQueue (wait_for_completion s)
unfolding wait_for_completion
wait_for_completion-IsQueue {s} inv at_c =
    if_elim IsQueue s.is_running
      (stop-IsQueue (policy-IsQueue inv wait_for_queue_completion) true at_c) inv

pub finish-IsQueue :
    {s : TaskQueue} (c : Bool) → IsQueue s → AllExited s.workers → IsQueue (finish c s)
unfolding finish
finish-IsQueue false inv all = stopped-IsQueue inv all
finish-IsQueue true inv all =
    start-IsQueue (policy-IsQueue (stopped-IsQueue inv all) stop_after_current_task)
