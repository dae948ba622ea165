-- ===== src/TaskQueue/Shutdown/Progress.antt =====
-- While a stop is requested and no worker is about to block, some thread can take a step.
use zettelkasten_public_subs.Common.{
  ℕ, suc, ◌≡◌, refl, sym, ap, ◌∙◌, Bool, true, false, none, some, List, [], ◌∷◌, ◌++◌, ◌≢◌, ◌⊎◌,
  inl, inr, arith, get_elem?, set, map,
}
use zettelkasten_public_subs.TaskQueue.{
  Worker, acquiring, testing, unsatisfied, blocked, satisfied, exited, faulted, running, Client,
  idle, stopping, requested, cleared, joining, TaskQueue, wake, finish, has_work, Resumed, leaves,
  faults, takes, resume, put, IsWorker, AllExited, Step, acquire, test_true, test_false, block,
  leave, take, fault, finish_task, pass, store, notify_one, notify_none, call_start, call_set_num,
  call_stop, call_wait, request, clear, notify_all, join,
}
use zettelkasten_public_subs.TaskQueue.Workers.{set-cases, wake-cases}
use zettelkasten_public_subs.TaskQueue.Invariant.{holds, is_asked, IsQueue}
use zettelkasten_public_subs.Common.{zero}
use zettelkasten_public_subs.TaskQueue.During.{finish-client, not_idle, not_stopping, asked_lem}
use zettelkasten_public_subs.TaskQueue.Shutdown.Measure.{asked-has_work}
use zettelkasten_public_subs.Common.{Bool-cases, Option-cases}

-- No worker is about to block, and none is blocked once all were notified.
pub record IsPrompt (s : TaskQueue) : Type 0 where
  pub awake : (i : ℕ) → ¬ IsWorker s i unsatisfied
  pub woken : (c : Bool) → s.client ≡ joining c → (i : ℕ) → ¬ IsWorker s i blocked

put-IsPrompt :
    (s t : TaskQueue) (i : ℕ) (w : Worker)
    → IsPrompt s
    → w ≢ unsatisfied
    → w ≢ blocked
    → t.workers ≡ s.workers
    → t.client ≡ s.client
    → IsPrompt (put i w t)
put-IsPrompt s t i w p nu nb same client = record {
  awake = λ j h.
      elim (set-cases s.workers i w j unsatisfied
        (ap (λ ws. get_elem? (set ws i w) j) (sym same) ∙ h)) [
          | inl (e, f) ↦ nu (sym f)
          | inr (n, old) ↦ p.awake j old
        ];
  woken = λ c at_c j h.
      elim (set-cases s.workers i w j blocked
        (ap (λ ws. get_elem? (set ws i w) j) (sym same) ∙ h)) [
          | inl (e, f) ↦ nb (sym f)
          | inr (n, old) ↦ p.woken c (sym client ∙ at_c) j old
        ];
}

wake-not_blocked : (w : Worker) → wake w ≢ blocked
unfolding wake
wake-not_blocked acquiring e = cc
wake-not_blocked testing e = cc
wake-not_blocked unsatisfied e = cc
wake-not_blocked blocked e = cc
wake-not_blocked satisfied e = cc
wake-not_blocked exited e = cc
wake-not_blocked faulted e = cc
wake-not_blocked (running t) e = cc

map-wake-not_blocked : (ws : List Worker) (i : ℕ) → get_elem? (map wake ws) i ≢ some blocked
map-wake-not_blocked [] i e = cc
map-wake-not_blocked (w ∷ ws) zero e = wake-not_blocked w (ground arith)
map-wake-not_blocked (w ∷ ws) (suc i) e = map-wake-not_blocked ws i e

notify_all-IsPrompt :
    (s : TaskQueue) (c : Bool)
    → IsPrompt s
    → IsPrompt (record s { client = joining c; workers = map wake s.workers })
notify_all-IsPrompt s c p = record {
  awake = λ i h. elim (wake-cases s.workers i h) [ inl e ↦ cc | inr e ↦ p.awake i e ];
  woken = λ c' at_c i h. map-wake-not_blocked s.workers i h;
}

pub Step-IsPrompt :
    {s t : TaskQueue}
    → IsQueue s
    → is_asked s.client ≡ true
    → IsPrompt s
    → Step s t
    → t.client ≢ idle
    → IsPrompt t
unfolding wake
Step-IsPrompt {s} q a p (acquire i at_i free) ne =
    put-IsPrompt s (record s { locker = some i }) i testing p (λ e. cc) (λ e. cc) refl refl
Step-IsPrompt {s} q a p (test_true i at_i h) ne =
    put-IsPrompt s s i satisfied p (λ e. cc) (λ e. cc) refl refl
Step-IsPrompt {s} q a p (test_false i at_i h) ne = absurd (cc (h, asked-has_work s (asked_lem q a)))
Step-IsPrompt {s} q a p (block i at_i) ne = absurd (p.awake i at_i)
Step-IsPrompt {s} q a p (leave i at_i e) ne =
    put-IsPrompt s (record s { locker = none }) i exited p (λ e. cc) (λ e. cc) refl refl
Step-IsPrompt {s} q a p (take i {t} {ts} at_i e) ne =
    put-IsPrompt s (record s { locker = none; tasks = ts; started = s.started ++ t ∷ [] }) i
      (running t) p (λ e. cc) (λ e. cc) refl refl
Step-IsPrompt {s} q a p (fault i at_i e) ne =
    put-IsPrompt s s i faulted p (λ e. cc) (λ e. cc) refl refl
Step-IsPrompt {s} q a p (finish_task i t at_i) ne =
    put-IsPrompt s s i acquiring p (λ e. cc) (λ e. cc) refl refl
Step-IsPrompt {s} q a p (pass h) ne = record { awake = p.awake; woken = p.woken }
Step-IsPrompt {s} q a p (store t h free) ne = record { awake = p.awake; woken = p.woken }
Step-IsPrompt {s} q a p (notify_one i {u} h at_i) ne =
    put-IsPrompt s (record s { unnotified = u }) i acquiring p (λ e. cc) (λ e. cc) refl refl
Step-IsPrompt {s} q a p (notify_none {u} h idle_all) ne = record {
  awake = p.awake;
  woken = p.woken;
}
Step-IsPrompt {s} q a p (call_start at_c) ne = absurd (not_idle s a at_c)
Step-IsPrompt {s} q a p (call_set_num n at_c e) ne = absurd (not_idle s a at_c)
Step-IsPrompt {s} q a p (call_stop at_c) ne = absurd (not_idle s a at_c)
Step-IsPrompt {s} q a p (call_wait at_c) ne = absurd (not_idle s a at_c)
Step-IsPrompt {s} q a p (request {c} at_c) ne = absurd (not_stopping s c a at_c)
Step-IsPrompt {s} q a p (clear {c} at_c) ne = record { awake = p.awake; woken = λ c' e. cc }
Step-IsPrompt {s} q a p (notify_all {c} at_c) ne = notify_all-IsPrompt s c p
Step-IsPrompt {s} q a p (join {c} at_c all) ne = absurd (ne (finish-client c s))

head_left :
    (w : Worker) (ws : List Worker)
    → AllExited ws
    → AllExited (w ∷ ws) ⊎ ((i : ℕ) × (v : Worker) × (get_elem? (w ∷ ws) i ≡ some v) × (v ≢ exited))
head_left exited ws all = inl (refl, all)
head_left acquiring ws all = inr (0, acquiring, refl, λ e. cc)
head_left testing ws all = inr (0, testing, refl, λ e. cc)
head_left unsatisfied ws all = inr (0, unsatisfied, refl, λ e. cc)
head_left blocked ws all = inr (0, blocked, refl, λ e. cc)
head_left satisfied ws all = inr (0, satisfied, refl, λ e. cc)
head_left faulted ws all = inr (0, faulted, refl, λ e. cc)
head_left (running t) ws all = inr (0, running t, refl, λ e. cc)

Resumed-cases :
    (r : Resumed) → (r ≡ leaves) ⊎ ((r ≡ faults) ⊎ ((t : ℕ) × (ts : List ℕ) × (r ≡ takes t ts)))
Resumed-cases leaves = inl refl
Resumed-cases faults = inr (inl refl)
Resumed-cases (takes t ts) = inr (inr (t, ts, refl))

-- Either all workers have returned or one has not.
someone_left :
    (ws : List Worker)
    → AllExited ws ⊎ ((i : ℕ) × (w : Worker) × (get_elem? ws i ≡ some w) × (w ≢ exited))
someone_left [] = inl tt
someone_left (w ∷ ws) = elim (someone_left ws) [
  | inr (i, v, h, ne) ↦ inr (suc i, v, h, ne)
  | inl all ↦ head_left w ws all
]

abbrev pub CanStep : TaskQueue → Type 0
CanStep s = (u : TaskQueue) × Step s u

-- A worker behind the wait goes on.
satisfied-CanStep : (s : TaskQueue) (i : ℕ) → IsWorker s i satisfied → CanStep s
satisfied-CanStep s i at_i = elim (Resumed-cases (resume s)) [
  | inl e ↦ (put i exited (record s { locker = none }), leave i at_i e)
  | inr (inl e) ↦ (put i faulted s, fault i at_i e)
  | inr (inr (t, ts, e)) ↦ (
    put i (running t) (record s { locker = none; tasks = ts; started = s.started ++ t ∷ [] }),
    take i at_i e,
  )
]

-- Whoever holds the mutex can go on.
holder-CanStep : (s : TaskQueue) (i : ℕ) (w : Worker) → IsWorker s i w → holds w ≡ true → CanStep s
holder-CanStep s i testing at_i h = elim (Bool-cases (has_work s)) [
  | inl e ↦ (put i satisfied s, test_true i at_i e)
  | inr e ↦ (put i unsatisfied s, test_false i at_i e)
]
holder-CanStep s i unsatisfied at_i h = (put i blocked (record s { locker = none }), block i at_i)
holder-CanStep s i satisfied at_i h = satisfied-CanStep s i at_i
holder-CanStep s i acquiring at_i h = cc
holder-CanStep s i blocked at_i h = cc
holder-CanStep s i exited at_i h = cc
holder-CanStep s i faulted at_i h = cc
holder-CanStep s i (running t) at_i h = cc

worker-CanStep :
    {s : TaskQueue}
    → IsQueue s
    → (i : ℕ) (w : Worker) → IsWorker s i w
    → w ≢ exited
    → w ≢ blocked
    → CanStep s
worker-CanStep {s} q i acquiring at_i ne nb = elim (Option-cases s.locker) [
  | inl free ↦ (put i testing (record s { locker = some i }), acquire i at_i free)
  | inr (k, e) ↦ let (w, at_k, h) = q.held k e in holder-CanStep s k w at_k h
]
worker-CanStep {s} q i testing at_i ne nb = holder-CanStep s i testing at_i refl
worker-CanStep {s} q i unsatisfied at_i ne nb = holder-CanStep s i unsatisfied at_i refl
worker-CanStep {s} q i satisfied at_i ne nb = holder-CanStep s i satisfied at_i refl
worker-CanStep {s} q i blocked at_i ne nb = absurd (nb refl)
worker-CanStep {s} q i exited at_i ne nb = absurd (ne refl)
worker-CanStep {s} q i faulted at_i ne nb = absurd (q.fits i faulted at_i)
worker-CanStep {s} q i (running t) at_i ne nb = (put i acquiring s, finish_task i t at_i)

-- The next step of a stop that is requested.
pub client-CanStep :
    {s : TaskQueue} (c : Client)
    → IsQueue s
    → IsPrompt s
    → s.client ≡ c
    → is_asked c ≡ true
    → CanStep s
client-CanStep idle q p e a = cc
client-CanStep (stopping c) q p e a = cc
client-CanStep {s} (requested c) q p e a =
    (record s { client = cleared c; is_running = false }, clear e)
client-CanStep {s} (cleared c) q p e a =
    (record s { client = joining c; workers = map wake s.workers }, notify_all e)
client-CanStep {s} (joining c) q p e a = elim (someone_left s.workers) [
  | inl all ↦ (finish c s, join e all)
  | inr (i, w, at_i, ne) ↦ worker-CanStep q i w at_i ne (λ f. p.woken c e i (at_i ∙ ap some f))
]
