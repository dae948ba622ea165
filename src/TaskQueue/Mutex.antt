-- ===== src/TaskQueue/Mutex.antt =====
-- The mutex in the two members that push. `unlock` of a mutex that the thread does not hold is
-- undefined; a unique_lock unlocks again at the end of its scope if it owns the mutex. What other
-- threads do to the mutex in between is a parameter.
use zettelkasten_public_subs.Common.{
  ℕ, ◌≡◌, refl, Bool, true, false, Option, none, some, List, [], ◌∷◌, ◌++◌, ◌≢◌, arith, ◌==◌,
  if◌then◌else◌, ◌>>=◌, ap, inl, inr, Bool-cases, ==_iff,
}

-- `m_locker.unlock()` by the thread `me`.
unfoldable pub unlock : ℕ → Option ℕ → Option (Option ℕ)
unlock me none = none
unlock me (some holder) = if holder == me then some none else none

-- `~unique_lock`
unfoldable pub leave_scope : ℕ → Bool → Option ℕ → Option (Option ℕ)
leave_scope me owns mutex = if owns then unlock me mutex else some mutex

-- The answer, the deque and the mutex.
abbrev pub Outcome : Type 0
Outcome = Bool × List ℕ × Option ℕ

-- `push_void_task` of the task `t`. It unlocks the mutex itself, which the lock does not know of.
unfoldable pub push_void_task :
    ℕ → (Option ℕ → Option ℕ) → Bool → Option ℕ → List ℕ → ℕ → Option Outcome
push_void_task me others stop_requested mutex tasks t =
    if stop_requested then some (false, tasks, mutex) else do
      let stored = tasks ++ t ∷ []
      unlocked ← unlock me (some me)
      left ← leave_scope me true (others unlocked)
      some (true, stored, left)

-- `push_future_task`, which unlocks by the lock.
unfoldable pub push_future_task :
    ℕ → (Option ℕ → Option ℕ) → Bool → Option ℕ → List ℕ → ℕ → Option Outcome
push_future_task me others stop_requested mutex tasks t =
    if stop_requested then some (false, tasks, mutex) else do
      let stored = tasks ++ t ∷ []
      unlocked ← unlock me (some me)
      left ← leave_scope me false (others unlocked)
      some (true, stored, left)

unlock_own : (me : ℕ) → unlock me (some me) ≡ some none
unfolding unlock
unlock_own me = ground arith

unlock_other : (me : ℕ) (mutex : Option ℕ) → mutex ≢ some me → unlock me mutex ≡ none
unfolding unlock
unlock_other me none h = refl
unlock_other me (some holder) h = elim (Bool-cases (holder == me)) [
  | inl e ↦ absurd (h (ap some ((==_iff holder me).0 e)))
  | inr e ↦ rw e refl
]

-- The call of a thread, where no other thread hands the mutex to it. If a stop is requested, both
-- members refuse the task and change nothing. Otherwise `push_future_task` stores it at the end of
-- the deque and leaves the mutex as the others left it, and `push_void_task` ends in an unlock of
-- a mutex that the thread does not hold.
pub push_lem :
    (me : ℕ) (others : Option ℕ → Option ℕ) (stop_requested : Bool) (mutex : Option ℕ)
    (tasks : List ℕ) (t : ℕ)
    → others none ≢ some me
    → (push_future_task me others stop_requested mutex tasks t
        ≡ some (
            if stop_requested then (false, tasks, mutex) else (true, tasks ++ t ∷ [], others none)))
      × (push_void_task me others stop_requested mutex tasks t
          ≡ (if stop_requested then some (false, tasks, mutex) else none))
unfolding push_void_task push_future_task leave_scope
push_lem me others true mutex tasks t h = (refl, refl)
push_lem me others false mutex tasks t h =
    (rw (unlock_own me) refl, rw (unlock_own me) (rw (unlock_other me (others none) h) refl))
