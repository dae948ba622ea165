-- ===== src/TaskQueue/Workers.antt =====
-- The list of the workers under the writes of the steps.
use zettelkasten_public_subs.Common.{
  ℕ, zero, suc, ◌<◌, ◌≡◌, refl, some, List, [], ◌∷◌, ◌++◌, map, ◌≢◌, ◌⊎◌, inl, inr, arith,
  get_elem?, set, replicate, length, get_elem?-set_self,
}
use zettelkasten_public_subs.TaskQueue.{
  Worker, acquiring, testing, unsatisfied, blocked, satisfied, exited, faulted, running, wake,
  AllExited,
}

pub get_elem?-lt : (ws : List Worker) (i : ℕ) {w : Worker} → get_elem? ws i ≡ some w → i < length ws
get_elem?-lt [] i h = cc
get_elem?-lt (x ∷ ws) zero h = omega arith
get_elem?-lt (x ∷ ws) (suc i) h = omega (arith, get_elem?-lt ws i h)

-- The written worker, and the others as they were.
pub set_self :
    (ws : List Worker) (i : ℕ) {v w : Worker}
    → get_elem? ws i ≡ some v
    → get_elem? (set ws i w) i ≡ some w
set_self ws i {w} h = get_elem?-set_self ws i w (get_elem?-lt ws i h)

pub set-cases :
    (ws : List Worker) (i : ℕ) (w : Worker) (j : ℕ) (v : Worker)
    → get_elem? (set ws i w) j ≡ some v
    → ((j ≡ i) × (v ≡ w)) ⊎ ((i ≢ j) × (get_elem? ws j ≡ some v))
set-cases [] i w j v h = cc
set-cases (x ∷ ws) zero w zero v h = inl (refl, cc)
set-cases (x ∷ ws) zero w (suc j) v h = inr (omega arith, h)
set-cases (x ∷ ws) (suc i) w zero v h = inr (omega arith, h)
set-cases (x ∷ ws) (suc i) w (suc j) v h = elim (set-cases ws i w j v h) [
  | inl (e, f) ↦ inl (omega arith, f)
  | inr (n, f) ↦ inr (omega arith, f)
]

pub replicate-cases :
    (ws : List Worker) (n j : ℕ) (v : Worker)
    → get_elem? (ws ++ replicate n acquiring) j ≡ some v
    → (v ≡ acquiring) ⊎ (get_elem? ws j ≡ some v)
replicate-cases [] zero j v h = cc
replicate-cases [] (suc n) zero v h = inl (cc)
replicate-cases [] (suc n) (suc j) v h =
    inl (elim (replicate-cases [] n j v h) [ inl e ↦ e | inr e ↦ cc ])
replicate-cases (x ∷ ws) n zero v h = inr h
replicate-cases (x ∷ ws) n (suc j) v h = replicate-cases ws n j v h

pub append-kept :
    (ws vs : List Worker) (i : ℕ) {w : Worker}
    → get_elem? ws i ≡ some w
    → get_elem? (ws ++ vs) i ≡ some w
append-kept [] vs i h = cc
append-kept (x ∷ ws) vs zero h = h
append-kept (x ∷ ws) vs (suc i) h = append-kept ws vs i h

pub wake-get_elem? :
    (ws : List Worker) (i : ℕ) {w : Worker}
    → get_elem? ws i ≡ some w
    → get_elem? (map wake ws) i ≡ some (wake w)
wake-get_elem? [] i h = cc
wake-get_elem? (x ∷ ws) zero h = cc
wake-get_elem? (x ∷ ws) (suc i) h = wake-get_elem? ws i h

pub wake-cases :
    (ws : List Worker) (i : ℕ) {v : Worker}
    → get_elem? (map wake ws) i ≡ some v
    → (v ≡ acquiring) ⊎ (get_elem? ws i ≡ some v)
unfolding wake
wake-cases [] i h = cc
wake-cases (blocked ∷ ws) zero h = inl (cc)
wake-cases (acquiring ∷ ws) zero h = inr h
wake-cases (testing ∷ ws) zero h = inr h
wake-cases (unsatisfied ∷ ws) zero h = inr h
wake-cases (satisfied ∷ ws) zero h = inr h
wake-cases (exited ∷ ws) zero h = inr h
wake-cases (faulted ∷ ws) zero h = inr h
wake-cases (running t ∷ ws) zero h = inr h
wake-cases (x ∷ ws) (suc i) h = wake-cases ws i h

pub AllExited-get_elem? :
    (ws : List Worker) (i : ℕ) {w : Worker} → AllExited ws → get_elem? ws i ≡ some w → w ≡ exited
AllExited-get_elem? [] i h e = cc
AllExited-get_elem? (x ∷ ws) zero h e = cc
AllExited-get_elem? (x ∷ ws) (suc i) h e = AllExited-get_elem? ws i h.1 e
