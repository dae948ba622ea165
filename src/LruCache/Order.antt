-- ===== src/LruCache/Order.antt =====
-- What an LRU cache keeps, said on the order of the pages alone, the last used one first.
use zettelkasten_public_subs.Common.{
  ℕ, zero, suc, ◌≡◌, refl, ap, ◌∙◌, Bool, true, false, List, [], ◌∷◌, ◌||◌, arith, ◌==◌,
  if◌then◌else◌, length, take, Bool-cases, inl, inr, sym, ◌≢◌,
}
use zettelkasten_public_subs.LruCache.{Page}

abbrev pub has_page : Page → List Page → Bool
has_page p [] = false
has_page p (q ∷ qs) = (p == q) || has_page p qs

abbrev pub remove : Page → List Page → List Page
remove p [] = []
remove p (q ∷ qs) = if p == q then qs else q ∷ remove p qs

abbrev pub drop_last : List Page → List Page
drop_last [] = []
drop_last (p ∷ []) = []
drop_last (p ∷ q ∷ qs) = p ∷ drop_last (q ∷ qs)

-- A reference to `p` in a cache of `size` pages.
abbrev pub touch : ℕ → Page → List Page → List Page
touch size p ps =
    if has_page p ps
    then p ∷ remove p ps
    else if length ps == size
    then p ∷ drop_last ps
    else p ∷ ps

-- The pages of a sequence of references after those of `done`, each page once, by its last use.
abbrev pub recent_after : List Page → List Page → List Page
recent_after used [] = used
recent_after used (p ∷ ps) = recent_after (p ∷ remove p used) ps

abbrev pub recent : List Page → List Page
recent = recent_after []

abbrev pub Distinct : List Page → Type 0
Distinct [] = Unit
Distinct (p ∷ ps) = (has_page p ps ≡ false) × Distinct ps

pub remove_absent : (p : Page) (ps : List Page) → has_page p ps ≡ false → remove p ps ≡ ps
remove_absent p [] h = refl
remove_absent p (q ∷ qs) h = ground (arith, remove_absent p qs)

pub has_page-remove :
    (p q : Page) (ps : List Page) → has_page q ps ≡ false → has_page q (remove p ps) ≡ false
has_page-remove p q [] h = refl
has_page-remove p q (r ∷ rs) h = ground (arith, has_page-remove p q rs)

pub has_page-remove_self :
    (p : Page) (ps : List Page) → Distinct ps → has_page p (remove p ps) ≡ false
has_page-remove_self p [] d = refl
has_page-remove_self p (q ∷ qs) d = ground (arith, has_page-remove_self p qs)

pub remove-Distinct : (p : Page) (ps : List Page) → Distinct ps → Distinct (remove p ps)
remove-Distinct p [] d = tt
remove-Distinct p (q ∷ qs) d = ground (arith, remove-Distinct p qs, has_page-remove p q qs)

-- A page that is not among the first `n` is not among fewer.
take-remove_absent :
    (n : ℕ) (p : Page) (ps : List Page)
    → has_page p (take (suc n) ps) ≡ false
    → take n (remove p ps) ≡ take n ps
take-remove_absent zero p ps h = refl
take-remove_absent (suc n) p [] h = refl
take-remove_absent (suc n) p (q ∷ qs) h = ground (arith, take-remove_absent n p qs)

take-remove_present :
    (n : ℕ) (p : Page) (ps : List Page)
    → has_page p (take (suc n) ps) ≡ true
    → remove p (take (suc n) ps) ≡ take n (remove p ps)
take-remove_present n p [] h = cc
take-remove_present zero p (q ∷ qs) h = ground arith
take-remove_present (suc n) p (q ∷ qs) h = ground (arith, take-remove_present n p qs)

drop_last-take :
    (n : ℕ) (ps : List Page)
    → length (take (suc n) ps) ≡ suc n
    → drop_last (take (suc n) ps) ≡ take n ps
drop_last-take zero [] e = refl
drop_last-take zero (p ∷ ps) e = refl
drop_last-take (suc n) [] e = refl
drop_last-take (suc n) (p ∷ []) e = absurd (omega arith)
drop_last-take (suc n) (p ∷ q ∷ qs) e = ap (◌∷◌ p) (drop_last-take n (q ∷ qs) (omega arith))

-- Where a prefix falls short of its size it is the whole list.
take_short :
    (n : ℕ) (ps : List Page) → length (take (suc n) ps) ≢ suc n → take (suc n) ps ≡ take n ps
take_short zero [] ne = refl
take_short zero (p ∷ ps) ne = absurd (ne refl)
take_short (suc n) [] ne = refl
take_short (suc n) (p ∷ ps) ne = ap (◌∷◌ p) (take_short n ps (λ e. ne (ap suc e)))

-- A cache of the `n + 1` most recent pages stays one.
pub touch-take :
    (n : ℕ) (p : Page) (ps : List Page)
    → touch (suc n) p (take (suc n) ps) ≡ take (suc n) (p ∷ remove p ps)
touch-take n p ps = elim (Bool-cases (has_page p (take (suc n) ps))) [
  | inl present ↦ rw present (ap (◌∷◌ p) (take-remove_present n p ps present))
  | inr absent ↦ rw absent (elim (Bool-cases (length (take (suc n) ps) == suc n)) [
    | inl full ↦
        rw full
          (ap (◌∷◌ p) (drop_last-take n ps (ground arith) ∙ sym (take-remove_absent n p ps absent)))
    | inr room ↦
        rw room
          (ap (◌∷◌ p) (take_short n ps (ground arith) ∙ sym (take-remove_absent n p ps absent)))
  ])
]
