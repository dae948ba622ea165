-- ===== src/Cfg/Walks.antt =====
-- A walk with enough fuel marks exactly the blocks that a path through unmarked blocks leads to.
use zettelkasten_public_subs.Common.{
  ℕ, zero, suc, ◌≤◌, ◌≡◌, sym, ◌∙◌, subst, ◌↔◌, inl, inr, true, false, List, [], ◌∷◌, arith,
  Bool-cases,
}
use zettelkasten_public_subs.Cfg.{Block, Visited, has, Cfg, mark, visit, walk}
use zettelkasten_public_subs.Cfg.Paths.{Walkway, here, step, Walkway-weaken}
use zettelkasten_public_subs.Cfg.Marks.{
  unmarked, unmarked_mono, unmarked-mark, mark_self, mark_grows, mark_new, has_self, has_tail,
  has_cases,
}

-- Links lead to blocks of the graph.
abbrev pub IsGraph : Cfg → Type 0
IsGraph g =
    (b c : Block)
    → has b g.basic_blocks ≡ true
    → has c (g.succs b) ≡ true
    → has c g.basic_blocks ≡ true

pub false_of_true :
    (v w : Visited) (x : Block) → (v x ≡ true → w x ≡ true) → w x ≡ false → v x ≡ false
false_of_true v w x k h = ground (arith, k)

module _ (g : Cfg) {S : Type 0} (seen : S → Visited) where
  -- What the walk from a block does to the state.
  pub record Walks (b : Block) (s t : S) : Type 0 where
    pub grows : (x : Block) → seen s x ≡ true → seen t x ≡ true
    pub root : seen t b ≡ true
    pub closed :
        (x y : Block)
        → seen t x ≡ true
        → seen s x ≡ false
        → has y (g.succs x) ≡ true
        → seen t y ≡ true
    pub sound : (x : Block) → seen t x ≡ true → seen s x ≡ false → Walkway g (seen s) b x

  -- What the loop over a list of blocks does.
  record Visits (xs : List Block) (s t : S) : Type 0 where
    grows : (x : Block) → seen s x ≡ true → seen t x ≡ true
    reached : (x : Block) → has x xs ≡ true → seen t x ≡ true
    closed :
        (x y : Block)
        → seen t x ≡ true
        → seen s x ≡ false
        → has y (g.succs x) ≡ true
        → seen t y ≡ true
    sound :
        (x : Block)
        → seen t x ≡ true
        → seen s x ≡ false
        → (r : Block) × (has r xs ≡ true) × Walkway g (seen s) r x

  -- A walk and then the loop over the others.
  Walks-Visits :
      (b : Block) (xs : List Block) (s s' t : S)
      → Walks b s s'
      → Visits xs s' t
      → Visits (b ∷ xs) s t
  Walks-Visits b xs s s' t w v = record {
    grows = λ x h. v.grows x (w.grows x h);
    reached = λ x h. elim (has_cases x b xs h) [
      | inl e ↦ subst (λ (y : Block). seen t y ≡ true) (sym e) (v.grows b w.root)
      | inr e ↦ v.reached x e
    ];
    closed = λ x y h n e. elim (Bool-cases (seen s' x)) [
      | inl m ↦ v.grows y (w.closed x y m n e)
      | inr m ↦ v.closed x y h m e
    ];
    sound = λ x h n. elim (Bool-cases (seen s' x)) [
      | inl m ↦ (b, has_self b xs, w.sound x m n)
      | inr m ↦
          let (r, i, p) = v.sound x h m in
          (
            r,
            has_tail r b xs i,
            Walkway-weaken (λ y. false_of_true (seen s) (seen s') y (w.grows y)) p,
          )
    ];
  }

  skip-Visits :
      (b : Block) (xs : List Block) (s t : S)
      → seen s b ≡ true
      → Visits xs s t
      → Visits (b ∷ xs) s t
  skip-Visits b xs s t m v = record {
    grows = v.grows;
    reached = λ x h. elim (has_cases x b xs h) [
      | inl e ↦ subst (λ (y : Block). seen t y ≡ true) (sym e) (v.grows b m)
      | inr e ↦ v.reached x e
    ];
    closed = v.closed;
    sound = λ x h n. let (r, i, p) = v.sound x h n in (r, has_tail r b xs i, p);
  }

  abbrev Goes : (Block → S → S) → ℕ → Type 0
  Goes go f =
      (b : Block) (s : S)
      → seen s b ≡ false
      → has b g.basic_blocks ≡ true
      → unmarked (seen s) g.basic_blocks ≤ f
      → Walks b s (go b s)

  pub skipped :
      (go : Block → S → S) (x : Block) (s : S)
      → seen s x ≡ true
      → ◌≡◌ {A = S} (elim (seen s x) [ true ↦ s | false ↦ go x s ]) s
  skipped go x s m = ground (arith, m)

  pub gone :
      (go : Block → S → S) (x : Block) (s : S)
      → seen s x ≡ false
      → ◌≡◌ {A = S} (elim (seen s x) [ true ↦ s | false ↦ go x s ]) (go x s)
  gone go x s m = ground (arith, m)

  visit-Visits :
      (go : Block → S → S) (f : ℕ)
      → Goes go f
      → (xs : List Block) (s : S) → ((x : Block) → has x xs ≡ true → has x g.basic_blocks ≡ true)
      → unmarked (seen s) g.basic_blocks ≤ f
      → Visits xs s (visit seen go xs s)
  unfolding visit has
  visit-Visits go f goes [] s inside small = record {
    grows = λ x h. h;
    reached = λ x h. cc;
    closed = λ x y h n e. cc;
    sound = λ x h n. cc;
  }
  visit-Visits go f goes (x ∷ xs) s inside small = elim (Bool-cases (seen s x)) [
    | inl m ↦
        subst (λ (s' : S). Visits (x ∷ xs) s (visit seen go xs s')) (sym (skipped go x s m))
          (skip-Visits x xs s (visit seen go xs s) m
            (visit-Visits go f goes xs s (λ y h. inside y (has_tail y x xs h)) small))
    | inr m ↦
        let w = goes x s m (inside x (has_self x xs)) small in
        subst (λ (s' : S). Visits (x ∷ xs) s (visit seen go xs s')) (sym (gone go x s m))
          (Walks-Visits x xs s (go x s) (visit seen go xs (go x s)) w (
            visit-Visits go f goes xs (go x s) (λ y h. inside y (has_tail y x xs h))
              (omega
                (arith, small, unmarked_mono (seen s) (seen (go x s)) g.basic_blocks w.grows))))
  ]

  module _ (before behind : Block → S → S)
      (marks : (b : Block) (s : S) (x : Block) → seen (before b s) x ≡ mark b (seen s) x)
      (keeps : (b : Block) (s : S) (x : Block) → seen (behind b s) x ≡ seen s x) where
    -- The loop over the successors of a block that was marked.
    Visits-Walks :
        (b : Block) (s t : S)
        → seen s b ≡ false
        → Visits (g.succs b) (before b s) t
        → Walks b s (behind b t)
    Visits-Walks b s t n v = record {
      grows = λ x h. keeps b t x ∙ v.grows x (marks b s x ∙ mark_grows b (seen s) x h);
      root = keeps b t b ∙ v.grows b (marks b s b ∙ mark_self b (seen s));
      closed = λ x y h m e. elim (Bool-cases (seen (before b s) x)) [
        | inl i ↦
            keeps b t y
            ∙ v.reached y (
                subst (λ (z : Block). has y (g.succs z) ≡ true)
                  (mark_new b (seen s) x (sym (marks b s x) ∙ i) m) e)
        | inr i ↦ keeps b t y ∙ v.closed x y (sym (keeps b t x) ∙ h) i e
      ];
      sound = λ x h m. elim (Bool-cases (seen (before b s) x)) [
        | inl i ↦
            subst (λ (z : Block). Walkway g (seen s) b z)
              (sym (mark_new b (seen s) x (sym (marks b s x) ∙ i) m)) (here b n)
        | inr i ↦
            let (r, e, p) = v.sound x (sym (keeps b t x) ∙ h) i in
            step b r n e (
              Walkway-weaken
                (λ z k.
                  false_of_true (seen s) (seen (before b s)) z
                    (λ l. marks b s z ∙ mark_grows b (seen s) z l) k)
                p)
      ];
    }

    -- Fuel for each block that is not marked is enough.
    pub walk-Walks : IsGraph g → (f : ℕ) → Goes (walk seen before behind g f) f
    unfolding walk
    walk-Walks graph zero b s n inside small = absurd (
        omega (
          arith,
          unmarked-mark (seen s) (mark b (seen s)) b g.basic_blocks (mark_grows b (seen s)) n
              (mark_self b (seen s)) inside,
        ))
    walk-Walks graph (suc f) b s n inside small =
        Visits-Walks b s (visit seen (walk seen before behind g f) (g.succs b) (before b s)) n (
          visit-Visits (walk seen before behind g f) f (walk-Walks graph f) (g.succs b) (before b s)
            (λ x e. graph b x inside e)
            (omega (
              arith,
              small,
              unmarked-mark (seen s) (seen (before b s)) b g.basic_blocks
                  (λ x h. marks b s x ∙ mark_grows b (seen s) x h) n
                  (marks b s b ∙ mark_self b (seen s)) inside,
            )))

  -- What a path through unmarked blocks leads to is marked.
  reaches :
      {s t : S} {b x : Block}
      → Walkway g (seen s) b x
      → ((y z : Block)
          → seen t y ≡ true
          → seen s y ≡ false
          → has z (g.succs y) ≡ true
          → seen t z ≡ true)
      → seen t b ≡ true
      → seen t x ≡ true
  reaches (here b h) closed m = m
  reaches (step b c h e p) closed m = reaches p closed (closed b c m h e)

  pub Walks-reach :
      (b : Block) (s t : S) (x : Block)
      → Walks b s t
      → seen s x ≡ false
      → (seen t x ≡ true) ↔ Walkway g (seen s) b x
  Walks-reach b s t x w n = (λ m. w.sound x m n, λ p. reaches p w.closed w.root)
