-- ===== src/Cfg/DominanceFrontier.antt =====
-- The dominance frontier of a block by paths, and the two ways in which `ComputeBaseDominanceFrontier` of
-- 2022-03-17-SSA-form-implementation/main.cpp comes to a member of it.
use zettelkasten_public_subs.Common.{
  ◌≡◌, refl, sym, ap, ◌∙◌, subst, ◌≢◌, ◌⊎◌, inl, inr, true, false, some, ◌==◌, arith, Bool-cases,
  ==_iff,
}
use zettelkasten_public_subs.Cfg.{Block, has, Cfg, nothing, front, compute_dominators}
use zettelkasten_public_subs.Cfg.Paths.{Walkway}
use zettelkasten_public_subs.Cfg.Walks.{IsGraph}
use zettelkasten_public_subs.Cfg.PredOrder.{Walkway-snoc}
use zettelkasten_public_subs.Cfg.Dominators.{Dominates}
use zettelkasten_public_subs.Cfg.Dominance.{
  Dominates-asym, Dominates-trans, edge-Dominates, comparable, IsImmediate,
  compute_dominators-IsImmediate, Dominates-IsImmediate,
}
use zettelkasten_public_subs.Cfg.Frontier.{is_dominated_by}
use zettelkasten_public_subs.Cfg.Rows.{is_dominated_by_iff}

-- The block is `p` or dominates it.
abbrev pub Above : Cfg → Block → Block → Block → Type 0
Above g b x p = (x ≡ p) ⊎ Dominates g b x p

-- A link leads to `y` from a block that `x` is or dominates, and `x` does not dominate `y`.
pub record InFrontier (g : Cfg) (b x y : Block) : Type 0 where
  pub before : Block
  pub path : Walkway g nothing b before
  pub edge : has y (g.succs before) ≡ true
  pub above : Above g b x before
  pub not_above : ¬ Dominates g b x y

module _ (g : Cfg) (graph : IsGraph g) (b : Block) (first : front g.basic_blocks ≡ b)
    (inside : has b g.basic_blocks ≡ true) where
  other_field :
      (x y d : Block)
      → is_dominated_by (compute_dominators g) x y ≡ false
      → compute_dominators g y ≡ some d
      → x ≢ d
  other_field x y d k h e =
      absurd (cc (k, (is_dominated_by_iff (compute_dominators g) x y).1 (h ∙ ap some (sym e))))

  pub edge-InFrontier :
      (x y : Block)
      → Walkway g nothing b x
      → has y (g.succs x) ≡ true
      → is_dominated_by (compute_dominators g) x y ≡ false
      → InFrontier g b x y
  unfolding nothing
  edge-InFrontier x y path edge guard = record {
    before = x;
    path = path;
    edge = edge;
    above = inl refl;
    not_above = λ dom.
        let (d, h, f) =
          Dominates-IsImmediate g graph b first inside y x (Walkway-snoc y path refl edge) dom in
        let ne = other_field x y d guard h in
        elim (edge-Dominates g graph b first inside d x y edge f.dominates) [
          | inl e ↦ absurd (ne e)
          | inr back ↦
              absurd (Dominates-asym g graph b first inside d x path back (f.immediate x dom ne))
        ];
  }

  -- `d` and `z` dominate `p` or are it, and `x` is the field of `z` and dominates `d`: then `z` is `d` or
  -- dominates it.
  Above-both :
      (x z d p : Block)
      → Walkway g nothing b p
      → IsImmediate g graph b first inside z x
      → Walkway g nothing b d
      → Dominates g b x d
      → x ≢ d
      → Above g b z p
      → Above g b d p
      → Above g b z d
  Above-both x z d p path fz to_d xd ne az ad = elim (Bool-cases (z == d)) [
    | inl e ↦ inl ((==_iff z d).0 e)
    | inr e ↦
        let zd : z ≢ d = λ q. absurd (ground (arith, e, (==_iff z d).1 q)) in
        let not_between : ¬ Dominates g b d z = λ k.
          Dominates-asym g graph b first inside x d to_d xd (fz.immediate d k (λ q. ne (sym q))) in
        elim az [
          | inl q ↦ elim ad [
            | inl r ↦ absurd (zd (q ∙ sym r))
            | inr r ↦ absurd (not_between (subst (λ (w : Block). Dominates g b d w) (sym q) r))
          ]
          | inr q ↦ elim ad [
            | inl r ↦ inr (subst (λ (w : Block). Dominates g b z w) (sym r) q)
            | inr r ↦ elim (comparable g graph b first inside d z p path r q zd) [
              | inl s ↦ inr s
              | inr s ↦ absurd (not_between s)
            ]
          ]
        ]
  ]

  -- From a block that `x` is the field of.
  pub up-InFrontier :
      (x z y : Block)
      → is_dominated_by (compute_dominators g) x z ≡ true
      → InFrontier g b z y
      → is_dominated_by (compute_dominators g) x y ≡ false
      → InFrontier g b x y
  unfolding nothing
  up-InFrontier x z y child i guard =
      let fz =
        compute_dominators-IsImmediate g graph b first inside z x
          ((is_dominated_by_iff (compute_dominators g) x z).0 child) in
      let to_y = Walkway-snoc y i.path refl i.edge in
      record {
        before = i.before;
        path = i.path;
        edge = i.edge;
        above = elim i.above [
          | inl q ↦ inr (subst (λ (w : Block). Dominates g b x w) q fz.dominates)
          | inr q ↦ inr (Dominates-trans g graph b first inside x z i.before i.path fz.dominates q)
        ];
        not_above = λ dom.
            let (d, h, f) = Dominates-IsImmediate g graph b first inside y x to_y dom in
            let ne = other_field x y d guard h in
            let up_d : Above g b d i.before =
              elim (edge-Dominates g graph b first inside d i.before y i.edge f.dominates) [
                | inl e ↦ inl (sym e)
                | inr k ↦ inr k
              ] in
            elim (Above-both x z d i.before i.path fz f.reached (f.immediate x dom ne) ne i.above
              up_d) [
                | inl e ↦ i.not_above (subst (λ (w : Block). Dominates g b w y) (sym e) f.dominates)
                | inr k ↦
                    i.not_above (Dominates-trans g graph b first inside z d y to_y k f.dominates)
              ];
      }
