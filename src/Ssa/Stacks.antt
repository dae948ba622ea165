-- ===== src/Ssa/Stacks.antt =====
-- What the loops do to the stack and the counter.
use zettelkasten_public_subs.Common.{
  ℕ, ◌+◌, ◌<◌, ◌≡◌, refl, sym, ap, ◌∙◌, Bool, true, false, Option, none, some, List, [], ◌∷◌, ◌++◌,
  if◌then◌else◌, arith, length, length-append,
}
use zettelkasten_public_subs.Ssa.{
  Symbol, Block, Stmt, phi, assign, branch, Program, Builder, Outcome, ok, set_ssa_index, define,
  use_back, is_var, rename_uses, define_var, rename_stmt, rename_stmts, rename_arg, rename_args,
  rename_succs, ◌>>=◌,
}
use mathlib.Core.List.{append_assoc}

-- A run that ends well: it has pushed `n` values and counted `k` definitions.
pub record Pushes (r : Outcome) (s : Builder) (n k : ℕ) : Type 0 where
  pub last : Builder
  pub extra : List ℕ
  pub ends : r ≡ ok last
  pub above : last.stack ≡ extra ++ s.stack
  pub many : length extra ≡ n
  pub counted : last.counter ≡ s.counter + k

abbrev pub HasBack : Builder → Type 0
HasBack s = 0 < length s.stack

pub Pushes-HasBack :
    {r : Outcome} {s : Builder} {n k : ℕ} (h : Pushes r s n k) → HasBack s → HasBack h.last
Pushes-HasBack {s} h b =
    omega (arith, b, ap (length {0}) h.above, length-append {A = ℕ} h.extra s.stack)

-- One run and then another.
pub Pushes-bind :
    {r : Outcome} {s : Builder} {n k n' k' : ℕ} (f : Builder → Outcome)
    → Pushes r s n k
    → ((t : Builder) → HasBack t → Pushes (f t) t n' k')
    → HasBack s
    → Pushes (r >>= f) s (n + n') (k + k')
Pushes-bind {s} f h g b =
    let next = g h.last (Pushes-HasBack h b) in
    record {
      last = next.last;
      extra = next.extra ++ h.extra;
      ends = ap (λ q. q >>= f) h.ends ∙ next.ends;
      above =
          next.above
          ∙ ap (λ l. next.extra ++ l) h.above
          ∙ sym (append_assoc next.extra h.extra s.stack);
      many = omega (arith, next.many, h.many, length-append {A = ℕ} next.extra h.extra);
      counted = omega (arith, next.counted, h.counted);
    }

pub Pushes-none : (s : Builder) → Pushes (ok s) s 0 0
Pushes-none s = record {
  last = s;
  extra = [];
  ends = refl;
  above = refl;
  many = refl;
  counted = omega arith;
}

pub Pushes-same :
    {r : Outcome} {s : Builder} {n k : ℕ} (n' k' : ℕ)
    → Pushes r s n k
    → n ≡ n'
    → k ≡ k'
    → Pushes r s n' k'
Pushes-same {s} n' k' h e e' = record {
  last = h.last;
  extra = h.extra;
  ends = h.ends;
  above = h.above;
  many = h.many ∙ e;
  counted = h.counted ∙ ap (λ (m : ℕ). s.counter + m) e';
}

use_back-Pushes : (x : Symbol) (s : Builder) → HasBack s → Pushes (use_back x s) s 0 0
unfolding use_back set_ssa_index
use_back-Pushes x s b = used s.stack refl
  where
    used : (ns : List ℕ) → s.stack ≡ ns → Pushes (use_back x s) s 0 0
    used [] e = absurd (omega (arith, b, ap (length {0}) e))
    used (n ∷ ns) e = record {
      last = set_ssa_index x n s;
      extra = [];
      ends = ground (arith, e);
      above = refl;
      many = refl;
      counted = omega arith;
    }

abbrev pub one_if : Bool → ℕ
one_if true = 1
one_if false = 0

module _ (p : Program) (var : ℕ) where
  use_var-Pushes :
      (b : Bool) (x : Symbol) (s : Builder)
      → HasBack s
      → Pushes (if b then use_back x s else ok s) s 0 0
  use_var-Pushes true x s h = use_back-Pushes x s h
  use_var-Pushes false x s h = Pushes-none s

  define_any :
      (b : Bool) (x : Symbol) (s : Builder)
      → Pushes (ok (if b then define x s else s)) s (one_if b) (one_if b)
  unfolding define set_ssa_index
  define_any true x s = record {
    last = define x s;
    extra = s.counter ∷ [];
    ends = refl;
    above = refl;
    many = omega arith;
    counted = omega arith;
  }
  define_any false x s = Pushes-none s

  define_var-Pushes :
      (x : Symbol) (s : Builder)
      → Pushes (ok (define_var p var x s)) s (one_if (is_var p var x)) (one_if (is_var p var x))
  unfolding define_var
  define_var-Pushes x s = define_any (is_var p var x) x s

  rename_uses-Pushes :
      (xs : List Symbol) (s : Builder) → HasBack s → Pushes (rename_uses p var xs s) s 0 0
  unfolding rename_uses
  rename_uses-Pushes [] s b = Pushes-none s
  rename_uses-Pushes (x ∷ xs) s b =
      Pushes-same 0 0
        (Pushes-bind (rename_uses p var xs) (use_var-Pushes (is_var p var x) x s b)
          (rename_uses-Pushes xs) b)
        (omega arith) (omega arith)

  -- How many definitions of the variable are phi nodes, and how many assignments.
  unfoldable pub phis : List Stmt → ℕ
  phis [] = 0
  phis (phi x args ∷ cs) = one_if (is_var p var x) + phis cs
  phis (c ∷ cs) = phis cs

  unfoldable pub assigns : List Stmt → ℕ
  assigns [] = 0
  assigns (assign x uses ∷ cs) = one_if (is_var p var x) + assigns cs
  assigns (c ∷ cs) = assigns cs

  pub rename_stmts-Pushes :
      (cs : List Stmt) (s : Builder)
      → HasBack s
      → Pushes (rename_stmts p var cs s) s (phis cs + assigns cs) (phis cs + assigns cs)
  unfolding rename_stmts rename_stmt phis assigns
  rename_stmts-Pushes [] s b = Pushes-same _ _ (Pushes-none s) (omega arith) (omega arith)
  rename_stmts-Pushes (phi x args ∷ cs) s b =
      Pushes-same _ _
        (Pushes-bind (rename_stmts p var cs) (define_var-Pushes x s) (rename_stmts-Pushes cs) b)
        (omega arith) (omega arith)
  rename_stmts-Pushes (assign x uses ∷ cs) s b =
      Pushes-same _ _
        (Pushes-bind (rename_stmts p var cs)
          (Pushes-bind (λ s'. ok (define_var p var x s')) (rename_uses-Pushes uses s b)
            (λ t h. define_var-Pushes x t) b)
          (rename_stmts-Pushes cs) b)
        (omega arith) (omega arith)
  rename_stmts-Pushes (branch uses ∷ cs) s b =
      Pushes-same _ _
        (Pushes-bind (rename_stmts p var cs) (rename_uses-Pushes uses s b) (rename_stmts-Pushes cs)
          b)
        (omega arith) (omega arith)

  rename_arg-Pushes :
      (b : Block) (c : Stmt) (s : Builder) → HasBack s → Pushes (rename_arg p var b c s) s 0 0
  unfolding rename_arg
  rename_arg-Pushes b (phi x args) s h = arg (args b)
    where
      arg :
          (o : Option Symbol)
          → Pushes
              (elim o [ none ↦ ok s | some y ↦ if is_var p var y then use_back y s else ok s ])
              s
              0
              0
      arg none = Pushes-none s
      arg (some y) = use_var-Pushes (is_var p var y) y s h
  rename_arg-Pushes b (assign x uses) s h = Pushes-none s
  rename_arg-Pushes b (branch uses) s h = Pushes-none s

  rename_args-Pushes :
      (b : Block) (cs : List Stmt) (s : Builder)
      → HasBack s
      → Pushes (rename_args p var b cs s) s 0 0
  unfolding rename_args
  rename_args-Pushes b [] s h = Pushes-none s
  rename_args-Pushes b (c ∷ cs) s h =
      Pushes-same 0 0
        (Pushes-bind (rename_args p var b cs) (rename_arg-Pushes b c s h) (rename_args-Pushes b cs)
          h)
        (omega arith) (omega arith)

  pub rename_succs-Pushes :
      (b : Block) (cs : List Block) (s : Builder)
      → HasBack s
      → Pushes (rename_succs p var b cs s) s 0 0
  unfolding rename_succs
  rename_succs-Pushes b [] s h = Pushes-none s
  rename_succs-Pushes b (c ∷ cs) s h =
      Pushes-same 0 0
        (Pushes-bind (rename_succs p var b cs) (rename_args-Pushes b (p.statements c) s h)
          (rename_succs-Pushes b cs) h)
        (omega arith) (omega arith)
