-- ===== src/Postfix/Forms.antt =====
-- The infix and the postfix form of an expression, and a machine that reads the latter.
use zettelkasten_public_subs.Common.{
  ℕ, ◌≡◌, refl, true, false, List, [], ◌∷◌, if◌then◌else◌, arith, Option, none, some,
}
use zettelkasten_public_subs.Postfix.{is_digit}
use zettelkasten_public_subs.Postfix.Steps.{is_op}

-- The operators and digits behind the first digit.
abbrev pub Rest : Type 0
Rest = List (ℕ × ℕ)

unfoldable pub infix_text : Rest → List ℕ
infix_text [] = []
infix_text ((o, d) ∷ ps) = o ∷ d ∷ infix_text ps

unfoldable pub postfix_text : Rest → List ℕ
postfix_text [] = []
postfix_text ((o, d) ∷ ps) = d ∷ o ∷ postfix_text ps

abbrev pub AreSteps : Rest → Type 0
AreSteps [] = Unit
AreSteps ((o, d) ∷ ps) = (is_op o ≡ true) × (is_digit d ≡ true) × AreSteps ps

-- Expressions, and the machine that reads a postfix form with a stack.
pub data Expr : Type 0 where
  digit : ℕ → Expr
  binary : ℕ → Expr → Expr → Expr

unfoldable pub grouped_left : Expr → Rest → Expr
grouped_left e [] = e
grouped_left e ((o, d) ∷ ps) = grouped_left (binary o e (digit d)) ps

unfoldable pub apply : ℕ → List Expr → Option (List Expr)
apply o (r ∷ l ∷ es) = some (binary o l r ∷ es)
apply o _ = none

unfoldable pub rebuild : List ℕ → List Expr → Option (List Expr)
rebuild [] es = some es
rebuild (c ∷ cs) es =
    if is_digit c
    then rebuild cs (digit c ∷ es)
    else elim (apply c es) [ none ↦ none | some es' ↦ rebuild cs es' ]

pub op-no_digit : (c : ℕ) → is_op c ≡ true → is_digit c ≡ false
unfolding is_op is_digit
op-no_digit c h = ground arith

pub digit-no_op : (c : ℕ) → is_digit c ≡ true → is_op c ≡ false
unfolding is_op is_digit
digit-no_op c h = ground arith

rebuild-postfix :
    (e : Expr) (ps : Rest) (es : List Expr)
    → AreSteps ps
    → rebuild (postfix_text ps) (e ∷ es) ≡ some (grouped_left e ps ∷ es)
unfolding rebuild postfix_text grouped_left apply
rebuild-postfix e [] es all = refl
rebuild-postfix e ((o, d) ∷ ps) es (is_o, is_d, all) =
    rw is_d (rw (op-no_digit o is_o) (rebuild-postfix (binary o e (digit d)) ps es all))

pub rebuild_lem :
    (d : ℕ) (ps : Rest)
    → is_digit d ≡ true
    → AreSteps ps
    → rebuild (d ∷ postfix_text ps) [] ≡ some (grouped_left (digit d) ps ∷ [])
unfolding rebuild
rebuild_lem d ps is_d all = rw is_d (rebuild-postfix (digit d) ps [] all)
