-- ===== src/LinkedList/Move.antt =====
-- The move assignment.
use zettelkasten_public_subs.Common.{refl, []}
use zettelkasten_public_subs.LinkedList.{move_list, Handle, IsList, clear}
use zettelkasten_public_subs.LinkedList.Owned.{Disjoint-has_right}
use zettelkasten_public_subs.LinkedList.Chains.{Cells, Chain-frame, Disjoint}
use zettelkasten_public_subs.LinkedList.Nodes.{
  null, Memory, Cmd, ◌>>=◌, pure, Returns, Returns-bind,
}
use zettelkasten_public_subs.LinkedList.Clear.{Frees, clear_lem}

-- `operator=(list &&rhs)` where `rhs` is another object: the two objects after it.
unfoldable pub move_assign : Handle → Handle → Cmd (Handle × Handle)
move_assign l rhs = do l' ← clear l; pure (move_list rhs)

-- A move assignment from another list gives back the nodes of the target, moves the nodes of the
-- source to it without a write to them, and leaves the source empty.
pub move_assign_lem :
    (h : Memory) (l rhs : Handle) (xs ys : Cells)
    → IsList h l xs
    → IsList h rhs ys
    → Disjoint xs ys
    → Returns
        (λ (l', rhs') g. IsList g l' ys × IsList g rhs' [] × Frees xs h g)
        (move_assign l rhs h)
unfolding move_assign move_list
move_assign_lem h l rhs xs ys is is' apart =
    Returns-bind (λ l' g. IsList g l' [] × Frees xs h g) _ (clear l h) _ (clear_lem h l xs is)
      (λ l' g (cleared, f). (
        record {
          chain =
              Chain-frame h g null ys null
                (λ b member. f.same b (Disjoint-has_right xs ys b apart member)) is'.chain;
          object = is'.object;
        },
        record { chain = tt; object = refl },
        f,
      ))
