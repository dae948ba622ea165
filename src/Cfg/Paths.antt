-- ===== src/Cfg/Paths.antt =====
-- Paths through blocks that are not marked.
use zettelkasten_public_subs.Common.{◌≡◌, true, false}
use zettelkasten_public_subs.Cfg.{Block, Visited, has, Cfg}

pub data Walkway (g : Cfg) (v : Visited) : Block → Block → Type 0 where
  here : (b : Block) → v b ≡ false → Walkway g v b b
  step :
      (b c : Block) {d : Block}
      → v b ≡ false
      → has c (g.succs b) ≡ true
      → Walkway g v c d
      → Walkway g v b d

pub Walkway-weaken :
    {g : Cfg} {v w : Visited} {b d : Block}
    → ((x : Block) → w x ≡ false → v x ≡ false)
    → Walkway g w b d
    → Walkway g v b d
Walkway-weaken k (here b h) = here b (k b h)
Walkway-weaken k (step b c h e p) = step b c (k b h) e (Walkway-weaken k p)

pub Walkway-end : {g : Cfg} {v : Visited} {b d : Block} → Walkway g v b d → v d ≡ false
Walkway-end (here b h) = h
Walkway-end (step b c h e p) = Walkway-end p

pub Walkway-start : {g : Cfg} {v : Visited} {b d : Block} → Walkway g v b d → v b ≡ false
Walkway-start (here b h) = h
Walkway-start (step b c h e p) = h
