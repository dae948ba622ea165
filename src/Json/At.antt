-- ===== src/Json/At.antt =====
-- Depth and quotation of a formatter, and what the new lines do to them.
use zettelkasten_public_subs.Common.{
  ℕ, zero, suc, ◌+◌, ◌%◌, ◌≡◌, refl, Bool, false, not, ◌&&◌, ◌||◌, List, [], ◌∷◌, ◌==◌,
  if◌then◌else◌, Bool-cases, inl, inr, arith,
}
use zettelkasten_public_subs.Json.{
  newline, tab, Formatter, append, append_tab, append_tabs, dedent, indent, close_block,
  close_array, open_block, open_array,
}

-- An opening or a closing brace or bracket.
abbrev pub opens : ℕ → Bool
opens c = (c == 123) || (c == 91)

abbrev pub closes : ℕ → Bool
closes c = (c == 125) || (c == 93)

-- How many characters satisfy `test` where the flag `quoted` is not set, which every quote turns over,
-- also one behind a backslash. `q` is the flag before the text.
unfoldable pub outside : (ℕ → Bool) → Bool → List ℕ → ℕ
outside test q [] = 0
outside test q (c ∷ cs) =
    let rest = outside test (if c == 34 then not q else q) cs in
    if test c && not q then suc rest else rest

-- The depth after a character where the flag is not set.
abbrev pub move : ℕ → ℕ → ℕ
move c t = if opens c then (t + 1) % 256 else if closes c then (t + 255) % 256 else t

-- Depth and quotation of a formatter.
pub record At (t : ℕ) (q : Bool) (f : Formatter) : Type 0 where
  pub depth : f.tabs ≡ t
  pub quotation : f.quoted ≡ q

pub append_tab-At : (i : ℕ) (f : Formatter) → At f.tabs f.quoted (append_tab i f)
unfolding append_tab append
append_tab-At zero f = record { depth = refl; quotation = refl }
append_tab-At (suc i) f = append_tab-At i (append tab f)

dedent-At : (f : Formatter) → At ((f.tabs + 255) % 256) f.quoted (dedent f)
unfolding dedent append_tabs append
dedent-At f =
    append_tab-At ((f.tabs + 255) % 256) (append newline (record f { tabs = (f.tabs + 255) % 256 }))

indent-At : (f : Formatter) → At ((f.tabs + 1) % 256) f.quoted (indent f)
unfolding indent append_tabs append
indent-At f =
    append_tab-At ((f.tabs + 1) % 256) (append newline (record f { tabs = (f.tabs + 1) % 256 }))

pub close-At :
    (c : ℕ) (f : Formatter)
    → At
        (if closes c then (f.tabs + 255) % 256 else f.tabs)
        f.quoted
        (close_array c (close_block c f))
unfolding close_array close_block
close-At c f = elim (Bool-cases (c == 125)) [
  | inl block ↦
      let other : (c == 93) ≡ false = ground arith in
      let d = dedent-At f in rw (block, other) (record { depth = d.depth; quotation = d.quotation })
  | inr no_block ↦ elim (Bool-cases (c == 93)) [
    | inl array ↦
        let d = dedent-At f in
        rw (no_block, array) (record { depth = d.depth; quotation = d.quotation })
    | inr neither ↦ rw (no_block, neither) (record { depth = refl; quotation = refl })
  ]
]

pub open-At :
    (c : ℕ) (f : Formatter)
    → At (if opens c then (f.tabs + 1) % 256 else f.tabs) f.quoted (open_array c (open_block c f))
unfolding open_array open_block
open-At c f = elim (Bool-cases (c == 123)) [
  | inl block ↦
      let other : (c == 91) ≡ false = ground arith in
      let d = indent-At f in rw (block, other) (record { depth = d.depth; quotation = d.quotation })
  | inr no_block ↦ elim (Bool-cases (c == 91)) [
    | inl array ↦
        let d = indent-At f in
        rw (no_block, array) (record { depth = d.depth; quotation = d.quotation })
    | inr neither ↦ rw (no_block, neither) (record { depth = refl; quotation = refl })
  ]
]
