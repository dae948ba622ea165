-- ===== src/Json/Kept.antt =====
-- The characters of the data in what the formatter writes.
use mathlib.Core.List.{append-nil, append_assoc}
use zettelkasten_public_subs.Common.{
  ℕ, zero, suc, ◌+◌, ◌%◌, ◌≡◌, refl, ap, ◌∙◌, sym, Bool, not, ◌&&◌, ◌||◌, List, [], ◌∷◌, ◌++◌, ◌==◌,
  if◌then◌else◌, if_elim, Bool-cases, inl, inr, arith,
}
use zettelkasten_public_subs.Json.{
  Colour, Piece, source, colour, newline, tab, space, Formatter, new_formatter, append, append_tab,
  append_tabs, dedent, indent, close_block, close_array, open_block, open_array, append_brace,
  append_comma, append_bool, append_semicolon, quote_colour, append_quote, append_digit, step, run,
  format, end_of_color, grey, mint, purple, red, yellow,
}

-- The characters of the data among the pieces.
unfoldable pub kept : List Piece → List ℕ
kept [] = []
kept (source c ∷ ps) = c ∷ kept ps
kept (colour c ∷ ps) = kept ps
kept (newline ∷ ps) = kept ps
kept (tab ∷ ps) = kept ps
kept (space ∷ ps) = kept ps

kept-append : (ps qs : List Piece) → kept (ps ++ qs) ≡ kept ps ++ kept qs
unfolding kept
kept-append [] qs = refl
kept-append (source c ∷ ps) qs = ap (◌∷◌ c) (kept-append ps qs)
kept-append (colour c ∷ ps) qs = kept-append ps qs
kept-append (newline ∷ ps) qs = kept-append ps qs
kept-append (tab ∷ ps) qs = kept-append ps qs
kept-append (space ∷ ps) qs = kept-append ps qs

-- `g` keeps the characters of `f`, or those and `c`.
abbrev Silent : Formatter → Formatter → Type 0
Silent f g = kept g.json ≡ kept f.json

abbrev Adds : ℕ → Formatter → Formatter → Type 0
Adds c f g = kept g.json ≡ kept f.json ++ c ∷ []

added : (p : Piece) (f : Formatter) → kept (append p f).json ≡ kept f.json ++ kept (p ∷ [])
unfolding append
added p f = kept-append f.json (p ∷ [])

colour-Silent : (c : Colour) (f : Formatter) → Silent f (append (colour c) f)
unfolding kept
colour-Silent c f = added (colour c) f ∙ append-nil (kept f.json)

newline-Silent : (f : Formatter) → Silent f (append newline f)
unfolding kept
newline-Silent f = added newline f ∙ append-nil (kept f.json)

space-Silent : (f : Formatter) → Silent f (append space f)
unfolding kept
space-Silent f = added space f ∙ append-nil (kept f.json)

source-Adds : (c : ℕ) (f : Formatter) → Adds c f (append (source c) f)
unfolding kept
source-Adds c f = added (source c) f

append_tab-Silent : (i : ℕ) (f : Formatter) → Silent f (append_tab i f)
unfolding append_tab kept
append_tab-Silent zero f = refl
append_tab-Silent (suc i) f =
    append_tab-Silent i (append tab f) ∙ added tab f ∙ append-nil (kept f.json)

append_tabs-Silent : (f : Formatter) → Silent f (append_tabs f)
unfolding append_tabs
append_tabs-Silent f = append_tab-Silent f.tabs f

dedent-Silent : (f : Formatter) → Silent f (dedent f)
unfolding dedent
dedent-Silent f = append_tabs-Silent _ ∙ newline-Silent (record f { tabs = (f.tabs + 255) % 256 })

indent-Silent : (f : Formatter) → Silent f (indent f)
unfolding indent
indent-Silent f = append_tabs-Silent _ ∙ newline-Silent (record f { tabs = (f.tabs + 1) % 256 })

either-Silent :
    (b : Bool) (f g h : Formatter) → Silent f g → Silent f h → Silent f (if b then g else h)
either-Silent b f g h s t = if_elim (Silent f) b s t

either-Adds :
    (b : Bool) (c : ℕ) (f g h : Formatter) → Adds c f g → Adds c f h → Adds c f (if b then g else h)
either-Adds b c f g h s t = if_elim (Adds c f) b s t

close-Silent : (c : ℕ) (f : Formatter) → Silent f (close_array c (close_block c f))
unfolding close_array close_block
close-Silent c f =
    either-Silent (c == 93) (close_block c f) _ _ (dedent-Silent (close_block c f)) refl
    ∙ either-Silent (c == 125) f _ _ (dedent-Silent f) refl

open-Silent : (c : ℕ) (f : Formatter) → Silent f (open_array c (open_block c f))
unfolding open_array open_block
open-Silent c f =
    either-Silent (c == 91) (open_block c f) _ _ (indent-Silent (open_block c f)) refl
    ∙ either-Silent (c == 123) f _ _ (indent-Silent f) refl

-- Silent steps around one that adds.
around :
    (c : ℕ) (f g h : Formatter) (k : List Piece)
    → Silent f g
    → Adds c g h
    → kept k ≡ kept h.json
    → kept k ≡ kept f.json ++ c ∷ []
around c f g h k s a t = t ∙ a ∙ ap (λ cs. cs ++ c ∷ []) s

append_brace-Adds : (c : ℕ) (color : Colour) (f : Formatter) → Adds c f (append_brace c color f)
unfolding append_brace
append_brace-Adds c color f =
    let g = close_array c (close_block c f) in
    let h = append (colour color) g in
    either-Adds f.quoted c f _ _ (source-Adds c f) (
      around c f h (append (source c) h) _ (colour-Silent color g ∙ close-Silent c f)
        (source-Adds c h)
        (open-Silent c (append (colour end_of_color) (append (source c) h))
          ∙ colour-Silent end_of_color (append (source c) h)))

append_comma-Adds : (f : Formatter) → Adds 44 f (append_comma f)
unfolding append_comma
append_comma-Adds f =
    let g = if f.quoted then f else append (colour end_of_color) f in
    let h = append (source 44) g in
    around 44 f g h _ (either-Silent f.quoted f _ _ refl (colour-Silent end_of_color f))
      (source-Adds 44 g)
      (either-Silent f.quoted h _ _ refl (append_tabs-Silent (append newline h) ∙ newline-Silent h))

append_semicolon-Adds : (f : Formatter) → Adds 58 f (append_semicolon f)
unfolding append_semicolon append_bool
append_semicolon-Adds f =
    let g = append (source 58) f in
    let h = if f.quoted then g else append space g in
    around 58 f f g _ refl (source-Adds 58 f) (
      either-Silent h.quoted h _ _ refl (colour-Silent yellow h)
      ∙ either-Silent f.quoted g _ _ refl (space-Silent g))

append_quote-Adds : (color : Colour) (f : Formatter) → Adds 34 f (append_quote color f)
unfolding append_quote quote_colour
append_quote-Adds color f =
    let g = quote_colour color f in
    let h = append (source 34) g in
    around 34 f g h _
      (either-Silent ((f.semicolon && not f.comma && not f.block) || (not f.semicolon && f.array)) f
        _ _ (colour-Silent red f) (either-Silent f.quoted f _ _ refl (colour-Silent color f)))
      (source-Adds 34 g) (either-Silent f.quoted h _ _ (colour-Silent end_of_color h) refl)

append_digit-Adds : (c : ℕ) (color : Colour) (f : Formatter) → Adds c f (append_digit c color f)
unfolding append_digit
append_digit-Adds c color f = either-Adds f.quoted c f _ _ (source-Adds c f) (
    around c f (append (colour color) f) (append (source c) (append (colour color) f)) _
      (colour-Silent color f) (source-Adds c (append (colour color) f)) refl)

-- A step for the one character `k`.
step_at :
    (c k : ℕ) (f g h : Formatter) → Adds k f g → Adds c f h → Adds c f (if c == k then g else h)
step_at c k f g h s t = elim (Bool-cases (c == k)) [
  | inl same ↦ let e : c ≡ k = ground arith in rw same (s ∙ ap (λ i. kept f.json ++ i ∷ []) (sym e))
  | inr other ↦ rw other t
]

step-Adds : (c : ℕ) (f : Formatter) → Adds c f (step c f)
unfolding step
step-Adds c f = either-Adds _ c f _ _ (append_brace-Adds c grey f) (
    step_at c 44 f _ _ (append_comma-Adds f) (
      step_at c 58 f _ _ (append_semicolon-Adds f) (
        step_at c 34 f _ _ (append_quote-Adds purple f)
          (either-Adds _ c f _ _ (append_digit-Adds c mint f) (source-Adds c f)))))

run-kept : (cs : List ℕ) (f : Formatter) → kept (run cs f).json ≡ kept f.json ++ cs
unfolding run
run-kept [] f = sym (append-nil (kept f.json))
run-kept (c ∷ cs) f =
    run-kept cs (step c f)
    ∙ ap (λ k. k ++ cs) (step-Adds c f)
    ∙ append_assoc (kept f.json) (c ∷ []) cs

-- The formatter writes every character of the data, in order and none twice: without the colours,
-- new lines, tabs and spaces that it added, the text is the data.
pub format-kept : (cs : List ℕ) → kept (format cs) ≡ cs
unfolding format new_formatter kept
format-kept cs = run-kept cs new_formatter
