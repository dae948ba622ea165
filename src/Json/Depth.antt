-- ===== src/Json/Depth.antt =====
-- The depth of the indentation.
use zettelkasten_public_subs.Common.{
  ℕ, suc, ◌+◌, ◌%◌, ◌≡◌, refl, ap, ◌∙◌, sym, subst, Bool, true, false, not, ◌&&◌, ◌||◌, List, [],
  ◌<◌, ◌*◌, ◌∷◌, leb, ◌==◌, if◌then◌else◌, if_elim, Bool-cases, inl, inr, arith,
}
use zettelkasten_public_subs.Json.{
  Colour, source, colour, newline, Formatter, new_formatter, append, append_tabs, close_block,
  close_array, append_brace, append_comma, append_bool, append_semicolon, quote_colour,
  append_quote, append_digit, step, run, end_of_color, grey, mint, purple,
}
use zettelkasten_public_subs.Json.Quoted.{step-Copies}
use zettelkasten_public_subs.Json.At.{
  opens, closes, outside, move, At, append_tab-At, close-At, open-At,
}

-- The formatter outside of strings.
abbrev beside : Formatter → Formatter
beside f = record f { quoted = false }

brace-At :
    (c : ℕ) (color : Colour) (f : Formatter)
    → At (move c f.tabs) false (append_brace c color (beside f))
unfolding append_brace append
brace-At c color f =
    let g = close_array c (close_block c (beside f)) in
    let r = close-At c (beside f) in
    let s =
      open-At c (append (colour end_of_color) (append (source c) (append (colour color) g))) in
    record { depth = s.depth ∙ ground (arith, r.depth); quotation = s.quotation ∙ r.quotation }

comma-At : (f : Formatter) → At f.tabs false (append_comma (beside f))
unfolding append_comma append_tabs append
comma-At f =
    let r =
      append_tab-At f.tabs
        (append newline (append (source 44) (append (colour end_of_color) (beside f)))) in
    record { depth = r.depth; quotation = r.quotation }

either-At :
    (b : Bool) (t : ℕ) (q : Bool) (f g : Formatter)
    → At t q f
    → At t q g
    → At t q (if b then f else g)
either-At b t q f g r s = if_elim (At t q) b r s

semicolon-At : (f : Formatter) → At f.tabs false (append_semicolon (beside f))
unfolding append_semicolon append_bool append
semicolon-At f = record { depth = refl; quotation = refl }

quote-At : (color : Colour) (f : Formatter) → At f.tabs (not f.quoted) (append_quote color f)
unfolding append_quote append quote_colour
quote-At color f = record { depth = ground arith; quotation = refl }

digit-At :
    (c : ℕ) (color : Colour) (f : Formatter) → At f.tabs false (append_digit c color (beside f))
unfolding append_digit append
digit-At c color f = record { depth = refl; quotation = refl }

At-mono : (t t' : ℕ) (q q' : Bool) (f : Formatter) → t ≡ t' → q ≡ q' → At t q f → At t' q' f
At-mono t t' q q' f e e' r = record { depth = r.depth ∙ e; quotation = r.quotation ∙ e' }

-- A step for the one character `k`, which is no brace and no bracket.
branch-At :
    (c k t : ℕ) (q : Bool) (f g : Formatter)
    → ((c == k) ≡ true → At t q f)
    → ((c == k) ≡ false → At t q g)
    → At t q (if c == k then f else g)
branch-At c k t q f g r s = elim (Bool-cases (c == k)) [
  | inl same ↦ rw same (r same)
  | inr other ↦ rw other (s other)
]

step-beside : (c : ℕ) (f : Formatter) → At (move c f.tabs) (c == 34) (step c (beside f))
unfolding step append
step-beside c f = elim (Bool-cases ((c == 123) || (c == 125) || (c == 91) || (c == 93))) [
  | inl bracket ↦
      let plain : false ≡ (c == 34) = ground arith in
      rw bracket (
        At-mono _ _ false (c == 34) (append_brace c grey (beside f)) refl plain (brace-At c grey f))
  | inr no_bracket ↦
      let kept_depth : f.tabs ≡ move c f.tabs = ground arith in
      rw no_bracket (
        At-mono f.tabs (move c f.tabs) (c == 34) (c == 34) _ kept_depth refl (
          branch-At c 44 f.tabs (c == 34) _ _
            (λ e.
              At-mono _ _ false (c == 34) (append_comma (beside f)) refl (ground arith)
                (comma-At f))
            (λ e.
              branch-At c 58 f.tabs (c == 34) _ _
                (λ e'.
                  At-mono _ _ false (c == 34) (append_semicolon (beside f)) refl (ground arith)
                    (semicolon-At f))
                (λ e'.
                  branch-At c 34 f.tabs (c == 34) _ _
                    (λ e''.
                      At-mono _ _ true (c == 34) (append_quote purple (beside f)) refl (sym e'')
                        (quote-At purple (beside f)))
                    (λ e''. At-mono _ _ false (c == 34) _ refl (sym e'') (
                      either-At (leb 48 c && leb c 57) f.tabs false (append_digit c mint (beside f))
                        (append (source c) (beside f)) (digit-At c mint f)
                        (record { depth = refl; quotation = refl })))))))
]

-- A quote outside or inside of a string.
step-quote : (f : Formatter) → At f.tabs (not f.quoted) (step 34 f)
unfolding step
step-quote f = quote-At purple f

step-At :
    (c : ℕ) (f : Formatter)
    → At
        (if f.quoted then f.tabs else move c f.tabs)
        (if c == 34 then not f.quoted else f.quoted)
        (step c f)
step-At c f = elim (Bool-cases f.quoted) [
  | inl string ↦ elim (Bool-cases (c == 34)) [
    | inl quote ↦
        let e : 34 ≡ c = ground arith in
        At-mono f.tabs _ (not f.quoted) _ (step c f) (ground arith) (ground arith)
          (subst (λ i. At f.tabs (not f.quoted) (step i f)) e (step-quote f))
    | inr plain ↦
        let r = step-Copies c f string plain in
        record { depth = r.same_tabs ∙ ground arith; quotation = r.still ∙ ground arith }
  ]
  | inr text ↦
      let e : beside f ≡ f = ap (λ b. record f { quoted = b }) (sym text) in
      At-mono (move c f.tabs) _ (c == 34) _ (step c f) (ground arith) (ground arith)
        (subst (λ g. At (move c f.tabs) (c == 34) (step c g)) e (step-beside c f))
]

step_small : (c : ℕ) (f : Formatter) → f.tabs < 256 → (step c f).tabs < 256
step_small c f small = ground (arith, (step-At c f).depth)

move_counts :
    (c t o k : ℕ) (q : Bool)
    → ((if q then t else move c t) + o + 255 * k) % 256
      ≡ (t
          + (if opens c && not q then suc o else o)
          + 255 * (if closes c && not q then suc k else k))
        % 256
move_counts c t o k true = ground arith
move_counts c t o k false = elim (Bool-cases (opens c)) [
  | inl opening ↦ let other : closes c ≡ false = ground arith in rw (opening, other) (omega arith)
  | inr no_opening ↦ elim (Bool-cases (closes c)) [
    | inl closing ↦ rw (no_opening, closing) (omega arith)
    | inr neither ↦ rw (no_opening, neither) refl
  ]
]

run_depth :
    (cs : List ℕ) (f : Formatter)
    → f.tabs < 256
    → (run cs f).tabs
      ≡ (f.tabs + outside opens f.quoted cs + 255 * outside closes f.quoted cs) % 256
unfolding run outside
run_depth [] f small = omega arith
run_depth (c ∷ cs) f small =
    let r = step-At c f in
    let later = run_depth cs (step c f) (step_small c f small) in
    later
    ∙ ap
        (λ t.
          (t + outside opens (step c f).quoted cs + 255 * outside closes (step c f).quoted cs)
          % 256)
        r.depth
    ∙ ap
        (λ q.
          ((if f.quoted then f.tabs else move c f.tabs)
            + outside opens q cs
            + 255 * outside closes q cs)
          % 256)
        r.quotation
    ∙ move_counts c f.tabs _ _ f.quoted

-- No quote stands behind a backslash; `b` tells whether the text starts behind one.
unfoldable pub no_escaped_quote : Bool → List ℕ → Bool
no_escaped_quote b [] = true
no_escaped_quote b (c ∷ cs) = not (b && c == 34) && no_escaped_quote (c == 92) cs

-- How many characters outside of the strings of JSON satisfy `test`: in a string, the character
-- behind a backslash does not end it. `q` tells whether the text starts inside a string, `e` whether
-- its first character is escaped.
unfoldable pub outside_strings : (ℕ → Bool) → Bool → Bool → List ℕ → ℕ
outside_strings test q e [] = 0
outside_strings test q e (c ∷ cs) =
    let rest =
      outside_strings test (if c == 34 && not e then not q else q) (q && not e && c == 92) cs in
    if test c && not q then suc rest else rest

-- Without escaped quotes both ways of counting agree.
outside-strings :
    (test : ℕ → Bool) (q e b : Bool) (cs : List ℕ)
    → (e ≡ true → b ≡ true)
    → no_escaped_quote b cs ≡ true
    → outside_strings test q e cs ≡ outside test q cs
unfolding outside_strings outside no_escaped_quote
outside-strings test q e b [] k h = refl
outside-strings test q e b (c ∷ cs) k h =
    let same : (if c == 34 && not e then not q else q) ≡ (if c == 34 then not q else q) =
      ground (arith, k, h) in
    let later =
      outside-strings test (if c == 34 && not e then not q else q) (q && not e && c == 92) (c == 92)
        cs (λ i. ground (arith, i)) (ground (arith, h)) in
    ap (λ n. if test c && not q then suc n else n)
      (later ∙ ap (λ (r : Bool). outside test r cs) same)

-- After data `cs` in which no quote stands behind a backslash the indentation is the number of braces
-- and brackets that `cs` opens outside of the strings of JSON, less the number that it closes there,
-- modulo 256; it is the depth of every such text that is nested less than 256 deep.
pub format_depth :
    (cs : List ℕ)
    → no_escaped_quote false cs ≡ true
    → ((run cs new_formatter).tabs
        ≡ (outside_strings opens false false cs + 255 * outside_strings closes false false cs)
          % 256)
      × ((depth : ℕ)
          → outside_strings opens false false cs ≡ outside_strings closes false false cs + depth
          → depth < 256
          → (run cs new_formatter).tabs ≡ depth)
unfolding new_formatter
format_depth cs plain =
    let e = run_depth cs new_formatter (omega arith) in
    let opened = outside-strings opens false false false cs (λ i. i) plain in
    let closed = outside-strings closes false false false cs (λ i. i) plain in
    (omega (arith, e, opened, closed), λ depth nested small. omega (arith, e, opened, closed))
