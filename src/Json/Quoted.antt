-- ===== src/Json/Quoted.antt =====
-- The inside of a string of the data.
use mathlib.Core.List.{append-nil, append_assoc}
use zettelkasten_public_subs.Common.{
  ℕ, ◌≡◌, refl, ap, ◌∙◌, sym, subst, Bool, true, false, List, [], map, ◌∷◌, ◌++◌, ◌==◌,
  if◌then◌else◌, if_elim, Bool-cases, inl, inr, arith,
}
use zettelkasten_public_subs.Json.{
  source, Formatter, append, append_brace, append_comma, append_bool, append_semicolon,
  append_digit, step, run,
}

abbrev pub NoQuote : List ℕ → Type 0
NoQuote [] = Unit
NoQuote (c ∷ cs) = ((c == 34) ≡ false) × NoQuote cs

-- What a character does inside a string.
pub record Copies (c : ℕ) (f g : Formatter) : Type 0 where
  pub written : g.json ≡ f.json ++ source c ∷ []
  pub still : g.quoted ≡ true
  pub same_tabs : g.tabs ≡ f.tabs

either-Copies :
    (b : Bool) (c : ℕ) (f g h : Formatter)
    → Copies c f g
    → Copies c f h
    → Copies c f (if b then g else h)
either-Copies b c f g h s t = if_elim (Copies c f) b s t

source-Copies : (c : ℕ) (f : Formatter) → f.quoted ≡ true → Copies c f (append (source c) f)
unfolding append
source-Copies c f q = record { written = refl; still = q; same_tabs = refl }

-- The formatter inside a string.
abbrev inside : Formatter → Formatter
inside f = record f { quoted = true }

comma-Copies : (f : Formatter) → Copies 44 (inside f) (append_comma (inside f))
unfolding append append_comma
comma-Copies f = record { written = refl; still = refl; same_tabs = refl }

semicolon-Copies : (f : Formatter) → Copies 58 (inside f) (append_semicolon (inside f))
unfolding append append_semicolon append_bool
semicolon-Copies f = record { written = refl; still = refl; same_tabs = refl }

copy_at :
    (c k : ℕ) (f g h : Formatter)
    → Copies k f g
    → Copies c f h
    → Copies c f (if c == k then g else h)
copy_at c k f g h s t = elim (Bool-cases (c == k)) [
  | inl same ↦ let e : c ≡ k = ground arith in rw same (subst (λ i. Copies i f g) (sym e) s)
  | inr other ↦ rw other t
]

step-inside : (c : ℕ) (f : Formatter) → (c == 34) ≡ false → Copies c (inside f) (step c (inside f))
unfolding step append_brace append_digit
step-inside c f plain =
    let copy = source-Copies c (inside f) refl in
    rw plain (
      either-Copies _ c (inside f) _ _ copy (
        copy_at c 44 (inside f) _ _ (comma-Copies f) (
          copy_at c 58 (inside f) _ _ (semicolon-Copies f)
            (either-Copies _ c (inside f) _ _ copy copy))))

pub step-Copies :
    (c : ℕ) (f : Formatter) → f.quoted ≡ true → (c == 34) ≡ false → Copies c f (step c f)
step-Copies c f q plain =
    let e : f ≡ inside f = ap (λ b. record f { quoted = b }) q in
    subst (λ g. Copies c g (step c g)) (sym e) (step-inside c f plain)

-- Behind a quote that opens a string the formatter writes the characters up to the next quote as
-- they are, adds nothing between them, and stays inside the string and at its depth.
pub run_quoted :
    (cs : List ℕ) (f : Formatter)
    → f.quoted ≡ true
    → NoQuote cs
    → ((run cs f).json ≡ f.json ++ map source cs)
      × ((run cs f).quoted ≡ true)
      × ((run cs f).tabs ≡ f.tabs)
unfolding run
run_quoted [] f q plain = (sym (append-nil f.json), q, refl)
run_quoted (c ∷ cs) f q plain =
    let s = step-Copies c f q plain.0 in
    let (written, still, tabs) = run_quoted cs (step c f) s.still plain.1 in
    (
      written
          ∙ ap (λ ps. ps ++ map source cs) s.written
          ∙ append_assoc f.json (source c ∷ []) (map source cs),
      still,
      tabs ∙ s.same_tabs,
    )
