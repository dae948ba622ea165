-- ===== src/Parentheses.antt =====
-- `is_valid` of 2022-02-06-leetcode-solutions/valid-parentheses.cpp. A character is its number; the
-- std::stack is the list of its elements, the top one first.
mod Grammar
mod Tests
use zettelkasten_public_subs.Common.{ℕ, Bool, true, false, ◌||◌, List, [], ◌∷◌, ◌==◌, if◌then◌else◌}

-- `parens.empty()`
abbrev pub is_empty : List ℕ → Bool
is_empty [] = true
is_empty (c ∷ cs) = false

-- `parens.empty() || parens.top() != open`
abbrev pub top_is : ℕ → List ℕ → Bool
top_is open_char [] = false
top_is open_char (c ∷ cs) = c == open_char

abbrev pub pop : List ℕ → List ℕ
pop [] = []
pop (c ∷ cs) = cs

-- The loop, with `(` 40, `)` 41, `[` 91, `]` 93, `{` 123 and `}` 125.
unfoldable pub is_valid_from : List ℕ → List ℕ → Bool
is_valid_from parens [] = is_empty parens
is_valid_from parens (c ∷ input) =
    let pushed = is_valid_from (c ∷ parens) input in
    let popped = is_valid_from (pop parens) input in
    let skipped = is_valid_from parens input in
    if (c == 40) || (c == 123) || (c == 91)
    then pushed
    else if c == 41
    then (if top_is 40 parens then popped else false)
    else if c == 125
    then (if top_is 123 parens then popped else false)
    else if c == 93
    then (if top_is 91 parens then popped else false)
    else skipped

unfoldable pub is_valid : List ℕ → Bool
is_valid input = is_valid_from [] input
