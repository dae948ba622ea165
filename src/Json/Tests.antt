-- ===== src/Json/Tests.antt =====
-- The formatter on the text `{"a,":[1]}`.
use zettelkasten_public_subs.Common.{ℕ, ◌+◌, ◌%◌, ◌≡◌, refl, true, false, List, [], ◌<◌, ◌*◌, ◌∷◌}
use zettelkasten_public_subs.Json.{
  source, colour, newline, Formatter, new_formatter, append, append_tab, append_tabs, append_comma,
  quote_colour, append_quote, step, run, format, end_of_color, purple,
}
use zettelkasten_public_subs.Json.Kept.{kept, format-kept}
use zettelkasten_public_subs.Json.Depth.{format_depth, outside_strings, no_escaped_quote}
use zettelkasten_public_subs.Json.At.{opens, closes}

abbrev text : List ℕ
text = 123 ∷ 34 ∷ 97 ∷ 44 ∷ 34 ∷ 58 ∷ 91 ∷ 49 ∷ 93 ∷ 125 ∷ []

format-kept_example : kept (format text) ≡ text
format-kept_example = format-kept text

-- A formatter behind a quote.
abbrev behind_quote : Formatter
behind_quote = record {
  json = source 34 ∷ [];
  quoted = true;
  semicolon = false;
  comma = false;
  block = false;
  array = false;
  tabs = 1;
}

format_depth_example :
    ((run text new_formatter).tabs
      ≡ (outside_strings opens false false text + 255 * outside_strings closes false false text)
        % 256)
    × ((depth : ℕ)
        → outside_strings opens false false text ≡ outside_strings closes false false text + depth
        → depth < 256
        → (run text new_formatter).tabs ≡ depth)
unfolding no_escaped_quote
format_depth_example = format_depth text refl

-- An escaped quote ends the string for the formatter: the comma behind it gets a new line.
escaped_quote :
    format (34 ∷ 92 ∷ 34 ∷ 44 ∷ [])
    ≡ colour purple
      ∷ source 34
      ∷ source 92
      ∷ source 34
      ∷ colour end_of_color
      ∷ colour end_of_color
      ∷ source 44
      ∷ newline
      ∷ []
unfolding format run step append_quote quote_colour append append_comma append_tabs append_tab
    new_formatter
escaped_quote = refl
