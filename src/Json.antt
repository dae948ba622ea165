-- ===== src/Json.antt =====
-- Json_formatter of 2022-06-25-C++-notes/formatjson/json_formatter.cpp. A character is its number.
-- The string `json` is kept as the pieces that were appended to it, so that a character of the data
-- and one that the formatter adds are told apart; `render` is the string, with the colour codes,
-- which depend on the platform, as a parameter. `tabs` is a `uint8_t`. The file that is read is the
-- list of its characters.
pub mod Kept
pub mod At
pub mod Depth
pub mod Quoted
pub mod Tests
use zettelkasten_public_subs.Common.{
  ℕ, zero, suc, ◌+◌, ◌%◌, ◌^◌, Bool, true, false, not, ◌&&◌, ◌||◌, List, [], ◌∷◌, ◌++◌, leb, ◌==◌,
  if◌then◌else◌,
}

pub data Colour : Type 0 where
  end_of_color : Colour
  grey : Colour
  mint : Colour
  purple : Colour
  red : Colour
  yellow : Colour

-- A character of the data, or what the formatter adds to it.
pub data Piece : Type 0 where
  source : ℕ → Piece
  colour : Colour → Piece
  newline : Piece
  tab : Piece
  space : Piece

pub record Formatter : Type 0 where
  pub json : List Piece
  pub quoted : Bool
  pub semicolon : Bool
  pub comma : Bool
  pub block : Bool
  pub array : Bool
  pub tabs : ℕ

unfoldable pub new_formatter : Formatter
new_formatter = record {
  json = [];
  quoted = false;
  semicolon = false;
  comma = false;
  block = false;
  array = false;
  tabs = 0;
}

-- `json.append` and `json.push_back`
unfoldable pub append : Piece → Formatter → Formatter
append p f = record f { json = f.json ++ p ∷ [] }

-- The loop of `append_tabs` from `i = tabs` down.
unfoldable pub append_tab : ℕ → Formatter → Formatter
append_tab zero f = f
append_tab (suc i) f = append_tab i (append tab f)

unfoldable pub append_tabs : Formatter → Formatter
append_tabs f = append_tab f.tabs f

-- `--tabs` or `++tabs`, and the new line after that.
unfoldable pub dedent : Formatter → Formatter
dedent f = append_tabs (append newline (record f { tabs = (f.tabs + 255) % 256 }))

unfoldable pub indent : Formatter → Formatter
indent f = append_tabs (append newline (record f { tabs = (f.tabs + 1) % 256 }))

unfoldable pub close_block : ℕ → Formatter → Formatter
close_block brace f = if brace == 125 then record (dedent f) { block = false } else f

unfoldable pub close_array : ℕ → Formatter → Formatter
close_array brace f = if brace == 93 then record (dedent f) { array = false } else f

unfoldable pub open_block : ℕ → Formatter → Formatter
open_block brace f = if brace == 123 then record (indent f) { block = true } else f

unfoldable pub open_array : ℕ → Formatter → Formatter
open_array brace f = if brace == 91 then record (indent f) { array = true } else f

unfoldable pub append_brace : ℕ → Colour → Formatter → Formatter
append_brace brace color f =
    if f.quoted
    then append (source brace) f
    else open_array brace (
        open_block brace (
          append (colour end_of_color) (
            append (source brace)
              (append (colour color) (close_array brace (close_block brace f))))))

unfoldable pub append_comma : Formatter → Formatter
append_comma f =
    let g = append (source 44) (if f.quoted then f else append (colour end_of_color) f) in
    record (if f.quoted then g else append_tabs (append newline g)) { comma = true }

unfoldable pub append_bool : Formatter → Formatter
append_bool f = if f.quoted then f else append (colour yellow) f

unfoldable pub append_semicolon : Formatter → Formatter
append_semicolon f =
    let g = append (source 58) f in
    record (append_bool (if f.quoted then g else append space g)) { semicolon = true }

-- The colour before a quote.
unfoldable pub quote_colour : Colour → Formatter → Formatter
quote_colour color f =
    if (f.semicolon && not f.comma && not f.block) || (not f.semicolon && f.array)
    then append (colour red) f
    else if f.quoted
    then f
    else record (append (colour color) f) { array = false }

unfoldable pub append_quote : Colour → Formatter → Formatter
append_quote color f =
    let g = append (source 34) (quote_colour color f) in
    record (if f.quoted then append (colour end_of_color) g else g) {
      quoted = not f.quoted;
      comma = false;
      semicolon = false;
      block = false;
    }

unfoldable pub append_digit : ℕ → Colour → Formatter → Formatter
append_digit digit color f =
    if f.quoted then append (source digit) f else append (source digit) (append (colour color) f)

-- One character of the data.
unfoldable pub step : ℕ → Formatter → Formatter
step c f =
    if (c == 123) || (c == 125) || (c == 91) || (c == 93)
    then append_brace c grey f
    else if c == 44
    then append_comma f
    else if c == 58
    then append_semicolon f
    else if c == 34
    then append_quote purple f
    else if leb 48 c && leb c 57
    then append_digit c mint f
    else append (source c) f

unfoldable pub run : List ℕ → Formatter → Formatter
run [] f = f
run (c ∷ cs) f = run cs (step c f)

unfoldable pub format : List ℕ → List Piece
format data_ = (run data_ new_formatter).json

-- The string that the pieces make.
unfoldable pub render_piece : (Colour → List ℕ) → Piece → List ℕ
render_piece code (source c) = c ∷ []
render_piece code (colour c) = code c
render_piece code newline = 10 ∷ []
render_piece code tab = 32 ∷ 32 ∷ []
render_piece code space = 32 ∷ []

unfoldable pub render : (Colour → List ℕ) → List Piece → List ℕ
render code [] = []
render code (p ∷ ps) = render_piece code p ++ render code ps
