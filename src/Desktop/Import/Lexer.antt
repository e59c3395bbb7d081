-- ===== src/Desktop/Import/Lexer.antt =====
-- The text of an OpenSSH configuration: lines, comments, words and quotes. Where a word or a comment
-- ends depends on quotes and backslashes, which `Scan` tracks; the source writes the same three tests
-- in `strip_comment` and in `split_words`.
pub mod RoundTrip
use mathlib.Core.List.{reverse}
use bx_ssh.Common.{
  ℕ, Bool, true, false, not, ◌&&◌, ◌||◌, Option, none, some, List, [], ◌∷◌, ◌++◌, ◌==◌, is_empty,
  is_none, is_some_and, unwrap_or, if◌then◌else◌,
}
use bx_ssh.Common.Text.{Text, is_whitespace, trim, trim_start, strip_prefix}

-- `str::lines`, with the line so far in reverse: a carriage return before the line feed goes too.
unfoldable pub drop_carriage_return : Text → Text
drop_carriage_return [] = []
drop_carriage_return (c ∷ cs) = if c == 13 then cs else c ∷ cs

unfoldable pub lines_from : Text → Text → List Text
unfolding drop_carriage_return
lines_from line [] = if is_empty line then [] else reverse line ∷ []
lines_from line (c ∷ cs) =
    let rest = lines_from (if c == 10 then [] else c ∷ line) cs in
    if c == 10 then reverse (drop_carriage_return line) ∷ rest else rest

unfoldable pub lines : Text → List Text
unfolding lines_from
lines t = lines_from [] t

pub record Scan : Type 0 where
  pub quote : Option ℕ
  pub escaped : Bool

abbrev pub unquoted : Scan
unquoted = record { quote = none; escaped = false }

unfoldable pub is_quote : ℕ → Bool
is_quote c = c == b'\'' || c == b'"'

unfoldable pub scan : Scan → ℕ → Scan
unfolding is_quote
scan s c =
    if s.escaped
    then record s { escaped = false }
    else if c == b'\\'
    then record s { escaped = true }
    else if is_quote c
    then (if is_some_and (λ q. q == c) s.quote
        then record s { quote = none }
        else if is_none s.quote
        then record s { quote = some c }
        else s)
    else s

-- `strip_comment`: up to the first `#` that is neither escaped nor quoted.
unfoldable pub strip_comment_from : Scan → Text → Text
unfolding scan
strip_comment_from s [] = []
strip_comment_from s (c ∷ cs) =
    let rest = strip_comment_from (scan s c) cs in
    if not s.escaped && c == b'#' && is_none s.quote then [] else c ∷ rest

unfoldable pub strip_comment : Text → Text
unfolding strip_comment_from
strip_comment line = strip_comment_from unquoted line

-- The word so far and the words before it.
pub record Words : Type 0 where
  pub scanned : Scan
  pub current : Text
  pub words : List Text

abbrev pub no_words : Words
no_words = record { scanned = unquoted; current = []; words = [] }

abbrev pub keep_char : ℕ → Words → Words
keep_char c w = record w { current = w.current ++ (c ∷ []) }

abbrev pub end_word : Words → Words
end_word w =
    if is_empty w.current then w else record w { current = []; words = w.words ++ (w.current ∷ []) }

-- The loop's body without the update of the quote and the escape.
unfoldable pub take_char : Words → ℕ → Words
unfolding is_quote
take_char w c =
    if w.scanned.escaped
    then keep_char c w
    else if c == b'\\'
    then w
    else if is_quote c
    then (if is_some_and (λ q. q == c) w.scanned.quote
        then w
        else if is_none w.scanned.quote
        then w
        else keep_char c w)
    else if is_whitespace c && is_none w.scanned.quote
    then end_word w
    else keep_char c w

unfoldable pub scan_words : Words → Text → Words
unfolding take_char scan
scan_words w [] = w
scan_words w (c ∷ cs) = scan_words (record (take_char w c) { scanned = scan w.scanned c }) cs

unfoldable pub split_words : Text → List Text
unfolding scan_words
split_words value =
    let w = scan_words no_words value in
    (end_word (if w.scanned.escaped then keep_char b'\\' w else w)).words

-- `unquote`: the quotes are ASCII, so the first and the last byte are quotes exactly if the first and
-- the last character are. `strip_quotes` has the text after its first character in reverse.
unfoldable pub strip_quotes : ℕ → Text → Text → Text
strip_quotes c [] value = value
strip_quotes c (d ∷ ds) value =
    if (c == b'"' && d == b'"') || (c == b'\'' && d == b'\'') then reverse ds else value

unfoldable pub unquote_trimmed : Text → Text
unfolding strip_quotes
unquote_trimmed [] = []
unquote_trimmed (c ∷ cs) = strip_quotes c (reverse cs) (c ∷ cs)

unfoldable pub unquote : Text → Text
unfolding unquote_trimmed
unquote value = unquote_trimmed (trim value)

-- `split_directive`.
unfoldable pub trim_byte_order_marks : Text → Text
trim_byte_order_marks [] = []
trim_byte_order_marks (c ∷ cs) =
    let rest = trim_byte_order_marks cs in if c == 0xFEFF then rest else c ∷ cs

unfoldable pub ends_key : ℕ → Bool
ends_key c = is_whitespace c || c == b'='

-- The key and what follows it.
unfoldable pub split_key : Text → Text × Text
unfolding ends_key
split_key [] = ([], [])
split_key (c ∷ cs) =
    let (key, rest) = split_key cs in if ends_key c then ([], c ∷ cs) else (c ∷ key, rest)

unfoldable pub split_directive : Text → Option (Text × Text)
unfolding strip_comment trim_byte_order_marks split_key
split_directive raw =
    let line = trim_byte_order_marks (trim (strip_comment raw)) in
    let (word, rest) = split_key line in
    let key = trim word in
    let value = trim (unwrap_or (strip_prefix (b'=' ∷ []) (trim_start rest)) rest) in
    if is_empty line
    then none
    else if not (is_empty key) && not (is_empty value)
    then some (key, value)
    else none
