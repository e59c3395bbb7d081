-- ===== src/Desktop/Import/Lexer/RoundTrip.antt =====
-- Words that are written with a backslash before every character are read back.
use mathlib.Core.List.{append_assoc, append-nil}
use bx_ssh.Common.{◌≡◌, refl, sym, ap, ◌∙◌, false, List, [], ◌∷◌, ◌++◌, All, is_empty}
use bx_ssh.Common.Text.{Text, is_whitespace}
use bx_ssh.Desktop.Import.Lexer.{unquoted, scan, Words, take_char, scan_words, split_words}

-- A word with each character escaped, and words with a blank after each.
unfoldable pub escape : Text → Text
escape [] = []
escape (c ∷ cs) = b'\\' ∷ c ∷ escape cs

unfoldable pub escape_all : List Text → Text
escape_all [] = []
escape_all (w ∷ ws) = escape w ++ (b' ' ∷ escape_all ws)

abbrev plain : Text → List Text → Words
plain current words = record { scanned = unquoted; current = current; words = words }

scan_words-escape :
    (w current rest : Text) (words : List Text)
    → scan_words (plain current words) (escape w ++ rest)
      ≡ scan_words (plain (current ++ w) words) rest
unfolding scan_words escape take_char scan
scan_words-escape [] current rest words =
    ap (λ (c : Text). scan_words (plain c words) rest) (sym (append-nil current))
scan_words-escape (c ∷ w) current rest words =
    scan_words-escape w (current ++ (c ∷ [])) rest words
    ∙ ap (λ (z : Text). scan_words (plain z words) rest) (append_assoc current (c ∷ []) w)

scan_words-blank :
    (w rest : Text) (words : List Text)
    → is_empty w ≡ false
    → scan_words (plain w words) (b' ' ∷ rest) ≡ scan_words (plain [] (words ++ (w ∷ []))) rest
unfolding scan_words take_char scan is_whitespace
scan_words-blank w rest words h = rw (scan_words, h) refl

scan_words-escape_all :
    (ws words : List Text)
    → All (λ w. is_empty w ≡ false) ws
    → scan_words (plain [] words) (escape_all ws) ≡ plain [] (words ++ ws)
unfolding scan_words escape_all take_char scan
scan_words-escape_all [] words h = ap (plain []) (sym (append-nil words))
scan_words-escape_all (w ∷ ws) words (h, hs) =
    scan_words-escape w [] (b' ' ∷ escape_all ws) words
    ∙ scan_words-blank w (escape_all ws) words h
    ∙ scan_words-escape_all ws (words ++ (w ∷ [])) hs
    ∙ ap (plain []) (append_assoc words (w ∷ []) ws)

-- Words that are not empty are read back from their escaped text.
pub split_words-escape_all :
    (ws : List Text) → All (λ w. is_empty w ≡ false) ws → split_words (escape_all ws) ≡ ws
unfolding split_words
split_words-escape_all ws h = rw (split_words, scan_words-escape_all ws [] h) refl
