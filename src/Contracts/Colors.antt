-- ===== src/Contracts/Colors.antt =====
-- crates/contracts/src/connection.rs: `is_hex_color`.
use bx_ssh.Common.{
  ℕ, ◌<◌, ◌≡◌, ◌↔◌, refl, sym, ap, ◌∙◌, Bool, true, false, ◌&&◌, ◌||◌, List, [], ◌∷◌, ◌==◌, leb,
  length, all, All, All-of_all, all_of_All, arith,
}
use bx_ssh.Common.Text.{Text, as_bytes, is_ascii_digit}
use bx_ssh.Common.Text.Bytes.{as_bytes-ascii, as_bytes_of_ascii}

unfoldable pub is_hex_digit : ℕ → Bool
unfolding is_ascii_digit
is_hex_digit b = is_ascii_digit b || (leb b'a' b && leb b b'f') || (leb b'A' b && leb b b'F')

-- `bytes[1..]` after the first byte; an empty slice has no first byte, and its length is not 7.
hash_and_digits : List ℕ → Bool
hash_and_digits [] = false
hash_and_digits (b ∷ bs) = b == b'#' && all is_hex_digit bs

pub is_hex_color : Text → Bool
unfolding hash_and_digits
is_hex_color color = let bytes = as_bytes color in length bytes == 7 && hash_and_digits bytes

-- A color as the web writes it: a hash mark and six hexadecimal digits.
pub record IsHexColor (color : Text) : Type 0 where
  pub digits : List ℕ
  pub reads : color ≡ b'#' ∷ digits
  pub six : length digits ≡ 6
  pub hex : All (λ d. is_hex_digit d ≡ true) digits

hash_or_digit : ℕ → Bool
hash_or_digit b = b == b'#' || is_hex_digit b

hash_or_digit_ascii : (b : ℕ) → hash_or_digit b ≡ true → b < 128
unfolding hash_or_digit is_hex_digit
hash_or_digit_ascii b h = ground arith

digits_hash_or_digit : (bs : List ℕ) → all is_hex_digit bs ≡ true → all hash_or_digit bs ≡ true
unfolding hash_or_digit
digits_hash_or_digit [] h = refl
digits_hash_or_digit (b ∷ bs) h = ground (arith, digits_hash_or_digit bs)

hash_and_digits-split :
    (bs : List ℕ)
    → hash_and_digits bs ≡ true
    → (ds : List ℕ) × (bs ≡ b'#' ∷ ds) × (all is_hex_digit ds ≡ true)
unfolding hash_and_digits
hash_and_digits-split [] h = ground arith
hash_and_digits-split (b ∷ bs) h = (bs, ground arith, ground arith)

hex_ascii : (ds : List ℕ) → All (λ d. is_hex_digit d ≡ true) ds → All (λ d. d < 128) ds
unfolding is_hex_digit
hex_ascii [] h = tt
hex_ascii (d ∷ ds) h = (ground arith, hex_ascii ds h.1)

IsHexColor-of_test :
    (color : Text)
    → length (as_bytes color) ≡ 7
    → hash_and_digits (as_bytes color) ≡ true
    → IsHexColor color
IsHexColor-of_test color n h =
    let (ds, split, hex) = hash_and_digits-split (as_bytes color) h in
    let plain : as_bytes color ≡ color =
      as_bytes-ascii hash_or_digit hash_or_digit_ascii color
        (rw split (unfold hash_or_digit in digits_hash_or_digit ds hex)) in
    record {
      digits = ds;
      reads = sym plain ∙ split;
      six = omega (arith, ap length split);
      hex = All-of_all is_hex_digit ds hex;
    }

-- The bytes of the text pass the test exactly if its characters are a hash mark and six
-- hexadecimal digits.
pub is_hex_color_iff : (color : Text) → (is_hex_color color ≡ true) ↔ IsHexColor color
unfolding is_hex_color hash_and_digits
is_hex_color_iff color = (
  λ h. IsHexColor-of_test color (ground arith) (ground arith),
  λ c. rw c.reads (
      rw (as_bytes_of_ascii (b'#' ∷ c.digits) (omega arith, hex_ascii c.digits c.hex))
        (ground (arith, c.six, all_of_All is_hex_digit c.digits c.hex))),
)
