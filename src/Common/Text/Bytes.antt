-- ===== src/Common/Text/Bytes.antt =====
-- UTF-8: a text whose bytes are all below 128 is its own sequence of bytes.
use Prim.Native.Nat.{ℕ, ◌<◌, ◌+◌, ◌/◌}
use mathlib.Core.Path.{◌≡◌, refl, ap}
use mathlib.Core.Bool.{Bool, true}
use mathlib.Core.List.{List, [], ◌∷◌, ◌++◌}
use native.Mathlib.Omega.{arith}
use bx_ssh.Common.Lists.{all, All}
use bx_ssh.Common.Text.{Text, utf8, as_bytes}

utf8_ascii : (c : ℕ) → c < 128 → utf8 c ≡ c ∷ []
unfolding utf8
utf8_ascii c h = ground arith

all-append_left {ℓ} :
    {A : Type ℓ} (p : A → Bool) (xs ys : List A) → all p (xs ++ ys) ≡ true → all p ys ≡ true
all-append_left p [] ys h = h
all-append_left p (x ∷ xs) ys h = all-append_left p xs ys (ground arith)

-- The first byte of a character beyond ASCII is at least 128.
utf8_head :
    (p : ℕ → Bool)
    → ((b : ℕ) → p b ≡ true → b < 128)
    → (c : ℕ) (bs : List ℕ) → all p (utf8 c ++ bs) ≡ true
    → c < 128
unfolding utf8
utf8_head p ascii c bs h =
    ground (arith, ascii (0xC0 + c / 0x40), ascii (0xE0 + c / 0x1000), ascii (0xF0 + c / 0x40000))

-- A test that only ASCII bytes pass is passed by the bytes of a text exactly if it is passed by
-- its characters.
pub as_bytes-ascii :
    (p : ℕ → Bool)
    → ((b : ℕ) → p b ≡ true → b < 128)
    → (t : Text) → all p (as_bytes t) ≡ true
    → as_bytes t ≡ t
unfolding as_bytes
as_bytes-ascii p ascii [] h = refl
as_bytes-ascii p ascii (c ∷ cs) h =
    let low = utf8_head p ascii c (as_bytes cs) h in
    rw (utf8_ascii c low)
      (ap (◌∷◌ c) (as_bytes-ascii p ascii cs (all-append_left p (utf8 c) (as_bytes cs) h)))

pub as_bytes_of_ascii : (t : Text) → All (λ c. c < 128) t → as_bytes t ≡ t
unfolding as_bytes
as_bytes_of_ascii [] h = refl
as_bytes_of_ascii (c ∷ cs) h = rw (utf8_ascii c h.0) (ap (◌∷◌ c) (as_bytes_of_ascii cs h.1))
