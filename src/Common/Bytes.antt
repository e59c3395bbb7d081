-- ===== src/Common/Bytes.antt =====
-- Slices of bytes, and numbers of 32 bits as four bytes.
use bx_ssh.Common.{
  ℕ, zero, suc, ◌+◌, ◌*◌, ◌/◌, ◌%◌, ◌^◌, ◌<◌, ◌≡◌, refl, ap, subst, ◌∙◌, Option, none, some, List,
  [], ◌∷◌, ◌++◌, length, arith,
}

abbrev pub Bytes : Type 0
Bytes = List ℕ

module _ {A : Type 0} where
  unfoldable pub take : ℕ → List A → List A
  take zero xs = []
  take (suc n) [] = []
  take (suc n) (x ∷ xs) = x ∷ take n xs

  unfoldable pub skip : ℕ → List A → List A
  skip zero xs = xs
  skip (suc n) [] = []
  skip (suc n) (x ∷ xs) = skip n xs

  pub take-append : (xs ys : List A) (n : ℕ) → length xs ≡ n → take n (xs ++ ys) ≡ xs
  unfolding take
  take-append xs ys n h = subst (λ n. take n (xs ++ ys) ≡ xs) h (taken xs)
    where
      taken : (xs : List A) → take (length xs) (xs ++ ys) ≡ xs
      taken [] = refl
      taken (x ∷ xs) = ap (λ s. x ∷ s) (taken xs)

  pub skip-append : (xs ys : List A) (n k : ℕ) → length xs ≡ n → skip (n + k) (xs ++ ys) ≡ skip k ys
  unfolding skip
  skip-append xs ys n k h = subst (λ n. skip (n + k) (xs ++ ys) ≡ skip k ys) h (skipped xs)
    where
      suc_add : (m : ℕ) → suc m + k ≡ suc (m + k)
      suc_add m = omega arith

      skipped : (xs : List A) → skip (length xs + k) (xs ++ ys) ≡ skip k ys
      skipped [] = ap (λ m. skip m ys) (omega arith)
      skipped (x ∷ xs) = ap (λ m. skip m (x ∷ (xs ++ ys))) (suc_add (length xs)) ∙ skipped xs

-- `u32::to_be_bytes`.
unfoldable pub to_be_bytes : ℕ → Bytes
to_be_bytes n = (n / 0x1000000) % 256 ∷ (n / 0x10000) % 256 ∷ (n / 256) % 256 ∷ n % 256 ∷ []

-- `u32::from_be_bytes` of a slice, which has to have four bytes.
unfoldable pub from_be_bytes : Bytes → Option ℕ
from_be_bytes (a ∷ b ∷ c ∷ d ∷ []) = some (0x1000000 * a + 0x10000 * b + 256 * c + d)
from_be_bytes _ = none

pub from_be_bytes-to_be_bytes : (n : ℕ) → n < 2 ^ 32 → from_be_bytes (to_be_bytes n) ≡ some n
unfolding from_be_bytes to_be_bytes
from_be_bytes-to_be_bytes n l = ap some (omega (arith, l))
