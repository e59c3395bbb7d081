-- ===== src/Common/Text/Trim.antt =====
-- What trimming leaves: the blank texts, and the two ends of a trimmed text.
use Prim.Native.Nat.{ℕ}
use mathlib.Core.Path.{◌≡◌, refl, sym, ap, ◌∙◌}
use mathlib.Core.Logic.{◌↔◌, inl, inr}
use mathlib.Core.Bool.{true, false}
use mathlib.Core.List.{List, [], ◌∷◌, ◌++◌, reverse, reverse-reverse, reverse-append}
use native.Mathlib.Omega.{arith}
use bx_ssh.Common.Tests.{Bool-cases}
use bx_ssh.Common.Lists.{All}
use bx_ssh.Common.Text.{Text, is_whitespace, trim_start, trim_end, trim}

abbrev pub IsSpace : ℕ → Type 0
IsSpace c = is_whitespace c ≡ true

-- Every character has the property White_Space; the empty text is blank.
abbrev pub IsBlank : Text → Type 0
IsBlank t = All IsSpace t

pub All-append {ℓ κ} :
    {A : Type ℓ} (P : A → Type κ) (xs ys : List A) → All P xs → All P ys → All P (xs ++ ys)
All-append P [] ys hx hy = hy
All-append P (x ∷ xs) ys hx hy = (hx.0, All-append P xs ys hx.1 hy)

All-reverse {ℓ κ} : {A : Type ℓ} (P : A → Type κ) (xs : List A) → All P xs → All P (reverse xs)
All-reverse P [] h = tt
All-reverse P (x ∷ xs) h =
    rw (reverse-append (x ∷ []) xs)
      (All-append P (reverse xs) (x ∷ []) (All-reverse P xs h.1) (h.0, tt))

trim_start-IsBlank : (t : Text) → IsBlank t → trim_start t ≡ []
unfolding trim_start
trim_start-IsBlank [] h = refl
trim_start-IsBlank (c ∷ cs) h = rw h.0 (trim_start-IsBlank cs h.1)

IsBlank-of_trim_start : (t : Text) → trim_start t ≡ [] → IsBlank t
unfolding trim_start
IsBlank-of_trim_start [] h = tt
IsBlank-of_trim_start (c ∷ cs) h = elim (Bool-cases (is_whitespace c)) [
  | inl e ↦ (e, IsBlank-of_trim_start cs (ground arith))
  | inr e ↦ absurd (ground arith)
]

trim_end-eq_nil : (t : Text) → trim_end t ≡ [] → IsBlank t
unfolding trim_end
trim_end-eq_nil t h =
    let back = IsBlank-of_trim_start (reverse t) (sym (reverse-reverse _) ∙ ap reverse h) in
    rw reverse-reverse at (All-reverse IsSpace (reverse t) back)

-- Trimming on the left leaves nothing, or a text that begins with no space.
data Begins : Text → Type 0 where
  nothing : {t : Text} → t ≡ [] → Begins t
  word : {t : Text} (c : ℕ) (cs : Text) → t ≡ c ∷ cs → is_whitespace c ≡ false → Begins t

trim_start-Begins : (t : Text) → Begins (trim_start t)
unfolding trim_start
trim_start-Begins [] = nothing refl
trim_start-Begins (c ∷ cs) = elim (Bool-cases (is_whitespace c)) [
  | inl e ↦ rw e (trim_start-Begins cs)
  | inr e ↦ rw e (word c cs refl e)
]

trim-eq_nil : {s : Text} → Begins s → trim_end s ≡ [] → s ≡ []
trim-eq_nil (nothing e) h = e
trim-eq_nil (word c cs e n) h = absurd (let (b, _) = rw e at (trim_end-eq_nil _ h) in cc (b, n))

-- A text is trimmed to nothing exactly when it is blank.
pub trim_eq_nil_iff : (t : Text) → (trim t ≡ []) ↔ IsBlank t
unfolding trim
trim_eq_nil_iff t = (
  λ h. IsBlank-of_trim_start t (trim-eq_nil (trim_start-Begins t) h),
  λ b. rw (trim_start-IsBlank t b) (unfold trim_end trim_start in refl),
)

trim_start-split : (t : Text) → (pre : Text) × (t ≡ pre ++ trim_start t) × IsBlank pre
unfolding trim_start
trim_start-split [] = ([], refl, tt)
trim_start-split (c ∷ cs) = elim (Bool-cases (is_whitespace c)) [
  | inl e ↦ let (pre, p, b) = trim_start-split cs in (c ∷ pre, rw e (ap (◌∷◌ c) p), (e, b))
  | inr e ↦ ([], rw e, tt)
]

trim_end-split : (t : Text) → (post : Text) × (t ≡ trim_end t ++ post) × IsBlank post
unfolding trim_end
trim_end-split t =
    let (pre, p, b) = trim_start-split (reverse t) in
    (
      reverse pre,
      sym (reverse-reverse t) ∙ ap reverse p ∙ reverse-append pre _,
      All-reverse IsSpace pre b,
    )

trim_start_word : (c : ℕ) (cs : Text) → is_whitespace c ≡ false → trim_start (c ∷ cs) ≡ c ∷ cs
unfolding trim_start
trim_start_word c cs e = rw e

trim_start-trim_start : (t : Text) → trim_start (trim_start t) ≡ trim_start t
unfolding trim_start
trim_start-trim_start [] = refl
trim_start-trim_start (c ∷ cs) = elim (Bool-cases (is_whitespace c)) [
  | inl e ↦ rw e (trim_start-trim_start cs)
  | inr e ↦ rw e (rw e)
]

trim_end-trim_end : (t : Text) → trim_end (trim_end t) ≡ trim_end t
unfolding trim_end
trim_end-trim_end t = rw reverse-reverse (ap reverse (trim_start-trim_start (reverse t)))

trim_start-prefix : {s : Text} (u post : Text) → Begins s → s ≡ u ++ post → trim_start u ≡ u
trim_start-prefix [] post b e = unfold trim_start in refl
trim_start-prefix (d ∷ u) post (nothing n) e = cc
trim_start-prefix (d ∷ u) post (word c cs p n) e = trim_start_word d u (cc)

-- Trimming once is enough.
pub trim-trim : (t : Text) → trim (trim t) ≡ trim t
unfolding trim
trim-trim t =
    let (post, split, _) = trim_end-split (trim_start t) in
    rw (trim_start-prefix (trim_end (trim_start t)) post (trim_start-Begins t) split)
      (trim_end-trim_end (trim_start t))
