-- ===== src/Common/Text/Sets.antt =====
-- Membership in a list of texts, as a `HashSet` of them tells it, and the position of a member.
use Prim.Native.Nat.{ℕ, suc}
use mathlib.Core.Path.{◌≡◌, refl}
use mathlib.Core.Logic.{inl, inr}
use mathlib.Core.Bool.{Bool, true, false, ◌||◌}
use mathlib.Core.List.{List, [], ◌∷◌}
use native.Mathlib.Omega.{arith}
use bx_ssh.Common.Tests.{if◌then◌else◌, Bool-cases}
use bx_ssh.Common.Lists.{any, All, length}
use bx_ssh.Common.Text.{Text, text_eq, text_eq_iff}

-- `HashSet::contains`, and whether a list has no repetition (`collect::<HashSet>().len() == len()`).
abbrev pub contains : Text → List Text → Bool
contains t ts = any (text_eq t) ts

unfoldable pub has_repetition : List Text → Bool
has_repetition [] = false
has_repetition (t ∷ ts) = contains t ts || has_repetition ts

-- The first position of a text.
abbrev pub index_of : Text → List Text → ℕ
index_of t [] = 0
index_of t (u ∷ us) = if text_eq t u then 0 else suc (index_of t us)

-- The list without one occurrence of a text.
unfoldable pub drop_one : Text → List Text → List Text
drop_one t [] = []
drop_one t (u ∷ us) = let rest = drop_one t us in if text_eq t u then us else u ∷ rest

length-drop_one :
    (t : Text) (us : List Text) → contains t us ≡ true → suc (length (drop_one t us)) ≡ length us
unfolding drop_one
length-drop_one t [] h = cc
length-drop_one t (u ∷ us) h = ground (arith, length-drop_one t us)

contains-drop_one :
    (t v : Text) (us : List Text)
    → text_eq v t ≡ false
    → contains v us ≡ true
    → contains v (drop_one t us) ≡ true
unfolding drop_one
contains-drop_one t v [] n h = h
contains-drop_one t v (u ∷ us) n h =
    ground (arith, contains-drop_one t v us n, text_eq_iff t u, text_eq_iff v u, text_eq_iff v t)

-- Texts that are all members of the list without t, when t is none of them.
All-drop_one :
    (t : Text) (us vs : List Text)
    → contains t vs ≡ false
    → All (λ v. contains v us ≡ true) vs
    → All (λ v. contains v (drop_one t us) ≡ true) vs
All-drop_one t us [] n h = tt
All-drop_one t us (v ∷ vs) n h = (
  contains-drop_one t v us (ground (arith, text_eq_iff t v, text_eq_iff v t)) h.0,
  All-drop_one t us vs (ground arith) h.1,
)

-- Distinct members of a list that are as many as it has elements are all of its members.
pub contains_all :
    (stored us : List Text)
    → has_repetition stored ≡ false
    → length stored ≡ length us
    → All (λ s. contains s us ≡ true) stored
    → (v : Text) → contains v us ≡ true
    → contains v stored ≡ true
unfolding has_repetition
contains_all [] [] d l h v c = c
contains_all [] (u ∷ us) d l h v c = absurd (omega (arith, l))
contains_all (s ∷ stored) us d l h v c = elim (Bool-cases (text_eq v s)) [
  | inl e ↦ rw e refl
  | inr e ↦
      let rest =
        contains_all stored (drop_one s us) (ground arith)
          (omega (arith, l, length-drop_one s us h.0)) (All-drop_one s us stored (ground arith) h.1)
          v (contains-drop_one s v us e c) in
      rw (e, rest) refl
]
