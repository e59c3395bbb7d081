-- ===== src/Common/Maps.antt =====
-- A `HashMap<String, V>` as an association list: an insertion replaces, and the laws are in `if`
-- form.
use Prim.Native.Nat.{◌≤◌, ◌<◌}
use bx_ssh.Common.Lists.{length}
use mathlib.Core.Path.{◌≡◌, subst}
use mathlib.Core.Logic.{inl, inr}
use mathlib.Core.Bool.{Bool, true}
use mathlib.Core.List.{List, [], ◌∷◌}
use mathlib.Core.Option.{Option, none, some}
use native.Mathlib.Omega.{arith}
use bx_ssh.Common.Tests.{if◌then◌else◌, is_some, Bool-cases}
use bx_ssh.Common.Text.{Text, text_eq, text_eq_iff}

abbrev pub Map {ℓ} : Type ℓ → Type ℓ
Map V = List (Text × V)

module _ {ℓ} {V : Type ℓ} where
  unfoldable pub lookup : Text → Map V → Option V
  lookup k [] = none
  lookup k ((j, v) ∷ m) = if text_eq j k then some v else lookup k m

  abbrev pub contains_key : Text → Map V → Bool
  contains_key k m = is_some (lookup k m)

  unfoldable pub remove : Text → Map V → Map V
  remove k [] = []
  remove k ((j, v) ∷ m) = let rest = remove k m in if text_eq j k then rest else (j, v) ∷ rest

  unfoldable pub insert : Text → V → Map V → Map V
  unfolding remove
  insert k v m = (k, v) ∷ remove k m

  pub lookup-remove :
      (k j : Text) (m : Map V) → lookup j (remove k m) ≡ (if text_eq k j then none else lookup j m)
  unfolding lookup remove
  lookup-remove k j [] = ground arith
  lookup-remove k j ((i, w) ∷ m) =
      ground (arith, text_eq_iff k j, text_eq_iff i k, text_eq_iff i j, lookup-remove k j m)

  pub lookup-insert :
      (k j : Text) (v : V) (m : Map V)
      → lookup j (insert k v m) ≡ (if text_eq k j then some v else lookup j m)
  unfolding lookup insert
  lookup-insert k j v m = ground (arith, lookup-remove k j m)

  length-remove_le : (k : Text) (m : Map V) → length (remove k m) ≤ length m
  unfolding remove
  length-remove_le k [] = omega arith
  length-remove_le k ((j, v) ∷ m) = ground (arith, length-remove_le k m)

  -- Removing a key that is there makes the map shorter.
  pub length-remove :
      (k : Text) (m : Map V) → contains_key k m ≡ true → length (remove k m) < length m
  unfolding lookup remove
  length-remove k [] h = cc
  length-remove k ((j, v) ∷ m) h = ground (arith, length-remove k m, length-remove_le k m)

module _ {ℓ κ} {V : Type ℓ} (P : V → Type κ) where
  -- A predicate at every value of a map.
  abbrev pub Values : Map V → Type κ
  Values [] = Unit
  Values ((k, v) ∷ m) = P v × Values m

  pub remove-Values : (k : Text) (m : Map V) → Values m → Values (remove k m)
  unfolding remove
  remove-Values k [] h = tt
  remove-Values k ((j, v) ∷ m) h = elim (Bool-cases (text_eq j k)) [
    | inl e ↦ rw e (remove-Values k m h.1)
    | inr e ↦ rw e (h.0, remove-Values k m h.1)
  ]

  pub insert-Values : (k : Text) (v : V) (m : Map V) → P v → Values m → Values (insert k v m)
  unfolding insert
  insert-Values k v m p h = (p, remove-Values k m h)

  pub lookup-Values : (k : Text) (m : Map V) (v : V) → Values m → lookup k m ≡ some v → P v
  unfolding lookup
  lookup-Values k [] v h e = absurd (ground arith)
  lookup-Values k ((j, w) ∷ m) v h e = elim (Bool-cases (text_eq j k)) [
    | inl t ↦ subst P (let u = rw t at e in ground arith) h.0
    | inr f ↦ lookup-Values k m v h.1 (rw f at e)
  ]
