-- ===== src/Persistence/Table.antt =====
-- Tables as lists of rows, in the order of insertion, and what a SQL statement does to one:
-- SELECT, UPDATE, DELETE, INSERT with ON CONFLICT DO UPDATE, and ORDER BY.
pub mod Laws
pub mod Columns
pub mod Changes
pub mod Ids
use bx_ssh.Common.{
  ℕ, ◌+◌, ltb, Bool, true, false, not, Option, none, some, List, [], ◌∷◌, ◌++◌, any, if◌then◌else◌,
  ◌==◌, ◌&&◌, ◌||◌,
}
use bx_ssh.Common.Text.{Text, to_ascii_lowercase}
use bx_ssh.Common.{map}

module _ {ℓ} {R : Type ℓ} where
  -- WHERE p.
  unfoldable pub select_where : (R → Bool) → List R → List R
  select_where p [] = []
  select_where p (r ∷ rs) = let rest = select_where p rs in if p r then r ∷ rest else rest

  unfoldable pub delete_where : (R → Bool) → List R → List R
  delete_where p [] = []
  delete_where p (r ∷ rs) = let rest = delete_where p rs in if p r then rest else r ∷ rest

  unfoldable pub update_where : (R → Bool) → (R → R) → List R → List R
  update_where p f [] = []
  update_where p f (r ∷ rs) = (if p r then f r else r) ∷ update_where p f rs

  -- INSERT of a row, and DO UPDATE of the row that it conflicts with.
  unfoldable pub upsert : (R → Bool) → (R → R) → R → List R → List R
  unfolding update_where
  upsert conflicts f r rs = if any conflicts rs then update_where conflicts f rs else rs ++ (r ∷ [])

  -- ORDER BY: an insertion sort by a test "not after".
  unfoldable pub insert_by : (R → R → Bool) → R → List R → List R
  insert_by before r [] = r ∷ []
  insert_by before r (s ∷ rs) =
      let rest = insert_by before r rs in if before r s then r ∷ s ∷ rs else s ∷ rest

  unfoldable pub order_by : (R → R → Bool) → List R → List R
  unfolding insert_by
  order_by before [] = []
  order_by before (r ∷ rs) = insert_by before r (order_by before rs)

-- The order of TEXT by code points, that of COLLATE NOCASE, and that of a nullable column.
unfoldable pub text_at_most : Text → Text → Bool
text_at_most [] b = true
text_at_most (x ∷ a) [] = false
text_at_most (x ∷ a) (y ∷ b) = let rest = text_at_most a b in ltb x y || (x == y && rest)

abbrev pub no_case : Text → Text
no_case t = map to_ascii_lowercase t

unfoldable pub null_at_most : Option Text → Option Text → Bool
unfolding text_at_most
null_at_most none b = true
null_at_most (some a) none = false
null_at_most (some a) (some b) = text_at_most a b

-- One term of an ORDER BY, and those after it.
abbrev pub then_by : Bool → Bool → Bool → Bool
then_by before after rest = before && (not after || rest)
