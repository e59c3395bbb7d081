-- ===== src/Persistence/Table/Changes.antt =====
-- What the rows satisfy after a statement, from what they satisfied before it.
use bx_ssh.Common.{◌≡◌, inl, inr, Bool, true, false, List, [], ◌∷◌, any, All, Bool-cases, arith}
use bx_ssh.Common.Text.Trim.{All-append}
use bx_ssh.Persistence.Table.{update_where, upsert}

module _ {ℓ κ ι} {R : Type ℓ} (Q : R → Type κ) (P : R → Type ι) (q : R → Bool) (f : R → R)
    (changed : (r : R) → q r ≡ true → Q r → P (f r))
    (kept : (r : R) → q r ≡ false → Q r → P r) where
  pub All-changed : (rs : List R) → All Q rs → All P (update_where q f rs)
  unfolding update_where
  All-changed [] h = tt
  All-changed (r ∷ rs) h = elim (Bool-cases (q r)) [
    | inl e ↦ rw e (changed r e h.0, All-changed rs h.1)
    | inr e ↦ rw e (kept r e h.0, All-changed rs h.1)
  ]

  all_kept : (rs : List R) → any q rs ≡ false → All Q rs → All P rs
  all_kept [] e h = tt
  all_kept (r ∷ rs) e h = (kept r (ground arith) h.0, all_kept rs (ground arith) h.1)

  pub All-saved : (new : R) (rs : List R) → P new → All Q rs → All P (upsert q f new rs)
  unfolding upsert
  All-saved new rs n h = elim (Bool-cases (any q rs)) [
    | inl e ↦ rw e (All-changed rs h)
    | inr e ↦ rw e (All-append P rs (new ∷ []) (all_kept rs e h) (n, tt))
  ]
