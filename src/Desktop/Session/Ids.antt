-- ===== src/Desktop/Session/Ids.antt =====
-- The loop that draws the id of a new session: what it returns is free, and it ends.
use bx_ssh.Common.{
  ℕ, zero, suc, ◌+◌, ◌<◌, ◌≤◌, ◌≡◌, ◌≢◌, refl, sym, ◌∙◌, false, some, length, Bool-cases, inl, inr,
  arith,
}
use bx_ssh.Common.Text.{Text, text_eq_iff}
use bx_ssh.Common.Maps.{Map, contains_key, remove, lookup-remove, length-remove}
use bx_ssh.Desktop.Session.{ManagedSession, next_session_id}

-- The first n draws give n different ids.
abbrev pub IsFresh : ℕ → (ℕ → Text) → Type 0
IsFresh n draws = (i j : ℕ) → i < j → j < n → draws i ≢ draws j

module _ (draws : ℕ → Text) where
  pub next_session_id_free :
      (fuel i : ℕ) (m : Map ManagedSession) (id : Text)
      → next_session_id fuel draws i m ≡ some id
      → contains_key id m ≡ false
  unfolding next_session_id
  next_session_id_free zero i m id h = cc
  next_session_id_free (suc fuel) i m id h = ground (arith, next_session_id_free fuel (suc i) m id)

  contains_key-remove :
      (k j : Text) (m : Map ManagedSession) → k ≢ j → contains_key j (remove k m) ≡ contains_key j m
  contains_key-remove k j m n = ground (arith, lookup-remove k j m, text_eq_iff k j)

  next_session_id-remove :
      (n : ℕ)
      → IsFresh n draws
      → (fuel i j : ℕ) (m : Map ManagedSession) → i < j
      → j + fuel ≤ n
      → next_session_id fuel draws j (remove (draws i) m) ≡ next_session_id fuel draws j m
  unfolding next_session_id
  next_session_id-remove n fresh zero i j m h b = refl
  next_session_id-remove n fresh (suc fuel) i j m h b =
      rw (contains_key-remove (draws i) (draws j) m (fresh i j h (omega (arith, b))))
        (rw (next_session_id-remove n fresh fuel i (suc j) m (omega arith) (omega (arith, b))))

  next_session_id_found :
      (n : ℕ)
      → IsFresh n draws
      → (fuel i : ℕ) (m : Map ManagedSession) → length m < fuel
      → i + fuel ≤ n
      → (id : Text) × (next_session_id fuel draws i m ≡ some id)
  unfolding next_session_id
  next_session_id_found n fresh zero i m h b = absurd (omega arith)
  next_session_id_found n fresh (suc fuel) i m h b = elim (Bool-cases (contains_key (draws i) m)) [
    | inr free ↦ (draws i, rw free)
    | inl taken ↦
        let (id, e) =
          next_session_id_found n fresh fuel (suc i) (remove (draws i) m)
            (omega (arith, length-remove (draws i) m taken)) (omega (arith, b)) in
        (
          id,
          rw taken (
              sym (next_session_id-remove n fresh fuel i (suc i) m (omega arith) (omega (arith, b)))
              ∙ e),
        )
  ]

  -- If the draws give different ids for one round more than there are sessions, the loop ends within
  -- these rounds, with an id that no session has.
  pub next_session_id_total :
      (m : Map ManagedSession)
      → IsFresh (suc (length m)) draws
      → (id : Text) × (next_session_id (suc (length m)) draws 0 m ≡ some id)
        × (contains_key id m ≡ false)
  next_session_id_total m fresh =
      let (id, e) =
        next_session_id_found (suc (length m)) fresh (suc (length m)) 0 m (omega arith)
          (omega arith) in
      (id, e, next_session_id_free (suc (length m)) 0 m id e)
