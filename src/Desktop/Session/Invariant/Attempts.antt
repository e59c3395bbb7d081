-- ===== src/Desktop/Session/Invariant/Attempts.antt =====
-- The part of the invariant that is about attempts, over the map as a function.
use bx_ssh.Common.{ℕ, ◌+◌, ◌<◌, ◌≡◌, Bool, true, Option, none, some, arith, if◌then◌else◌}
use bx_ssh.Common.Text.{Text, text_eq, text_eq_iff}
use bx_ssh.Desktop.Session.{ConnectionAttempt}

-- Attempts go by random UUIDs, and each has a handle of its own that was given out.
pub record AttemptsInv (is_random_uuid : Text → Bool) (get : Text → Option ConnectionAttempt)
    (next : ℕ) : Type 0 where
  pub uuid : (id : Text) (a : ConnectionAttempt) → get id ≡ some a → is_random_uuid id ≡ true
  pub used : (id : Text) (a : ConnectionAttempt) → get id ≡ some a → a.cancellation < next
  pub unique :
      (id j : Text) (a b : ConnectionAttempt)
      → get id ≡ some a
      → get j ≡ some b
      → a.cancellation ≡ b.cancellation
      → id ≡ j

module _ {is_random_uuid : Text → Bool} {get get' : Text → Option ConnectionAttempt} {next : ℕ}
    (v : AttemptsInv is_random_uuid get next) (id : Text) where
  -- An attempt under an unused id takes the next handle.
  pub AttemptsInv-add :
      (a : ConnectionAttempt)
      → is_random_uuid id ≡ true
      → a.cancellation ≡ next
      → ((j : Text) → get' j ≡ (if text_eq id j then some a else get j))
      → AttemptsInv is_random_uuid get' (next + 1)
  AttemptsInv-add a u c same = record {
    uuid = λ j b h. ground (arith, same j, text_eq_iff id j, v.uuid j b);
    used = λ j b h. ground (arith, same j, v.used j b);
    unique = λ i j b d hb hd e. ground (
      arith,
      same i,
      same j,
      text_eq_iff id i,
      text_eq_iff id j,
      v.used i b,
      v.used j d,
      v.unique i j b d,
    );
  }

  -- An attempt that changes keeps its handle.
  pub AttemptsInv-update :
      (a a' : ConnectionAttempt)
      → get id ≡ some a
      → a'.cancellation ≡ a.cancellation
      → ((j : Text) → get' j ≡ (if text_eq id j then some a' else get j))
      → AttemptsInv is_random_uuid get' next
  AttemptsInv-update a a' g c same = record {
    uuid = λ j b h. ground (arith, same j, text_eq_iff id j, v.uuid j b, v.uuid id a);
    used = λ j b h. ground (arith, same j, v.used j b, v.used id a);
    unique = λ i j b d hb hd e. ground (
      arith,
      same i,
      same j,
      text_eq_iff id i,
      text_eq_iff id j,
      v.unique i j b d,
      v.unique id j a d,
      v.unique i id b a,
    );
  }

  pub AttemptsInv-remove :
      ((j : Text) → get' j ≡ (if text_eq id j then none else get j))
      → AttemptsInv is_random_uuid get' next
  AttemptsInv-remove same = record {
    uuid = λ j b h. ground (arith, same j, v.uuid j b);
    used = λ j b h. ground (arith, same j, v.used j b);
    unique = λ i j b d hb hd e. ground (arith, same i, same j, v.unique i j b d);
  }
