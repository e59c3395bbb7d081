-- ===== src/Persistence/Integers.antt =====
-- crates/persistence/src/repository.rs: INTEGER columns (i64) and their conversions.
use bx_ssh.Common.{
  ℕ, suc, ◌-◌, ◌^◌, Bool, true, false, Result, ok, err, ltb, leb, ◌==◌, if◌then◌else◌,
}
use bx_ssh.Persistence.Error.{PersistenceError, Entity, invalid_timestamp, invalid_stored_record}

-- A stored integer: n, or -(n + 1).
pub data ℤ : Type 0 where
  pos negsuc : ℕ → ℤ

-- SQL's `x + 1`, `x >= y` turned round, and `x = y`.
unfoldable pub increment : ℤ → ℤ
increment (pos n) = pos (suc n)
increment (negsuc n) = if n == 0 then pos 0 else negsuc (n - 1)

unfoldable pub at_most : ℤ → ℤ → Bool
at_most (pos a) (pos b) = leb a b
at_most (pos a) (negsuc b) = false
at_most (negsuc a) (pos b) = true
at_most (negsuc a) (negsuc b) = leb b a

-- `params!` binds a bool as 0 or 1.
unfoldable pub bool_value : Bool → ℤ
bool_value false = pos 0
bool_value true = pos 1

module _ {E : Type 0} where
  -- `timestamp_to_i64` and `usize_to_i64`: i64 holds less than 2 ^ 63.
  unfoldable pub timestamp_to_i64 : ℕ → Result (PersistenceError E) ℤ
  timestamp_to_i64 value = if ltb value (2 ^ 63) then ok (pos value) else err invalid_timestamp

  -- `stored_u64`, `stored_u32`, `stored_bool`, and `u16::try_from` of a port.
  unfoldable pub stored_u64 : ℤ → Entity → Result (PersistenceError E) ℕ
  stored_u64 (pos n) entity = ok n
  stored_u64 (negsuc n) entity = err (invalid_stored_record entity)

  unfoldable pub stored_below : ℕ → ℤ → Entity → Result (PersistenceError E) ℕ
  stored_below bound (pos n) entity =
      if ltb n bound then ok n else err (invalid_stored_record entity)
  stored_below bound (negsuc n) entity = err (invalid_stored_record entity)

  unfoldable pub stored_u32 : ℤ → Entity → Result (PersistenceError E) ℕ
  unfolding stored_below
  stored_u32 = stored_below (2 ^ 32)

  unfoldable pub stored_u16 : ℤ → Entity → Result (PersistenceError E) ℕ
  unfolding stored_below
  stored_u16 = stored_below (2 ^ 16)

  unfoldable pub stored_bool : ℤ → Entity → Result (PersistenceError E) Bool
  stored_bool (pos n) entity =
      if n == 0 then ok false else if n == 1 then ok true else err (invalid_stored_record entity)
  stored_bool (negsuc n) entity = err (invalid_stored_record entity)
