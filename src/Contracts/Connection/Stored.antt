-- ===== src/Contracts/Connection/Stored.antt =====
-- The names of the methods of authentication in the database.
use bx_ssh.Common.{◌≡◌, ◌↔◌, refl, some, arith}
use bx_ssh.Common.Text.{Text, codes, text_eq_iff}
use bx_ssh.Contracts.Connection.{
  AuthMethod, password, private_key, keyboard_interactive, database_value, from_database_value,
}

stored_value : (v : Text) (m : AuthMethod) → from_database_value v ≡ some m → v ≡ database_value m
unfolding from_database_value database_value
stored_value v password h = (text_eq_iff v (codes "password")).0 (ground arith)
stored_value v private_key h = (text_eq_iff v (codes "private_key")).0 (ground arith)
stored_value v keyboard_interactive h =
    (text_eq_iff v (codes "keyboard_interactive")).0 (ground arith)

read_stored : (m : AuthMethod) → from_database_value (database_value m) ≡ some m
unfolding from_database_value database_value
read_stored password = refl
read_stored private_key = refl
read_stored keyboard_interactive = refl

-- A stored name is read as a method exactly when it is the name that the method is stored under.
pub from_database_value_iff :
    (v : Text) (m : AuthMethod) → (from_database_value v ≡ some m) ↔ (v ≡ database_value m)
from_database_value_iff v m = (stored_value v m, λ e. rw e (read_stored m))
