-- ===== src/Contracts/Group/Validity.antt =====
-- What `ConnectionGroup::validate` accepts.
use bx_ssh.Common.{◌≡◌, ◌↔◌, ok, arith}
use bx_ssh.Contracts.Colors.{IsHexColor}
use bx_ssh.Contracts.Connection.Validity.{IsWritten, IsOptional, IsWritten-iff, IsOptional-hex_iff}
use bx_ssh.Contracts.Group.{ConnectionGroup, validate}

pub record IsValidGroup (g : ConnectionGroup) : Type 0 where
  pub id_written : IsWritten g.id
  pub name_written : IsWritten g.name
  pub color_hex : IsOptional IsHexColor g.color

-- A group is accepted exactly when its id and name are not blank and its color, if it has one, is a
-- hash mark with six hexadecimal digits.
pub validate_group_ok_iff : (g : ConnectionGroup) → (validate g ≡ ok tt) ↔ IsValidGroup g
unfolding validate
validate_group_ok_iff g = (
  λ h. record {
    id_written = (IsWritten-iff g.id).0 (ground arith);
    name_written = (IsWritten-iff g.name).0 (ground arith);
    color_hex = (IsOptional-hex_iff g.color).0 (ground arith);
  },
  λ v.
      rw ((IsWritten-iff g.id).1 v.id_written, (IsWritten-iff g.name).1 v.name_written)
        (rw ((IsOptional-hex_iff g.color).1 v.color_hex)),
)
