-- ===== src/Domain.antt =====
-- internal/domain: identifiers, roles, claims and statuses.
-- A Go string type with named constants is a data type with a constructor for each constant and
-- one, `other`, for every other string that the type admits.
pub mod Node
use edgefabric.Prelude.{ℕ, String, Bool, true, false, Option}

-- domain.ID is a UUID; the program only compares UUIDs, so they are numbers here.
abbrev pub Uuid : Type 0
Uuid = ℕ

pub data Role : Type 0 where
  super_user admin read_only : Role
  other : String → Role

-- auth.Claims
pub record Claims : Type 0 where
  pub user_id : Uuid
  pub tenant_id : Option Uuid
  pub role : Role
  pub api_key_id : Option Uuid
  pub mfa_pending : Bool

abbrev pub is_super_user : Role → Bool
is_super_user Role.super_user = true
is_super_user _ = false

abbrev pub is_admin : Role → Bool
is_admin Role.admin = true
is_admin _ = false

abbrev pub is_read_only : Role → Bool
is_read_only Role.read_only = true
is_read_only _ = false
