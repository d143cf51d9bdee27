-- ===== src/Models/User.antt =====
-- User accounts (src/document_core/models.py).
use document_feeder.Prelude.{ℕ, String, Bool, Option}

pub data UserRole : Type 0 where
  admin operator viewer : UserRole

pub record UserAccount : Type 0 where
  pub id : String
  pub username : String
  pub display_name : String
  pub role : UserRole
  pub active : Bool
  pub password_hash : String
  pub last_login_at : Option ℕ
  pub created_at : ℕ
  pub updated_at : ℕ

-- `UserView`, the account without its password
pub record UserView : Type 0 where
  pub id : String
  pub username : String
  pub display_name : String
  pub role : UserRole
  pub active : Bool
  pub last_login_at : Option ℕ
  pub created_at : ℕ
  pub updated_at : ℕ

pub record UserCreate : Type 0 where
  pub username : String
  pub display_name : String
  pub role : UserRole
  pub password : String

pub record UserUpdate : Type 0 where
  pub display_name : Option String
  pub role : Option UserRole
  pub active : Option Bool
  pub password : Option String

pub record LoginRequest : Type 0 where
  pub username : String
  pub password : String

pub record ProfileUpdate : Type 0 where
  pub display_name : Option String
  pub password : Option String
