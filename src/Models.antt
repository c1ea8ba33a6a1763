-- ===== src/Models.antt =====
-- backend/app/models: the rows of each table, and the database as the tables together. The columns
-- created_at and updated_at are filled in by the database server and left out, as is `is_current`,
-- which no code reads.
pub mod Guid
use enterprise_auth_server.Common.{ℕ, Bool, Option, List, Text, text_eq}

pub record Permission : Type 0 where
  pub code : Text
  pub description : Text

pub record Role : Type 0 where
  pub name : Text
  pub permissions : List Permission

pub record User : Type 0 where
  pub id : ℕ
  pub email : Text
  pub hashed_password : Text
  pub full_name : Text
  pub is_active : Bool
  pub is_verified : Bool
  pub is_superuser : Bool
  pub roles : List Role

pub record Session : Type 0 where
  pub id : ℕ
  pub user_id : ℕ
  pub session_uuid : ℕ
  pub refresh_token_id : Text
  pub device_name : Text
  pub device_type : Text
  pub browser : Text
  pub browser_version : Text
  pub operating_system : Text
  pub operating_system_version : Text
  pub user_agent : Text
  pub ip_address : Text
  pub country : Option Text
  pub city : Option Text
  pub login_at : ℕ
  pub last_activity_at : ℕ
  pub logout_at : Option ℕ
  pub expires_at : ℕ
  pub logout_reason : Option Text
  pub is_active : Bool
  pub request_count : ℕ

pub record TwoFactorAuth : Type 0 where
  pub id : ℕ
  pub user_id : ℕ
  pub encrypted_secret : Text
  pub enabled : Bool
  pub verified_at : Option ℕ

pub record BackupCode : Type 0 where
  pub id : ℕ
  pub user_id : ℕ
  pub hashed_code : Text
  pub used_at : Option ℕ

pub data Purpose : Type 0 where
  verify_email reset_password change_email : Purpose

pub record EmailToken : Type 0 where
  pub id : ℕ
  pub user_id : ℕ
  pub token_hash : Text
  pub purpose : Purpose
  pub new_email : Option Text
  pub expires_at : ℕ
  pub used_at : Option ℕ

pub record OauthAccount : Type 0 where
  pub id : ℕ
  pub user_id : ℕ
  pub provider : Text
  pub provider_account_id : Text
  pub email : Option Text

pub record Database : Type 0 where
  pub users : List User
  pub sessions : List Session
  pub two_factor : List TwoFactorAuth
  pub backup_codes : List BackupCode
  pub email_tokens : List EmailToken
  pub oauth_accounts : List OauthAccount
  pub roles : List Role
  pub permissions : List Permission
