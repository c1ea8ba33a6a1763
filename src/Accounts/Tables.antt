-- ===== src/Accounts/Tables.antt =====
-- Checking a password changes no table but that of the users.
use enterprise_auth_server.Common.{ℕ, Bool, true, false, Option, none, some, List, Text, arith}
use enterprise_auth_server.Core.External.{Env}
use enterprise_auth_server.Core.Passwords.{hash_password}
use enterprise_auth_server.Models.{User, Database}
use enterprise_auth_server.State.Keeps.{Keeps, same_tables, keeps_rules}
use enterprise_auth_server.RateLimit.Tables.{limit_rules}
use enterprise_auth_server.Users
use enterprise_auth_server.Users.{get_by_email}
use enterprise_auth_server.Accounts.{stored_hash, rehash, reject, accept, decide, authenticate}

module _ {Token : Type 0} (env : Env Token) {P : Database → Type 0}
    (users_free : (db : Database) (us : List User) → P db → P (record db { users = us })) where
  hash_password-Keeps : (t : Text) → Keeps P (hash_password env t)
  unfolding hash_password
  hash_password-Keeps t = search keeps_rules

  get_by_email-Keeps : (email : Text) → Keeps P (get_by_email email)
  unfolding get_by_email
  get_by_email-Keeps email = same_tables (get_by_email email) λ w. (ground arith, ground arith)

  save-Keeps : (id : ℕ) (f : User → User) → Keeps P (Users.save id f)
  unfolding Users.save
  save-Keeps id f = record {
    at = λ w h. record { open_db = users_free w.db _ h.open_db; committed_db = h.committed_db };
  }

  stored_hash-Keeps : (found : Option User) → Keeps P (stored_hash env found)
  unfolding stored_hash
  stored_hash-Keeps none = search (keeps_rules, hash_password-Keeps)
  stored_hash-Keeps (some user) = search keeps_rules

  accept-Keeps :
      (email password : Text) (ip : Option Text) (user : User)
      → Keeps P (accept env email password ip user)
  unfolding accept rehash
  accept-Keeps email password ip user =
      search (keeps_rules, limit_rules, hash_password-Keeps, save-Keeps) depth 9

  decide-Keeps :
      (email password : Text) (ip : Option Text) (found : Option User) (good : Bool)
      → Keeps P (decide env email password ip found good)
  unfolding decide reject
  decide-Keeps email password ip none good = search (keeps_rules, limit_rules) depth 9
  decide-Keeps email password ip (some user) false = search (keeps_rules, limit_rules) depth 9
  decide-Keeps email password ip (some user) true = accept-Keeps email password ip user

  pub authenticate-Keeps :
      (email password : Text) (ip : Option Text) → Keeps P (authenticate env email password ip)
  unfolding authenticate
  authenticate-Keeps email password ip =
      search (keeps_rules, limit_rules, get_by_email-Keeps, stored_hash-Keeps, decide-Keeps) depth 9
