-- ===== src/Routes/Schemas.antt =====
-- The bodies of answers: backend/app/schemas.
use enterprise_auth_server.Common.{
  ℕ, Bool, true, false, Option, List, [], ◌∷◌, ◌++◌, Text, ltb, ◌==◌, nat_eq, text_eq,
  if◌then◌else◌,
}
use enterprise_auth_server.Core.Strings.{text}
use enterprise_auth_server.Models.{User, Role, Permission, Session}

pub record Page {ℓ} (A : Type ℓ) : Type ℓ where
  pub items : List A
  pub total : ℕ
  pub limit : ℕ
  pub offset : ℕ

pub record UserRead : Type 0 where
  pub id : ℕ
  pub email : Text
  pub full_name : Text
  pub is_active : Bool
  pub is_verified : Bool
  pub is_superuser : Bool
  pub roles : List Text
  pub permissions : List Text

pub record SessionRead : Type 0 where
  pub session_id : ℕ
  pub device : Text
  pub device_type : Text
  pub browser : Text
  pub browser_version : Text
  pub os : Text
  pub os_version : Text
  pub ip : Text
  pub country : Option Text
  pub city : Option Text
  pub login_at : ℕ
  pub last_activity : ℕ
  pub current : Bool
  pub status : Text

pub record LastLoginRead : Type 0 where
  pub previous_login_at : Option ℕ
  pub previous_login_ip : Option Text
  pub previous_device : Option Text
  pub previous_browser : Option Text

-- `s <= t` on texts, by code points
unfoldable pub text_leb : Text → Text → Bool
text_leb [] t = true
text_leb (a ∷ s) [] = false
text_leb (a ∷ s) (b ∷ t) = if ltb a b then true else if ltb b a then false else text_leb s t

-- A sorted list without repetitions, with one more text.
unfoldable pub insert_text : Text → List Text → List Text
unfolding text_leb
insert_text s [] = s ∷ []
insert_text s (t ∷ ts) =
    let rest = insert_text s ts in
    if s == t then t ∷ ts else if text_leb s t then s ∷ t ∷ ts else t ∷ rest

-- `sorted({...})`
unfoldable pub sorted_set : List Text → List Text
unfolding insert_text
sorted_set [] = []
sorted_set (s ∷ ss) = insert_text s (sorted_set ss)

abbrev role_names : List Role → List Text
role_names [] = []
role_names (r ∷ rs) = r.name ∷ role_names rs

abbrev codes : List Permission → List Text
codes [] = []
codes (p ∷ ps) = p.code ∷ codes ps

abbrev permission_codes : List Role → List Text
permission_codes [] = []
permission_codes (r ∷ rs) = codes r.permissions ++ permission_codes rs

-- `UserRead.from_model`
unfoldable pub from_model : User → UserRead
unfolding sorted_set
from_model user = record {
  id = user.id;
  email = user.email;
  full_name = user.full_name;
  is_active = user.is_active;
  is_verified = user.is_verified;
  is_superuser = user.is_superuser;
  roles = sorted_set (role_names user.roles);
  permissions = sorted_set (permission_codes user.roles);
}

-- `_to_read` of backend/app/api/v1/sessions.py
unfoldable pub to_read : ℕ → Session → SessionRead
to_read current_uuid s = record {
  session_id = s.session_uuid;
  device = s.device_name;
  device_type = s.device_type;
  browser = s.browser;
  browser_version = s.browser_version;
  os = s.operating_system;
  os_version = s.operating_system_version;
  ip = s.ip_address;
  country = s.country;
  city = s.city;
  login_at = s.login_at;
  last_activity = s.last_activity_at;
  current = s.session_uuid == current_uuid;
  status = if s.is_active then text "active" else text "inactive";
}
