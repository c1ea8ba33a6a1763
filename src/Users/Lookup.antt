-- ===== src/Users/Lookup.antt =====
-- What the lookups of backend/app/repositories/user.py answer.
use enterprise_auth_server.Common.{◌≡◌, none, some, [], ◌∷◌, Text, arith}
use enterprise_auth_server.Models.{User}
use enterprise_auth_server.State.World.{World}
use enterprise_auth_server.State.Exec.{ok}
use enterprise_auth_server.State.Reads.{Reads}
use enterprise_auth_server.Users.{get_by_email, with_email}

pub get_by_email-Reads : (email : Text) → Reads (get_by_email email)
unfolding get_by_email
get_by_email-Reads email = record { same = λ w. ground arith }

pub email_row :
    (email : Text) (u : User) (w : World)
    → (get_by_email email w).0 ≡ ok (some u)
    → with_email email w.db.users ≡ u ∷ []
unfolding get_by_email
email_row email u w h = ground arith

pub no_email_row :
    (email : Text) (w : World)
    → (get_by_email email w).0 ≡ ok none
    → with_email email w.db.users ≡ []
unfolding get_by_email
no_email_row email w h = ground arith
