-- ===== src/Routes/UserRoutes/Listing.antt =====
-- Who may list the users, and what a page of them holds.
use enterprise_auth_server.Common.{
  ℕ, ◌≤◌, ◌≡◌, refl, ap, true, not, ◌&&◌, leb, some, List, Text, arith, map, take, drop, length,
  length-take, suc, [], ◌∷◌, subst, false,
}
use enterprise_auth_server.Core.External.{Env}
use enterprise_auth_server.Core.Strings.{text}
use enterprise_auth_server.Models.{User}
use enterprise_auth_server.State.World.{World}
use enterprise_auth_server.State.Exec.{ok, ◌>>=◌, pure, >>=-eq-ok}
use enterprise_auth_server.State.Reads.{whole, Reads, after_Reads, after_raise_if}
use enterprise_auth_server.Users.{has_permission, require_permission, list_all, count_all}
use enterprise_auth_server.Routes.Http.{Request}
use enterprise_auth_server.Routes.Access.{get_auth_context, get_current_user}
use enterprise_auth_server.Routes.Access.Gate.{Admitted, get_auth_context-Admitted}
use enterprise_auth_server.Routes.Schemas.{Page, UserRead, from_model}
use enterprise_auth_server.Routes.SessionRoutes.{check_page}
use enterprise_auth_server.Routes.UserRoutes.{list_users}

length-map : (us : List User) → length (map from_model us) ≡ length us
length-map [] = refl
length-map (u ∷ us) = ap suc (length-map us)

-- Who passes the check has the permission.
permitted :
    (code : Text) (user : User) (w : World) (u : User)
    → (require_permission code user w).0 ≡ ok u
    → has_permission code user ≡ true
unfolding require_permission
permitted code user w u h = ground (arith, h)

permission-Reads : (code : Text) (user : User) → Reads (require_permission code user)
unfolding require_permission
permission-Reads code user = record { same = λ w. ground arith }

in_bounds : (limit : ℕ) → not (leb 1 limit && leb limit 200) ≡ false → (1 ≤ limit) × (limit ≤ 200)
in_bounds limit h = (ground (arith, h), ground (arith, h))

module _ {Token : Type 0} (env : Env Token) where
  current_user-Admitted :
      (request : Request Token) (user : User) (w v : World)
      → get_current_user env request w ≡ (ok user, v)
      → Admitted env request user w
  unfolding get_current_user
  current_user-Admitted request user w v h =
      let (ctx, e, k) = >>=-eq-ok (get_auth_context env request) _ w user v h in
      let a =
        get_auth_context-Admitted env request ctx w _
          (whole (get_auth_context env request) w ctx e) in
      subst (λ u. Admitted env request u w) (ground (arith, k)) a

  -- A page that was answered, and to whom.
  pub record Listed (request : Request Token) (limit offset : ℕ) (page : Page UserRead)
      (w v : World) : Type 0 where
    pub user : User
    pub admitted : Admitted env request user w
    pub allowed : has_permission (text "manage_users") user ≡ true
    pub limit_bounds : (1 ≤ limit) × (limit ≤ 200)
    pub items : page.items ≡ map from_model (take limit (drop offset v.db.users))
    pub at_most : length page.items ≤ limit
    pub total : page.total ≡ length v.db.users

  read_page :
      (limit offset : ℕ) (page : Page UserRead) (y v : World)
      → (list_all (some limit) offset >>= λ users. count_all >>= λ total. pure (record {
        items = map from_model users;
        total = total;
        limit = limit;
        offset = offset;
      }))
          y
        ≡ (ok page, v)
      → (page.items ≡ map from_model (take limit (drop offset v.db.users)))
        × (page.total ≡ length v.db.users)
  unfolding list_all count_all
  read_page limit offset page y v h = (ground (arith, h), ground (arith, h))

  -- A page of users is answered only to a request that `get_auth_context` lets through, of a user who
  -- has the permission manage_users, for a limit from 1 to 200. It holds the users that stand from
  -- the offset on, at most as many as the limit, and the number of all users.
  pub list_users-Listed :
      (request : Request Token) (limit offset : ℕ) (page : Page UserRead) (w v : World)
      → list_users env request limit offset w ≡ (ok page, v)
      → Listed request limit offset page w v
  unfolding list_users check_page
  list_users-Listed request limit offset page w v h =
      let (user, e, h1) = >>=-eq-ok (get_current_user env request) _ w page v h in
      let y = (get_current_user env request w).1 in
      let (_, passed, h2) =
        after_Reads _ y page v (permission-Reads (text "manage_users") user) h1 in
      let (bounds, h3) = after_raise_if (not (leb 1 limit && leb limit 200)) _ _ y page v h2 in
      let (items, total) = read_page limit offset page y v h3 in
      record {
        user = user;
        admitted =
            current_user-Admitted request user w y (whole (get_current_user env request) w user e);
        allowed = permitted (text "manage_users") user y _ passed;
        limit_bounds = in_bounds limit bounds;
        items = items;
        at_most = rw items (
            rw (length-map (take limit (drop offset v.db.users)))
              (length-take limit (drop offset v.db.users)));
        total = total;
      }
