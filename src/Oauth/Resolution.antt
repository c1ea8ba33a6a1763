-- ===== src/Oauth/Resolution.antt =====
-- The user that `_resolve_user` of backend/app/services/oauth/service.py finds or creates.
use enterprise_auth_server.Common.{
  ℕ, ◌≡◌, ◌∙◌, true, false, Option, none, some, [], ◌∷◌, ◌++◌, Text, arith, find, ◌==◌, nat_eq,
  text_eq, non_empty, non_empty-eq-some,
}
use enterprise_auth_server.Core.External.{Env}
use enterprise_auth_server.Core.Strings.{lower}
use enterprise_auth_server.Core.Uuid
use enterprise_auth_server.Models.{User, Database}
use enterprise_auth_server.State.Redis.{StatePayload}
use enterprise_auth_server.State.World.{World}
use enterprise_auth_server.State.Exec.{ok}
use enterprise_auth_server.State.Reads.{after_or_raise, after_Reads}
use enterprise_auth_server.Users
use enterprise_auth_server.Users.{with_email, get_by_email}
use enterprise_auth_server.Users.Lookup.{get_by_email-Reads, email_row, no_email_row}
use enterprise_auth_server.Oauth.Base.{OauthUserInfo}
use enterprise_auth_server.Oauth.{
  linked_user, resolve_target, create_user, sign_in, match_email, link_target,
}

-- The user that the source resolves an identity to, from one state of the tables to the next.
pub data Resolved (p : StatePayload) (info : OauthUserInfo) (u : User) (before after : Database)
    : Type 0 where
  asked_for :
      (target : Text) (id : ℕ)
      → link_target p.mode p.link_user_id ≡ some target
      → Uuid.parse target ≡ some id
      → find (λ r. r.id == id) before.users ≡ some u
      → after.users ≡ before.users
      → Resolved p info u before after
  matched :
      (email : Text)
      → link_target p.mode p.link_user_id ≡ none
      → info.email ≡ some email
      → with_email email before.users ≡ u ∷ []
      → info.email_verified ≡ true
      → u.is_verified ≡ true
      → after.users ≡ before.users
      → Resolved p info u before after
  created :
      (email : Text)
      → link_target p.mode p.link_user_id ≡ none
      → info.email ≡ some email
      → with_email email before.users ≡ []
      → u.email ≡ lower email
      → u.is_verified ≡ info.email_verified
      → u.is_superuser ≡ false
      → after.users ≡ before.users ++ u ∷ []
      → Resolved p info u before after

module _ {Token : Type 0} (env : Env Token) where
  linked-Resolved :
      (p : StatePayload) (info : OauthUserInfo) (target : Text) (u : User) (w v : World)
      → link_target p.mode p.link_user_id ≡ some target
      → linked_user env target w ≡ (ok u, v)
      → Resolved p info u w.db v.db
  unfolding linked_user Users.get
  linked-Resolved p info target u w v e h =
      let (id, parsed, h1) = after_or_raise _ (Uuid.parse target) _ w u v h in
      asked_for target id e parsed (ground arith) (ground arith)

  created-Resolved :
      (p : StatePayload) (info : OauthUserInfo) (email : Text) (u : User) (w v : World)
      → link_target p.mode p.link_user_id ≡ none
      → info.email ≡ some email
      → with_email email w.db.users ≡ []
      → create_user env info email w ≡ (ok u, v)
      → Resolved p info u w.db v.db
  unfolding create_user
  created-Resolved p info email u w v e given free h =
      created email e given free (ground arith) (ground arith) (ground arith) (ground arith)

  -- A user with the email stands in the way, or is the one.
  matched-Resolved :
      (p : StatePayload) (info : OauthUserInfo) (email : Text) (o u : User) (w v : World)
      → link_target p.mode p.link_user_id ≡ none
      → info.email ≡ some email
      → with_email email w.db.users ≡ o ∷ []
      → match_email env info email (some o) w ≡ (ok u, v)
      → Resolved p info u w.db v.db
  unfolding match_email
  matched-Resolved p info email o u w v e given only h =
      matched email e given (ground (arith, only)) (ground arith) (ground arith) (ground arith)

  signed_in :
      (p : StatePayload) (info : OauthUserInfo) (email : Text) (o : Option User) (u : User)
      (w v : World)
      → link_target p.mode p.link_user_id ≡ none
      → info.email ≡ some email
      → (get_by_email email w).0 ≡ ok o
      → match_email env info email o w ≡ (ok u, v)
      → Resolved p info u w.db v.db
  unfolding match_email
  signed_in p info email none u w v e given found h =
      created-Resolved p info email u w v e given (no_email_row email w found) h
  signed_in p info email (some o) u w v e given found h =
      matched-Resolved p info email o u w v e given (email_row email o w found) h

  sign_in-Resolved :
      (p : StatePayload) (info : OauthUserInfo) (u : User) (w v : World)
      → link_target p.mode p.link_user_id ≡ none
      → sign_in env info w ≡ (ok u, v)
      → Resolved p info u w.db v.db
  unfolding sign_in
  sign_in-Resolved p info u w v e h =
      let (email, given, h1) = after_or_raise _ (non_empty info.email) _ w u v h in
      let (o, found, h2) = after_Reads _ w u v (get_by_email-Reads email) h1 in
      signed_in p info email o u w v e (non_empty-eq-some info.email email given) found h2

  pub resolve_user-Resolved :
      (p : StatePayload) (info : OauthUserInfo) (target : Option Text) (u : User) (w v : World)
      → link_target p.mode p.link_user_id ≡ target
      → resolve_target env info target w ≡ (ok u, v)
      → Resolved p info u w.db v.db
  unfolding resolve_target
  resolve_user-Resolved p info none u w v e h = sign_in-Resolved p info u w v e h
  resolve_user-Resolved p info (some t) u w v e h = linked-Resolved p info t u w v e h

  -- Only the last step of a new account touches the linked accounts.
  pub same_accounts :
      (info : OauthUserInfo) (target : Option Text) (w : World)
      → (resolve_target env info target w).1.db.oauth_accounts ≡ w.db.oauth_accounts
  unfolding resolve_target
  same_accounts info none w = ground arith
  same_accounts info (some t) w = ground arith

  pub users_only :
      (p : StatePayload) (info : OauthUserInfo) (u : User) (before between after : Database)
      → after.users ≡ between.users
      → Resolved p info u before between
      → Resolved p info u before after
  users_only p info u b m a same (asked_for target id e parsed found kept) =
      asked_for target id e parsed found (same ∙ kept)
  users_only p info u b m a same (matched email e given only theirs ours kept) =
      matched email e given only theirs ours (same ∙ kept)
  users_only p info u b m a same (created email e given free name verified plain added) =
      created email e given free name verified plain (same ∙ added)
