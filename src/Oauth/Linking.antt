-- ===== src/Oauth/Linking.antt =====
-- Whom a callback signs in: the owner of a linked account, the user who asked for the link, a user
-- with the same verified email, or a fresh one.
use enterprise_auth_server.Common.{
  ◌≡◌, refl, sym, subst, ap, ◌∙◌, false, Option, none, some, [], ◌∷◌, ◌++◌, Text, arith, find, ◌==◌,
  nat_eq, text_eq, text_beq_iff,
}
use enterprise_auth_server.Core.External.{Env}
use enterprise_auth_server.Models.{User, OauthAccount, Database}
use enterprise_auth_server.State.Redis.{StatePayload}
use enterprise_auth_server.State.World.{World}
use enterprise_auth_server.State.Exec.{Exec, ◌>>=◌, pure, ok, >>=-eq-ok}
use enterprise_auth_server.State.Reads.{whole, after_or_raise}
use enterprise_auth_server.State.Quiet.{IsQuiet, quiet_rules, after_quiet}
use enterprise_auth_server.Oauth.Base.{OauthUserInfo, OauthProvider}
use enterprise_auth_server.Oauth.Registry.{get_provider}
use enterprise_auth_server.Oauth.Repository.{is_account, get_by_provider_account}
use enterprise_auth_server.Oauth.Providers.{exchange_code, fetch_user_info}
use enterprise_auth_server.Oauth.Providers.Tables.{exchange_code-IsQuiet, fetch_user_info-IsQuiet}
use enterprise_auth_server.Oauth.{
  pop_state, redirect_uri, resolve_target, known_account, add_link, new_account, user_of,
  handle_callback, link_target, linked_elsewhere,
}
use enterprise_auth_server.Oauth.Resolution.{
  Resolved, resolve_user-Resolved, same_accounts, users_only,
}

-- The one row that a callback adds.
pub record IsLinked (provider : Text) (info : OauthUserInfo) (u : User) (before after : Database)
    : Type 0 where
  pub account : OauthAccount
  pub added : after.oauth_accounts ≡ before.oauth_accounts ++ account ∷ []
  pub same_provider : account.provider ≡ provider
  pub same_account : account.provider_account_id ≡ info.account_id
  pub owner : account.user_id ≡ u.id

pub data Identified (provider : Text) (p : StatePayload) (info : OauthUserInfo) (u : User)
    (before after : Database) : Type 0 where
  known :
      (a : OauthAccount)
      → find (is_account provider info.account_id) before.oauth_accounts ≡ some a
      → linked_elsewhere (link_target p.mode p.link_user_id) a ≡ false
      → find (λ r. r.id == a.user_id) before.users ≡ some u
      → after ≡ before
      → Identified provider p info u before after
  resolved :
      find (is_account provider info.account_id) before.oauth_accounts ≡ none
      → IsLinked provider info u before after
      → Resolved p info u before after
      → Identified provider p info u before after

module _ {Token : Type 0} (env : Env Token) where
  known-Identified :
      (provider : Text) (p : StatePayload) (info : OauthUserInfo) (a : OauthAccount) (u : User)
      (w v : World)
      → find (is_account provider info.account_id) w.db.oauth_accounts ≡ some a
      → known_account env p a w ≡ (ok u, v)
      → Identified provider p info u w.db v.db
  unfolding known_account
  known-Identified provider p info a u w v e h =
      known a e (ground (arith)) (ground arith) (ground arith)

  -- What `add_link` does for the user, in one go.
  record LinkAdded (provider : Text) (info : OauthUserInfo) (r u : User) (x v : World)
      : Type 0 where
    pub same_user : u ≡ r
    pub account : OauthAccount
    pub added : v.db.oauth_accounts ≡ x.db.oauth_accounts ++ account ∷ []
    pub of_provider : account.provider ≡ provider
    pub of_account : account.provider_account_id ≡ info.account_id
    pub of_user : account.user_id ≡ r.id
    pub same_users : v.db.users ≡ x.db.users

  add_link-LinkAdded :
      (provider : Text) (info : OauthUserInfo) (r u : User) (x v : World)
      → add_link env provider info r x ≡ (ok u, v)
      → LinkAdded provider info r u x v
  unfolding add_link
  add_link-LinkAdded provider info r u x v h = record {
    same_user = ground arith;
    account = record {
      id = env.new_uuid x.drawn;
      user_id = r.id;
      provider = provider;
      provider_account_id = info.account_id;
      email = info.email;
    };
    added = ground arith;
    of_provider = refl;
    of_account = refl;
    of_user = refl;
    same_users = ground arith;
  }

  new-Identified :
      (provider : Text) (p : StatePayload) (info : OauthUserInfo) (u : User) (w v : World)
      → find (is_account provider info.account_id) w.db.oauth_accounts ≡ none
      → new_account env provider p info w ≡ (ok u, v)
      → Identified provider p info u w.db v.db
  unfolding new_account
  new-Identified provider p info u w v e h =
      let target = link_target p.mode p.link_user_id in
      let m = resolve_target env info target in
      let (r, got, h1) = >>=-eq-ok m _ w u v h in
      let x = (m w).1 in
      let a = add_link-LinkAdded provider info r u x v h1 in
      let how =
        subst (λ u. Resolved p info u w.db x.db) (sym a.same_user)
          (resolve_user-Resolved env p info target r w x refl (whole m w r got)) in
      let linked : IsLinked provider info u w.db v.db = record {
        account = a.account;
        added = a.added ∙ ap (λ rows. rows ++ a.account ∷ []) (same_accounts env info target w);
        same_provider = a.of_provider;
        same_account = a.of_account;
        owner = a.of_user ∙ ap (λ (u : User). u.id) (sym a.same_user);
      } in
      resolved e linked (users_only env p info u w.db x.db v.db a.same_users how)

  user_of-Identified :
      (provider : Text) (p : StatePayload) (info : OauthUserInfo) (o : Option OauthAccount)
      (u : User) (w v : World)
      → find (is_account provider info.account_id) w.db.oauth_accounts ≡ o
      → user_of env provider p info o w ≡ (ok u, v)
      → Identified provider p info u w.db v.db
  unfolding user_of
  user_of-Identified provider p info none u w v e h = new-Identified provider p info u w v e h
  user_of-Identified provider p info (some a) u w v e h =
      known-Identified provider p info a u w v e h

  -- The last steps of a callback, once the profile is known.
  last_steps : Text → StatePayload → OauthUserInfo → Exec (User × Text)
  unfolding get_by_provider_account user_of
  last_steps provider p info = do
    account ← get_by_provider_account provider info.account_id
    user ← user_of env provider p info account
    pure (user, p.mode)

  last_steps-Identified :
      (provider : Text) (p : StatePayload) (info : OauthUserInfo) (u : User) (mode : Text)
      (w v : World)
      → last_steps provider p info w ≡ (ok (u, mode), v)
      → (p.mode ≡ mode) × Identified provider p info u w.db v.db
  unfolding last_steps
  last_steps-Identified provider p info u mode w v h =
      let o = find (is_account provider info.account_id) w.db.oauth_accounts in
      let m = user_of env provider p info o in
      let (r, got, h1) = >>=-eq-ok m (λ user. pure (user, p.mode)) w (u, mode) v h in
      let same : r ≡ u = ground (arith, h1) in
      let reached : (m w).1 ≡ v = ap (λ r. r.1) h1 in
      let done : m w ≡ (ok u, v) = whole m w r got ∙ (λ i. (ok (same i), reached i)) in
      (ground (arith, h1), user_of-Identified provider p info o u w v refl done)

  pop_state-IsQuiet : (state provider : Text) → IsQuiet (pop_state env state provider)
  unfolding pop_state
  pop_state-IsQuiet state provider = search quiet_rules depth 9

  pop_state-provider :
      (state provider : Text) (p : StatePayload) (w : World)
      → (pop_state env state provider w).0 ≡ ok p
      → p.provider ≡ provider
  unfolding pop_state
  pop_state-provider state provider p w h = ground (arith, text_beq_iff p.provider provider)

  -- What is known of a callback that succeeded.
  pub record Called (provider code state : Text) (u : User) (mode : Text) (w v : World)
      : Type 0 where
    pub handshake : StatePayload
    pub popped : (pop_state env state provider w).0 ≡ ok handshake
    pub same_provider : handshake.provider ≡ provider
    pub same_mode : handshake.mode ≡ mode
    pub service : OauthProvider
    pub configured : get_provider env.settings provider ≡ some service
    pub access_token : Text
    pub at_exchange : World
    pub exchanged :
        (exchange_code env service code
          (redirect_uri env provider)
          handshake.code_verifier
          at_exchange).0
        ≡ ok access_token
    pub info : OauthUserInfo
    pub at_fetch : World
    pub fetched : (fetch_user_info env service access_token at_fetch).0 ≡ ok info
    pub identified : Identified provider handshake info u w.db v.db

  -- A callback that succeeds has used up a state of its provider, which is configured, has exchanged the
  -- code and fetched a profile, and signs in: the user of the account that is linked already, unless
  -- another user asked for the link; else the user who asked for the link; else the only user with
  -- the email of the profile, where both sides have verified it; else a fresh ordinary user with that
  -- email, which nobody had. In the last three cases it adds one row, which links the account to the
  -- user, and but for the fresh user it leaves the users as they are.
  pub handle_callback-Called :
      (provider code state : Text) (u : User) (mode : Text) (w v : World)
      → handle_callback env provider code state w ≡ (ok (u, mode), v)
      → Called provider code state u mode w v
  unfolding handle_callback last_steps
  handle_callback-Called provider code state u mode w v h =
      let (p, x1, e1, d1, h1) = after_quiet _ w (u, mode) v (pop_state-IsQuiet state provider) h in
      let (service, e2, h2) =
        after_or_raise _ (get_provider env.settings provider) _ x1 (u, mode) v h1 in
      let (t, x3, e3, d3, h3) =
        after_quiet _ x1 (u, mode) v
          (exchange_code-IsQuiet env service code (redirect_uri env provider) p.code_verifier) h2 in
      let (info, x4, e4, d4, h4) =
        after_quiet _ x3 (u, mode) v (fetch_user_info-IsQuiet env service t) h3 in
      let (same, how) = last_steps-Identified provider p info u mode x4 v h4 in
      let tables : x4.db ≡ w.db = d4 ∙ d3 ∙ d1 in
      record {
        handshake = p;
        popped = e1;
        same_provider = pop_state-provider state provider p w e1;
        same_mode = same;
        service = service;
        configured = e2;
        access_token = t;
        at_exchange = x1;
        exchanged = e3;
        info = info;
        at_fetch = x3;
        fetched = e4;
        identified = subst (λ d. Identified provider p info u d v.db) tables how;
      }
