-- ===== src/Oauth.antt =====
-- backend/app/services/oauth/service.py: signing in by an OAuth provider, and linking an account.
pub mod Base
pub mod Registry
pub mod Providers
pub mod Repository
pub mod Handshake
pub mod Resolution
pub mod Linking
use enterprise_auth_server.Common.{
  ℕ, Bool, true, false, not, ◌&&◌, ◌||◌, Option, none, some, List, [], ◌∷◌, ◌++◌, Text, ◌==◌,
  nat_eq, text_eq, if◌then◌else◌, non_empty, is_some,
}
use enterprise_auth_server.Core.Errors.{auth_error, conflict, not_found, value_error}
use enterprise_auth_server.Core.External.{Env}
use enterprise_auth_server.Core.Passwords.{hash_password}
use enterprise_auth_server.Core.Strings.{text, lower}
use enterprise_auth_server.Core.Uuid
use enterprise_auth_server.Models.{User, OauthAccount}
use enterprise_auth_server.State.Redis.{StatePayload, Value, payload, number, oauth_state}
use enterprise_auth_server.State.World.{World}
use enterprise_auth_server.State.Exec.{
  Exec, ◌>>=◌, ◌>>◌, pure, raise, gets, or_raise, raise_if, draw,
}
use enterprise_auth_server.State.Commands
use enterprise_auth_server.Users
use enterprise_auth_server.Users.{get_by_email, role_by_name}
use enterprise_auth_server.Accounts.{default_roles}
use Base.{OauthProvider, OauthUserInfo, authorization_url, uses_pkce}
use Registry.{get_provider}
use Providers.{exchange_code, fetch_user_info}
use Repository
use Repository.{get_by_provider_account}

abbrev pub login_mode : Text
login_mode = text "login"

abbrev pub link_mode : Text
link_mode = text "link"

-- s.rstrip("=")
strip_padding : Text → Text
strip_padding [] = []
strip_padding (c ∷ s) = elim (strip_padding s) [
  | [] ↦ if c == b'=' then [] else c ∷ []
  | d ∷ rest ↦ c ∷ d ∷ rest
]

-- `mode == "link" and link_user_id`
abbrev pub link_target : Text → Option Text → Option Text
link_target mode link_user_id = if mode == link_mode then non_empty link_user_id else none

-- `mode == "link" and link_user_id and str(account.user_id) != link_user_id`
abbrev pub linked_elsewhere : Option Text → OauthAccount → Bool
linked_elsewhere none account = false
linked_elsewhere (some link_user_id) account = not (Uuid.to_text account.user_id == link_user_id)

module _ {Token : Type 0} (env : Env Token) where
  -- `_pkce_challenge`
  unfoldable pub pkce_challenge : Text → Text
  unfolding strip_padding
  pkce_challenge verifier = strip_padding (env.sha256_base64url verifier)

  -- `_redirect_uri`
  unfoldable pub redirect_uri : Text → Text
  redirect_uri provider =
      env.settings.oauth_redirect_base_url
      ++ env.settings.api_v1_prefix
      ++ text "/auth/oauth/"
      ++ provider
      ++ text "/callback"

  -- `_provider_or_404`
  unfoldable pub provider_or_404 : Text → Exec OauthProvider
  unfolding get_provider
  provider_or_404 name =
      or_raise (not_found "OAuth provider is not available.") (get_provider env.settings name)

  new_verifier : Bool → Exec (Option Text)
  unfolding draw
  new_verifier false = pure none
  new_verifier true = do n ← draw; pure (some (env.new_secret n))

  abbrev challenge_of : Option Text → Option Text
  challenge_of none = none
  challenge_of (some v) = some (pkce_challenge v)

  -- `start_authorization`: the URL that the browser is sent to.
  unfoldable pub start_authorization : Text → Text → Option Text → Exec Text
  unfolding provider_or_404 draw new_verifier Commands.set pkce_challenge redirect_uri
      authorization_url
  start_authorization provider_name mode link_user_id = do
    provider ← provider_or_404 provider_name
    n ← draw
    let state = env.new_secret n
    code_verifier ← new_verifier (uses_pkce provider.kind)
    Commands.set (oauth_state state)
        (payload (record {
          provider = provider_name;
          code_verifier = code_verifier;
          mode = mode;
          link_user_id = link_user_id;
        }))
        env.settings.oauth_state_ttl_seconds
    pure (
        authorization_url env provider state (redirect_uri provider_name)
          (challenge_of (non_empty code_verifier)))

  -- `json.loads(raw)`: only `start_authorization` writes under these keys.
  abbrev loads : Value → Option StatePayload
  loads (number n) = none
  loads (payload p) = some p

  -- `_pop_state`
  unfoldable pub pop_state : Text → Text → Exec StatePayload
  unfolding Commands.get Commands.delete
  pop_state state provider_name = do
    raw ← Commands.get (oauth_state state)
    value ← or_raise (auth_error "Invalid or expired OAuth state.") raw
    Commands.delete (oauth_state state)
    p ← or_raise value_error (loads value)
    raise_if (not (p.provider == provider_name)) (auth_error "OAuth state does not match provider.")
    pure p

  -- The last part of `_resolve_user`: a fresh account for the identity.
  unfoldable pub create_user : OauthUserInfo → Text → Exec User
  unfolding draw lower hash_password role_by_name Users.add
  create_user info email = do
    n ← draw
    hashed ← hash_password env (env.new_secret n)
    role ← role_by_name (text "user")
    m ← draw
    let user : User = record {
      id = env.new_uuid m;
      email = lower email;
      hashed_password = hashed;
      full_name = info.name;
      is_active = true;
      is_verified = info.email_verified;
      is_superuser = false;
      roles = default_roles role;
    }
    Users.add user
    pure user

  -- A user with the email of the identity, if there is one.
  match_email : OauthUserInfo → Text → Option User → Exec User
  unfolding create_user
  match_email info email none = create_user info email
  match_email info email (some existing) =
      if info.email_verified && existing.is_verified
      then pure existing
      else raise (conflict "An account with this email already exists.")

  sign_in : OauthUserInfo → Exec User
  unfolding get_by_email match_email
  sign_in info = do
    email ←
        or_raise (auth_error "The provider did not return an email address.") (non_empty info.email)
    existing ← get_by_email email
    match_email info email existing

  linked_user : Text → Exec User
  unfolding Uuid.parse Users.get
  linked_user link_user_id = do
    id ← or_raise value_error (Uuid.parse link_user_id)
    found ← Users.get id
    or_raise (auth_error "Account to link no longer exists.") found

  unfoldable pub resolve_target : OauthUserInfo → Option Text → Exec User
  unfolding linked_user sign_in
  resolve_target info none = sign_in info
  resolve_target info (some link_user_id) = linked_user link_user_id

  -- `_resolve_user`
  unfoldable pub resolve_user : OauthUserInfo → Text → Option Text → Exec User
  unfolding resolve_target
  resolve_user info mode link_user_id = resolve_target info (link_target mode link_user_id)

  known_account : StatePayload → OauthAccount → Exec User
  unfolding Uuid.to_text Users.get
  known_account p account = do
    raise_if (linked_elsewhere (link_target p.mode p.link_user_id) account)
        (conflict "This provider account is already linked to another user.")
    found ← Users.get account.user_id
    or_raise (auth_error "Linked account no longer exists.") found

  -- The row that links the account to the user.
  add_link : Text → OauthUserInfo → User → Exec User
  unfolding draw Repository.add
  add_link provider_name info user = do
    n ← draw
    Repository.add (record {
      id = env.new_uuid n;
      user_id = user.id;
      provider = provider_name;
      provider_account_id = info.account_id;
      email = info.email;
    })
    pure user

  new_account : Text → StatePayload → OauthUserInfo → Exec User
  unfolding resolve_user add_link
  new_account provider_name p info = do
    user ← resolve_user info p.mode p.link_user_id
    add_link provider_name info user

  unfoldable pub user_of : Text → StatePayload → OauthUserInfo → Option OauthAccount → Exec User
  unfolding new_account known_account
  user_of provider_name p info none = new_account provider_name p info
  user_of provider_name p info (some account) = known_account p account

  -- `handle_callback`: the user and the mode
  unfoldable pub handle_callback : Text → Text → Text → Exec (User × Text)
  unfolding pop_state provider_or_404 exchange_code fetch_user_info redirect_uri
      get_by_provider_account user_of
  handle_callback provider_name code state = do
    p ← pop_state state provider_name
    provider ← provider_or_404 provider_name
    access_token ← exchange_code env provider code (redirect_uri provider_name) p.code_verifier
    info ← fetch_user_info env provider access_token
    account ← get_by_provider_account provider_name info.account_id
    user ← user_of provider_name p info account
    pure (user, p.mode)

-- `list_links`
unfoldable pub list_links : User → Exec (List OauthAccount)
unfolding Repository.list_for_user
list_links user = Repository.list_for_user user.id
