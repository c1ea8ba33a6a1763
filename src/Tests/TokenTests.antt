-- ===== src/Tests/TokenTests.antt =====
-- Instances of the theorems on services/token.py and on UUIDs.
use enterprise_auth_server.Common.{◌≡◌, refl, true, false, none, some, Text, arith}
use enterprise_auth_server.Core.Claims.{Claims}
use enterprise_auth_server.Core.Errors.{auth_error, token_replay}
use enterprise_auth_server.Core.Strings.{text}
use enterprise_auth_server.Core.Uuid
use enterprise_auth_server.State.World.{World, wait}
use enterprise_auth_server.State.Exec.{ok, err}
use enterprise_auth_server.Tokens.{
  issue_pair, rotate, verify_access, verify_refresh, verify_pre_auth,
}
use enterprise_auth_server.Tokens.Replay.{verify_refresh-rotate}
use enterprise_auth_server.Tokens.Issued.{
  kinds_are_separate, verify_access-issue_pair, access_claims, refresh_claims,
}
use enterprise_auth_server.Tests.Fixtures.{env, env_jwt, start, refresh_token}

to_text_small : Uuid.to_text 305419896 ≡ text "00000000-0000-0000-0000-000012345678"
unfolding Uuid.to_text
to_text_small = refl

-- Half a second into a second of the clock.
abbrev half_past : World
half_past = record start { now = 100500000 }

abbrev rotated : World
rotated = (rotate env refresh_token half_past).1

-- The token is refused as a replay 604698 seconds later.
replay_is_refused :
    (verify_refresh env refresh_token (wait 604698000000 rotated)).0 ≡ err token_replay
unfolding rotate
replay_is_refused =
    verify_refresh-rotate env refresh_token refresh_token (text "r1") 604800 604698000000 _
      half_past rotated refl refl (λ e. cc) refl (omega arith) refl refl

-- Another second later, half a second before it expires, it is accepted again.
verify_refresh-rotate_example :
    (verify_refresh env refresh_token (wait 604699000000 rotated)).0 ≡ ok refresh_token
unfolding rotate
verify_refresh-rotate_example =
    verify_refresh-rotate env refresh_token refresh_token (text "r1") 604800 604699000000 _
      half_past rotated refl refl (λ e. cc) refl (omega arith) refl refl

abbrev user_text : Text
user_text = text "u"

abbrev issued : World
issued = (issue_pair env user_text true none start).1

kinds_are_separate_example :
    ((verify_refresh env (access_claims env env_jwt user_text none start) issued).0
      ≡ err (auth_error "Invalid or expired refresh token."))
    × ((verify_access env (refresh_claims env env_jwt user_text true none start) issued).0
        ≡ err (auth_error "Invalid or expired access token."))
    × ((verify_pre_auth env (access_claims env env_jwt user_text none start) issued).0
        ≡ err (auth_error "Invalid or expired pre-authentication token."))
    × ((verify_pre_auth env (refresh_claims env env_jwt user_text true none start) issued).0
        ≡ err (auth_error "Invalid or expired pre-authentication token."))
unfolding issue_pair
kinds_are_separate_example =
    kinds_are_separate env env_jwt user_text true none
      (record {
        access = access_claims env env_jwt user_text none start;
        refresh = refresh_claims env env_jwt user_text true none start;
        refresh_ttl = 2592000000000;
      })
      (Uuid.to_text 51) start issued issued refl

verify_access-issue_pair_example :
    (verify_access env (access_claims env env_jwt user_text none start) (wait 900000000 issued)).0
    ≡ err (auth_error "Invalid or expired access token.")
unfolding issue_pair
verify_access-issue_pair_example =
    verify_access-issue_pair env env_jwt user_text true none
      (record {
        access = access_claims env env_jwt user_text none start;
        refresh = refresh_claims env env_jwt user_text true none start;
        refresh_ttl = 2592000000000;
      })
      (Uuid.to_text 51) start issued (wait 900000000 issued) refl

abbrev rotated_at_start : World
rotated_at_start = (rotate env refresh_token start).1

abbrev renewed : Claims
renewed = refresh_claims env env_jwt (Uuid.to_text 7) false (some (Uuid.to_text 41)) start
