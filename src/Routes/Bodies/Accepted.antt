-- ===== src/Routes/Bodies/Accepted.antt =====
-- What the bodies of backend/app/schemas let through: the codes of authenticator apps, and the recovery
-- codes that services/two_factor.py hands out.
use enterprise_auth_server.Common.{
  ℕ, ◌+◌, ◌≤◌, ◌≡◌, ◌↔◌, refl, Bool, true, false, Option, some, [], ◌∷◌, ◌++◌, Text, length,
  length-append, length-take_exact, length-drop, take, drop, All, arith,
}
use enterprise_auth_server.Core.External.{Env}
use enterprise_auth_server.State.World.{World}
use enterprise_auth_server.State.Exec.{ok}
use enterprise_auth_server.TwoFactor.{generate_code}
use enterprise_auth_server.Routes.Bodies.{
  sized, all_digits, six_digits, or_else, RecoveryLoginRequest, recovery_login_request,
}

all_digits_iff :
    (digit : ℕ → Bool) (t : Text) → (all_digits digit t ≡ true) ↔ All (λ c. digit c ≡ true) t
unfolding all_digits
all_digits_iff digit [] = (λ h. tt, λ a. refl)
all_digits_iff digit (c ∷ s) =
    let ih = all_digits_iff digit s in
    (λ h. (ground arith, ih.0 (ground arith)), λ a. ground (arith, a.0, ih.1 a.1))

sized_iff : (lo hi : ℕ) (t : Text) → (sized lo hi t ≡ some t) ↔ ((lo ≤ length t) × (length t ≤ hi))
unfolding sized
sized_iff lo hi t = ground arith

-- A one-time code is let through exactly when it has six characters, all of which `\d` matches.
pub six_digits_iff :
    (digit : ℕ → Bool) (t : Text)
    → (six_digits digit t ≡ some t) ↔ ((length t ≡ 6) × All (λ c. digit c ≡ true) t)
unfolding six_digits
six_digits_iff digit t = ground (arith, sized_iff 6 6 t, all_digits_iff digit t)

-- Four characters from a position on, where there are as many.
length-group : (i : ℕ) (raw : Text) → i + 4 ≤ length raw → length (take 4 (drop i raw)) ≡ 4
length-group i raw h = length-take_exact 4 (drop i raw) (omega (arith, length-drop i raw))

-- Every recovery code of twelve drawn characters is let through as it was handed out.
pub recovery_login_request-generate_code :
    {Token : Type 0} (env : Env Token) (pre_auth_token : Text) (remember_me : Option Bool)
    (w v : World) (code : Text)
    → generate_code env w ≡ (ok code, v)
    → length (env.new_secret w.drawn) ≡ 12
    → (b : RecoveryLoginRequest) × (recovery_login_request pre_auth_token code remember_me ≡ some b)
      × (b.recovery_code ≡ code)
unfolding generate_code recovery_login_request
recovery_login_request-generate_code env pre_auth_token remember_me w v code h l =
    let raw = env.new_secret w.drawn in
    let back = b'-' ∷ take 4 (drop 8 raw) in
    let long : length code ≡ 14 = ground (
      arith,
      length-append (take 4 (drop 0 raw)) (b'-' ∷ (take 4 (drop 4 raw) ++ back)),
      length-append (take 4 (drop 4 raw)) back,
      length-group 0 raw (omega arith),
      length-group 4 raw (omega arith),
      length-group 8 raw (omega arith),
    ) in
    let fits = (sized_iff 8 32 code).1 (omega arith) in
    (
      record {
        pre_auth_token = pre_auth_token;
        recovery_code = code;
        remember_me = or_else false remember_me;
      },
      rw (recovery_login_request, fits) refl,
      refl,
    )
