-- ===== src/Core/Client/Lengths.antt =====
-- How long the texts are that backend/app/core/useragent.py records of a client.
use enterprise_auth_server.Common.{
  ◌≤◌, ℕ, Option, none, some, [], ◌∷◌, ◌++◌, Text, length, length-take, length-append, arith,
}
use enterprise_auth_server.Core.Strings.{strip, lstrip, rstrip}
use enterprise_auth_server.Core.External.{Env, UserAgent}
use enterprise_auth_server.Core.Client.{
  DeviceInfo, or_default, clean, device_type_of, parse_user_agent,
}

-- The text, where there is one, has at most so many characters.
abbrev pub Within : ℕ → Option Text → Type 0
Within n none = Unit
Within n (some t) = length t ≤ n

-- What the user-agent parser reports has room in the columns of a session.
pub record IsShort (ua : UserAgent) : Type 0 where
  pub device : Within 128 ua.device_family
  pub browser : Within 64 ua.browser_family
  pub browser_version : length ua.browser_version ≤ 32
  pub os : Within 64 ua.os_family
  pub os_version : length ua.os_version ≤ 32

length-clean : (n : ℕ) (o : Option Text) → Within n o → length (clean o) ≤ n
unfolding clean
length-clean n none h = omega arith
length-clean n (some t) h = ground (arith, h)

length-or_default : (n : ℕ) (s t : Text) → length s ≤ n → length t ≤ n → length (or_default s t) ≤ n
length-or_default n [] t h k = k
length-or_default n (c ∷ s) t h k = h

length-lstrip : (s : Text) → length (lstrip s) ≤ length s
unfolding lstrip
length-lstrip [] = omega arith
length-lstrip (c ∷ s) = ground (arith, length-lstrip s)

length-rstrip : (s : Text) → length (rstrip s) ≤ length s
unfolding rstrip
length-rstrip [] = omega arith
length-rstrip (c ∷ s) = ground (arith, length-rstrip s)

length-strip : (s : Text) → length (strip s) ≤ length s
unfolding strip
length-strip s = omega (arith, length-rstrip (lstrip s), length-lstrip s)

length-device_type_of : (ua : UserAgent) → length (device_type_of ua) ≤ 7
unfolding device_type_of
length-device_type_of ua = ground arith

-- Every text of a device has room in its column.
pub record FitsDevice (d : DeviceInfo) : Type 0 where
  pub device_name : length d.device_name ≤ 128
  pub device_type : length d.device_type ≤ 32
  pub browser : length d.browser ≤ 64
  pub browser_version : length d.browser_version ≤ 32
  pub operating_system : length d.operating_system ≤ 64
  pub operating_system_version : length d.operating_system_version ≤ 32
  pub user_agent : length d.user_agent ≤ 512

-- `f"{os_family} {device_type}".strip()` is short for a short family.
length-os_name :
    (ua : UserAgent)
    → Within 64 ua.os_family
    → length (strip (clean ua.os_family ++ b' ' ∷ device_type_of ua)) ≤ 128
length-os_name ua h = omega (
  arith,
  length-strip (clean ua.os_family ++ b' ' ∷ device_type_of ua),
  length-append (clean ua.os_family) (b' ' ∷ device_type_of ua),
  length-clean 64 ua.os_family h,
  length-device_type_of ua,
)

pub parse_user_agent-FitsDevice :
    {Token : Type 0} (env : Env Token) (raw : Text)
    → IsShort (env.parse_user_agent raw)
    → FitsDevice (parse_user_agent env raw)
unfolding parse_user_agent
parse_user_agent-FitsDevice env raw h =
    let ua = env.parse_user_agent raw in
    record {
      device_name =
          length-or_default 128 _ _ (length-clean 128 ua.device_family h.device)
            (length-or_default 128 _ _ (length-os_name ua h.os) (omega arith));
      device_type = omega (arith, length-device_type_of ua);
      browser =
          length-or_default 64 _ _ (length-clean 64 ua.browser_family h.browser) (omega arith);
      browser_version = h.browser_version;
      operating_system = length-or_default 64 _ _ (length-clean 64 ua.os_family h.os) (omega arith);
      operating_system_version = h.os_version;
      user_agent = length-take 512 raw;
    }
