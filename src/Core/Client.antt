-- ===== src/Core/Client.antt =====
-- What is recorded of a client: backend/app/core/useragent.py and backend/app/services/geoip.py.
pub mod Lengths
use enterprise_auth_server.Common.{
  ◌||◌, Option, none, some, List, [], ◌∷◌, ◌++◌, Text, take, ◌==◌, text_eq, non_empty,
  if◌then◌else◌,
}
use enterprise_auth_server.Core.Strings.{text, lower, upper, strip}
use enterprise_auth_server.Core.External.{Env, UserAgent}

pub record DeviceInfo : Type 0 where
  pub device_name : Text
  pub device_type : Text
  pub browser : Text
  pub browser_version : Text
  pub operating_system : Text
  pub operating_system_version : Text
  pub user_agent : Text

-- `value or default`
abbrev pub or_default : Text → Text → Text
or_default [] d = d
or_default (c ∷ s) d = c ∷ s

-- `_clean`
unfoldable pub clean : Option Text → Text
unfolding lower
clean none = []
clean (some value) = if lower value == text "other" || lower value == text "none" then [] else value

unfoldable pub device_type_of : UserAgent → Text
device_type_of ua =
    if ua.is_bot
    then text "Bot"
    else if ua.is_tablet
    then text "Tablet"
    else if ua.is_mobile
    then text "Mobile"
    else if ua.is_pc
    then text "Desktop"
    else text "Unknown"

describe : UserAgent → Text → DeviceInfo
unfolding clean device_type_of strip
describe ua raw =
    let os_family = clean ua.os_family in
    let device_type = device_type_of ua in
    record {
      device_name =
          or_default (clean ua.device_family)
            (or_default (strip (os_family ++ b' ' ∷ device_type)) (text "Unknown"));
      device_type = device_type;
      browser = or_default (clean ua.browser_family) (text "Unknown");
      browser_version = ua.browser_version;
      operating_system = or_default os_family (text "Unknown");
      operating_system_version = ua.os_version;
      user_agent = take 512 raw;
    }

-- `parse_user_agent`
unfoldable pub parse_user_agent : {Token : Type 0} → Env Token → Text → DeviceInfo
unfolding describe
parse_user_agent env raw = describe (env.parse_user_agent raw) raw

pub record GeoLocation : Type 0 where
  pub country : Option Text
  pub city : Option Text

abbrev pub Headers : Type 0
Headers = List (Text × Text)

-- `headers.get(name)` after the keys were lowered: the last of several values stands.
unfoldable pub header : Text → Headers → Option Text
unfolding lower
header name [] = none
header name ((k, v) ∷ hs) = elim (header name hs) [
  | some u ↦ some u
  | none ↦ if lower k == name then some v else none
]

abbrev first_of_two : Option Text → Option Text → Option Text
first_of_two none b = b
first_of_two (some a) b = some a

-- `headers.get(a) or headers.get(b)`
header_or : Text → Text → Headers → Option Text
unfolding header
header_or a b headers = first_of_two (non_empty (header a headers)) (non_empty (header b headers))

known_country : Option Text → Option Text
unfolding upper
known_country none = none
known_country (some c) = if upper c == text "XX" || upper c == text "T1" then none else some c

-- `resolve_location`: the address is not used.
unfoldable pub resolve_location : Headers → GeoLocation
unfolding header_or known_country
resolve_location headers = record {
  country = known_country (header_or (text "cf-ipcountry") (text "x-country") headers);
  city = header_or (text "cf-ipcity") (text "x-city") headers;
}
