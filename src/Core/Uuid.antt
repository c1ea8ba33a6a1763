-- ===== src/Core/Uuid.antt =====
-- Python's `uuid`: `str(u)` and `uuid.UUID(s)`. A UUID is its 128-bit number. The prefixes and
-- braces that `uuid.UUID` accepts besides hyphens do not occur in the texts that the program reads
-- back, which it wrote by `str`.
pub mod RoundTrip
use enterprise_auth_server.Common.{
  ℕ, zero, suc, ◌+◌, ◌-◌, ◌*◌, ◌/◌, ◌%◌, Bool, ◌&&◌, ◌||◌, Option, none, some, List, [], ◌∷◌, ◌++◌,
  Text, leb, ltb, ◌==◌, nat_eq, length, take, drop, if◌then◌else◌,
}

abbrev pub uuid_limit : ℕ
uuid_limit = 340282366920938463463374607431768211456

abbrev pub hex_digit : ℕ → ℕ
hex_digit n = if ltb n 10 then n + 48 else n + 87

-- The last `n` hexadecimal digits of a number, in front of a text.
hex_digits : ℕ → ℕ → Text → Text
hex_digits zero v s = s
hex_digits (suc n) v s = hex_digits n (v / 16) (hex_digit (v % 16) ∷ s)

-- '%s-%s-%s-%s-%s' % (hex[:8], hex[8:12], hex[12:16], hex[16:20], hex[20:])
hyphenate : Text → Text
hyphenate h =
    let h8 = drop 8 h in
    let h12 = drop 4 h8 in
    let h16 = drop 4 h12 in
    let h20 = drop 4 h16 in
    take 8 h ++ b'-' ∷ (take 4 h8 ++ b'-' ∷ (take 4 h12 ++ b'-' ∷ (take 4 h16 ++ b'-' ∷ h20)))

-- str(u)
unfoldable pub to_text : ℕ → Text
unfolding hex_digits hyphenate
to_text u = hyphenate (hex_digits 32 u [])

without_hyphens : Text → Text
without_hyphens [] = []
without_hyphens (c ∷ s) = let rest = without_hyphens s in if c == b'-' then rest else c ∷ rest

abbrev pub digit_value : ℕ → Option ℕ
digit_value c =
    if leb b'0' c && leb c b'9'
    then some (c - 48)
    else if leb b'a' c && leb c b'f'
    then some (c - 87)
    else if leb b'A' c && leb c b'F'
    then some (c - 55)
    else none

-- int(s, 16), from the digits read so far.
read_hex : ℕ → Text → Option ℕ
read_hex v [] = some v
read_hex v (c ∷ s) = elim (digit_value c) [ none ↦ none | some d ↦ read_hex (v * 16 + d) s ]

-- uuid.UUID(s): `none` for ValueError
unfoldable pub parse : Text → Option ℕ
unfolding without_hyphens read_hex
parse s = let h = without_hyphens s in if length h == 32 then read_hex 0 h else none
