-- ===== src/Core/Strings.antt =====
-- Python's methods of `str` that the program calls, on code points. Letters outside ASCII are left
-- as they are.
use Prim.Native.Char.{code}
use Prim.Native.String.{[] as end, ◌∷◌ as ◌followed_by◌}
use enterprise_auth_server.Common.{
  ℕ, ◌+◌, ◌-◌, Bool, ◌&&◌, ◌||◌, ◌≡◌, String, [], ◌∷◌, Text, leb, nat_eq, if◌then◌else◌, arith,
  refl,
}

-- The code points of a literal.
abbrev pub text : String → Text
text end = []
text (◌followed_by◌ c s) = code c ∷ text s

abbrev pub is_upper : ℕ → Bool
is_upper c = leb b'A' c && leb c b'Z'

abbrev pub is_lower : ℕ → Bool
is_lower c = leb b'a' c && leb c b'z'

abbrev pub is_digit : ℕ → Bool
is_digit c = leb b'0' c && leb c b'9'

abbrev lower_code : ℕ → ℕ
lower_code c = if is_upper c then c + 32 else c

-- s.lower()
unfoldable pub lower : Text → Text
lower [] = []
lower (c ∷ s) = lower_code c ∷ lower s

abbrev upper_code : ℕ → ℕ
upper_code c = if is_lower c then c - 32 else c

-- s.upper()
unfoldable pub upper : Text → Text
upper [] = []
upper (c ∷ s) = upper_code c ∷ upper s

lower_code-lower_code : (c : ℕ) → lower_code (lower_code c) ≡ lower_code c
lower_code-lower_code c = ground arith

-- Lowering twice is lowering once.
pub lower-lower : (s : Text) → lower (lower s) ≡ lower s
unfolding lower
lower-lower [] = refl
lower-lower (c ∷ s) = ground (arith, lower_code-lower_code c, lower-lower s)

-- str.isspace of a code point, in ASCII
abbrev pub is_space : ℕ → Bool
is_space c = leb 9 c && leb c 13 || leb 28 c && leb c 32

unfoldable pub lstrip : Text → Text
lstrip [] = []
lstrip (c ∷ s) = let rest = lstrip s in if is_space c then rest else c ∷ s

unfoldable pub rstrip : Text → Text
rstrip [] = []
rstrip (c ∷ s) =
    let rest = rstrip s in elim rest [ [] ↦ if is_space c then [] else c ∷ [] | d ∷ t ↦ c ∷ d ∷ t ]

-- s.strip()
unfoldable pub strip : Text → Text
unfolding lstrip rstrip
strip s = rstrip (lstrip s)
