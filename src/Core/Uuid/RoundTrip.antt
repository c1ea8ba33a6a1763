-- ===== src/Core/Uuid/RoundTrip.antt =====
-- `uuid.UUID(str(u))` is `u`.
use native.Mathlib.Nat.{pow-suc}
use Prim.Native.Nat.{◌^◌}
use enterprise_auth_server.Common.{
  ℕ, zero, suc, ◌+◌, ◌*◌, ◌/◌, ◌%◌, ◌<◌, ◌≡◌, refl, sym, ap, ◌∙◌, some, [], ◌∷◌, ◌++◌, Text, length,
  take, drop, take-append-drop, arith, All, ◌≢◌,
}
use enterprise_auth_server.Core.Uuid.{
  uuid_limit, hex_digit, hex_digits, hyphenate, to_text, without_hyphens, digit_value, read_hex,
  parse,
}

digit_value-hex_digit : (n : ℕ) → n < 16 → digit_value (hex_digit n) ≡ some n
digit_value-hex_digit n h = ground arith

read_hex-digit :
    (v d : ℕ) (s : Text) → d < 16 → read_hex v (hex_digit d ∷ s) ≡ read_hex (v * 16 + d) s
unfolding read_hex
read_hex-digit v d s h = rw (digit_value-hex_digit d h, read_hex)

read_hex-hex_digits :
    (n v a : ℕ) (s : Text)
    → v < 16 ^ n
    → read_hex a (hex_digits n v s) ≡ read_hex (a * 16 ^ n + v) s
unfolding hex_digits
read_hex-hex_digits zero v a s h = ap (λ x. read_hex x s) (omega arith)
read_hex-hex_digits (suc n) v a s h =
    read_hex-hex_digits n (v / 16) a (hex_digit (v % 16) ∷ s) (omega (arith, pow-suc 16 n))
    ∙ read_hex-digit (a * 16 ^ n + v / 16) (v % 16) s (omega arith)
    ∙ ap (λ x. read_hex x s) (omega (arith, ap (λ t. a * t) (pow-suc 16 n)))

length-hex_digits : (n v : ℕ) (s : Text) → length (hex_digits n v s) ≡ n + length s
unfolding hex_digits
length-hex_digits zero v s = omega arith
length-hex_digits (suc n) v s = omega (arith, length-hex_digits n (v / 16) (hex_digit (v % 16) ∷ s))

-- No code point of the text is a hyphen.
abbrev Plain : Text → Type 0
Plain s = All (λ c. c ≢ b'-') s

hex_digits-Plain : (n v : ℕ) (s : Text) → Plain s → Plain (hex_digits n v s)
unfolding hex_digits
hex_digits-Plain zero v s h = h
hex_digits-Plain (suc n) v s h =
    hex_digits-Plain n (v / 16) (hex_digit (v % 16) ∷ s) (ground arith, h)

take-Plain : (n : ℕ) (s : Text) → Plain s → Plain (take n s)
take-Plain zero s h = tt
take-Plain (suc n) [] h = tt
take-Plain (suc n) (c ∷ s) h = (h.0, take-Plain n s h.1)

drop-Plain : (n : ℕ) (s : Text) → Plain s → Plain (drop n s)
drop-Plain zero s h = h
drop-Plain (suc n) [] h = tt
drop-Plain (suc n) (c ∷ s) h = drop-Plain n s h.1

without_hyphens-append : (s t : Text) → Plain s → without_hyphens (s ++ t) ≡ s ++ without_hyphens t
unfolding without_hyphens
without_hyphens-append [] t h = refl
without_hyphens-append (c ∷ s) t h = ground (arith, without_hyphens-append s t h.1, h.0)

without_hyphens-group :
    (s t : Text) → Plain s → without_hyphens (s ++ b'-' ∷ t) ≡ s ++ without_hyphens t
without_hyphens-group s t h =
    without_hyphens-append s (b'-' ∷ t) h ∙ ap (◌++◌ s) (unfold without_hyphens in refl)

without_hyphens-Plain : (s : Text) → Plain s → without_hyphens s ≡ s
unfolding without_hyphens
without_hyphens-Plain [] h = refl
without_hyphens-Plain (c ∷ s) h = ground (arith, without_hyphens-Plain s h.1, h.0)

-- Leaving out the hyphens joins the groups again.
without_hyphens-hyphenate : (h : Text) → Plain h → without_hyphens (hyphenate h) ≡ h
unfolding hyphenate
without_hyphens-hyphenate h p =
    let h8 = drop 8 h in
    let h12 = drop 4 h8 in
    let h16 = drop 4 h12 in
    let h20 = drop 4 h16 in
    let p8 = drop-Plain 8 h p in
    let p12 = drop-Plain 4 h8 p8 in
    let p16 = drop-Plain 4 h12 p12 in
    rw (
      without_hyphens-group (take 8 h) _ (take-Plain 8 h p),
      without_hyphens-group (take 4 h8) _ (take-Plain 4 h8 p8),
      without_hyphens-group (take 4 h12) _ (take-Plain 4 h12 p12),
      without_hyphens-group (take 4 h16) _ (take-Plain 4 h16 p16),
      without_hyphens-Plain h20 (drop-Plain 4 h16 p16),
      take-append-drop 4 h16,
      take-append-drop 4 h12,
      take-append-drop 4 h8,
      take-append-drop 8 h,
    )

parse_of_digits :
    (s h : Text) (u : ℕ)
    → without_hyphens s ≡ h
    → length h ≡ 32
    → read_hex 0 h ≡ some u
    → parse s ≡ some u
unfolding parse
parse_of_digits s h u p q r = rw (p, q, r)

digits : ℕ → Text
digits u = hex_digits 32 u []

to_text-hyphenate : (u : ℕ) → to_text u ≡ hyphenate (digits u)
unfolding to_text digits
to_text-hyphenate u = refl

without_hyphens-to_text : (u : ℕ) → without_hyphens (to_text u) ≡ digits u
without_hyphens-to_text u =
    ap without_hyphens (to_text-hyphenate u)
    ∙ without_hyphens-hyphenate (digits u) (unfold digits in hex_digits-Plain 32 u [] tt)

length-digits : (u : ℕ) → length (digits u) ≡ 32
unfolding digits
length-digits u = length-hex_digits 32 u []

read_digits : (u : ℕ) → u < uuid_limit → read_hex 0 (digits u) ≡ some u
unfolding digits read_hex
read_digits u h = read_hex-hex_digits 32 u 0 [] (omega arith) ∙ ap some (omega arith)

-- Reading back what `str` wrote gives the same UUID.
pub parse-to_text : (u : ℕ) → u < uuid_limit → parse (to_text u) ≡ some u
parse-to_text u h =
    parse_of_digits (to_text u) (digits u) u (without_hyphens-to_text u) (length-digits u)
      (read_digits u h)

pub length-to_text : (u : ℕ) → length (to_text u) ≡ 36
unfolding to_text
length-to_text u = refl

-- The text of a UUID is not empty.
pub to_text-ne-nil : (u : ℕ) → to_text u ≢ []
to_text-ne-nil u e = absurd (omega (arith, length-digits u, ap length bare))
  where
    bare : digits u ≡ []
    bare = sym (without_hyphens-to_text u) ∙ ap without_hyphens e ∙ (unfold without_hyphens in refl)
