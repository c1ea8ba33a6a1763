-- ===== src/Core/Decimal.antt =====
-- `str(n)` of a natural number.
use enterprise_auth_server.Common.{
  ℕ, zero, suc, ◌+◌, ◌-◌, ◌*◌, ◌/◌, ◌%◌, ◌≤◌, ◌≡◌, [], ◌∷◌, Text, ◌==◌, nat_eq, if◌then◌else◌,
  arith, ap, ◌∙◌, Bool-cases, inl, inr,
}

-- The digits of `n` in front of a text, at most `f + 1` of them.
decimal_from : ℕ → ℕ → Text → Text
decimal_from zero n s = (48 + n % 10) ∷ s
decimal_from (suc f) n s =
    let rest = decimal_from f (n / 10) ((48 + n % 10) ∷ s) in
    if n / 10 == 0 then (48 + n % 10) ∷ s else rest

unfoldable pub decimal : ℕ → Text
unfolding decimal_from
decimal n = decimal_from n n []

-- int(s) of a text of digits, from the digits read so far.
unfoldable pub value_from : ℕ → Text → ℕ
value_from v [] = v
value_from v (c ∷ s) = value_from (v * 10 + (c - 48)) s

value_from-decimal_from :
    (f n : ℕ) (s : Text) → n ≤ f → value_from 0 (decimal_from f n s) ≡ value_from n s
unfolding decimal_from value_from
value_from-decimal_from zero n s h = ap (λ k. value_from k s) (omega (arith, h))
value_from-decimal_from (suc f) n s h =
    let ih = value_from-decimal_from f (n / 10) ((48 + n % 10) ∷ s) (omega (arith, h)) in
    let back : (n / 10) * 10 + ((48 + n % 10) - 48) ≡ n = omega arith in
    elim (Bool-cases (n / 10 == 0)) [
      | inl e ↦ rw e (ap (λ k. value_from k s) (ground (arith, e)))
      | inr e ↦ rw e (ih ∙ ap (λ k. value_from k s) back)
    ]

-- The fuel is enough: the digits written are those of the number.
pub value_from-decimal : (n : ℕ) → value_from 0 (decimal n) ≡ n
unfolding decimal value_from
value_from-decimal n = value_from-decimal_from n n [] (omega arith)
