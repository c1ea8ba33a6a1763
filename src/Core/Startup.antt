-- ===== src/Core/Startup.antt =====
-- The checks that backend/app/core/config.py makes of the environment's settings before the
-- application starts.
use enterprise_auth_server.Common.{
  ℕ, ◌≡◌, ◌↔◌, ◌⊎◌, refl, ap, ◌∙◌, Bool, true, false, ◌&&◌, ◌||◌, Option, none, some, List, [], ◌∷◌,
  ◌++◌, Text, All, arith, ◌==◌, text_eq, text_beq_iff, nat_eq, ==_refl, if◌then◌else◌, Bool-cases,
  inl, inr,
}
use enterprise_auth_server.Core.Strings.{text, strip}

-- ENV
pub data Deployment : Type 0 where
  local test production : Deployment

-- The settings that are checked.
pub record Secrets : Type 0 where
  pub env : Deployment
  pub secret_key : Text
  pub encryption_key : Text

-- DEV_SECRET_KEY
abbrev pub dev_secret_key : Text
dev_secret_key = text "CHANGE-ME-dev-only-secret-key-not-for-production-use-0123456789"

-- DEV_ENCRYPTION_KEY
abbrev pub dev_encryption_key : Text
dev_encryption_key = text "_i3FjZl2n-cXVRZCTQE5z5DPJaDhNlXFDBso8tHTClA="

-- `is_production`
unfoldable pub is_production : Deployment → Bool
is_production production = true
is_production local = false
is_production test = false

-- `_forbid_dev_secrets_in_production`: none where it raises.
unfoldable pub forbid_dev_secrets_in_production : Secrets → Option Secrets
unfolding is_production
forbid_dev_secrets_in_production s =
    if is_production s.env
      && (s.secret_key == dev_secret_key || s.encryption_key == dev_encryption_key)
    then none
    else some s

-- `v.split(sep)`
unfoldable pub split : ℕ → Text → List Text
split sep [] = [] ∷ []
split sep (c ∷ s) = elim (split sep s) [
  | [] ↦ []
  | p ∷ ps ↦ if c == sep then [] ∷ p ∷ ps else (c ∷ p) ∷ ps
]

-- `[o.strip() for o in parts if o.strip()]`
unfoldable pub stripped : List Text → List Text
unfolding strip
stripped [] = []
stripped (o ∷ os) = elim (strip o) [ [] ↦ stripped os | c ∷ s ↦ (c ∷ s) ∷ stripped os ]

-- `_split_cors` of a text
unfoldable pub split_cors : Text → List Text
unfolding split stripped
split_cors v = stripped (split b',' v)

-- `",".join(origins)`
unfoldable pub join : List Text → Text
join [] = []
join (o ∷ []) = o
join (o ∷ p ∷ os) = o ++ b',' ∷ join (p ∷ os)

-- Without the separator.
abbrev Plain : ℕ → Text → Type 0
Plain sep s = All (λ c. (c == sep) ≡ false) s

-- An origin as it is meant: not empty, without a comma and without blanks around it.
pub record IsOrigin (o : Text) : Type 0 where
  pub plain : Plain b',' o
  pub trimmed : strip o ≡ o
  pub first : ℕ
  pub rest : Text
  pub non_empty : o ≡ first ∷ rest

split-Plain : (sep : ℕ) (o : Text) → Plain sep o → split sep o ≡ o ∷ []
unfolding split
split-Plain sep [] p = refl
split-Plain sep (c ∷ s) p = rw (split, split-Plain sep s p.1, p.0) refl

-- A split has a first part.
split_parts : (sep : ℕ) (s : Text) → (p : Text) × (ps : List Text) × (split sep s ≡ p ∷ ps)
unfolding split
split_parts sep [] = ([], [], refl)
split_parts sep (c ∷ s) =
    let (p, ps, e) = split_parts sep s in
    elim (Bool-cases (c == sep)) [
      | inl h ↦ ([], p ∷ ps, rw (split, e, h) refl)
      | inr h ↦ (c ∷ p, ps, rw (split, e, h) refl)
    ]

split-append : (sep : ℕ) (o t : Text) → Plain sep o → split sep (o ++ sep ∷ t) ≡ o ∷ split sep t
unfolding split
split-append sep [] t q = let (p, ps, e) = split_parts sep t in rw (split, e, ==_refl sep) refl
split-append sep (c ∷ s) t p = rw (split, split-append sep s t p.1, p.0) refl

stripped-origin : (o : Text) (os : List Text) → IsOrigin o → stripped (o ∷ os) ≡ o ∷ stripped os
unfolding stripped
stripped-origin o os h = rw (stripped, h.trimmed, h.non_empty) refl

-- The origins of a deployment come through CORS_ORIGINS as they were joined by commas.
pub split_cors-join : (os : List Text) → All IsOrigin os → split_cors (join os) ≡ os
unfolding split_cors join
split_cors-join [] a = unfold join split stripped in refl
split_cors-join (o ∷ []) a =
    rw (split-Plain b',' o a.0.plain) (unfold join stripped in stripped-origin o [] a.0)
split_cors-join (o ∷ p ∷ os) a = rw (split-append b',' o (join (p ∷ os)) a.0.plain) (
    stripped-origin o (split b',' (join (p ∷ os))) a.0
    ∙ ap (λ (rest : List Text). o ∷ rest) (split_cors-join (p ∷ os) a.1))

-- The application refuses to start exactly in production with one of the built-in secrets.
pub forbid_dev_secrets_in_production_iff :
    (s : Secrets)
    → (forbid_dev_secrets_in_production s ≡ none) ↔ (
        (s.env ≡ production)
        × ((s.secret_key ≡ dev_secret_key) ⊎ (s.encryption_key ≡ dev_encryption_key)))
unfolding forbid_dev_secrets_in_production
forbid_dev_secrets_in_production_iff s = ground (
  arith,
  text_beq_iff s.secret_key dev_secret_key,
  text_beq_iff s.encryption_key dev_encryption_key,
)
