-- ===== src/EmailAccounts/SingleUse.antt =====
-- A token sent by email is good for one use, for its purpose, until it expires.
use mathlib.Core.Option
use enterprise_auth_server.Common.{
  ◌<◌, ◌≡◌, ◌≢◌, ==_refl, refl, ap, ◌∙◌, true, false, Option, none, some, Text, arith, find,
  find-update, update, is_some, ◌==◌, nat_eq, text_eq, if◌then◌else◌, Option-cases, inl, inr,
}
use enterprise_auth_server.Core.Errors.{auth_error}
use enterprise_auth_server.Core.External.{Env}
use enterprise_auth_server.Models.{EmailToken, Purpose}
use enterprise_auth_server.State.World.{World}
use enterprise_auth_server.State.Exec.{ok, err}
use enterprise_auth_server.EmailAccounts.Repository.{same_purpose}
use enterprise_auth_server.EmailAccounts.{consume, used}

module _ {Token : Type 0} (env : Env Token) where
  -- The token of a text, as `_consume` looks it up.
  abbrev pub row_of : Text → World → Option EmailToken
  row_of raw w = find (λ t. t.token_hash == env.sha256_hex raw) w.db.email_tokens

  -- What is known of a token that was consumed, and of the tables after it.
  pub record Consumed (raw : Text) (purpose : Purpose) (t : EmailToken) (w v : World) : Type 0 where
    pub row : EmailToken
    pub found : row_of raw w ≡ some row
    pub right_purpose : same_purpose row.purpose purpose ≡ true
    pub unused : is_some row.used_at ≡ false
    pub unexpired : w.now < row.expires_at
    pub returned : t ≡ used w.now row
    pub marked : v.db.email_tokens ≡ update (λ s. s.id == row.id) (used w.now) w.db.email_tokens

  row_is_found :
      (raw : Text) (purpose : Purpose) (t : EmailToken) (w v : World)
      → consume env raw purpose w ≡ (ok t, v)
      → row_of raw w ≢ none
  unfolding consume
  row_is_found raw purpose t w v h e = ground arith

  row-Consumed :
      (raw : Text) (purpose : Purpose) (row t : EmailToken) (w v : World)
      → consume env raw purpose w ≡ (ok t, v)
      → row_of raw w ≡ some row
      → Consumed raw purpose t w v
  unfolding consume
  row-Consumed raw purpose row t w v h e = record {
    row = row;
    found = e;
    right_purpose = ground arith;
    unused = ground arith;
    unexpired = ground arith;
    returned = ground arith;
    marked = ground arith;
  }

  consume-Consumed :
      (raw : Text) (purpose : Purpose) (t : EmailToken) (w v : World)
      → consume env raw purpose w ≡ (ok t, v)
      → Consumed raw purpose t w v
  consume-Consumed raw purpose t w v h = elim (Option-cases (row_of raw w)) [
    | inl e ↦ absurd (row_is_found raw purpose t w v h e)
    | inr (row, e) ↦ row-Consumed raw purpose row t w v h e
  ]

  refused :
      (raw : Text) (purpose : Purpose) (row : EmailToken) (w : World)
      → row_of raw w ≡ some row
      → is_some row.used_at ≡ true
      → consume env raw purpose w ≡ (err (auth_error "Invalid or already-used token."), w)
  unfolding consume
  refused raw purpose row w e h = ground (arith, e, h)

  -- A token that was consumed had been found by its hash, for the purpose asked for, unused and
  -- before its expiry, and it is refused from then on for every purpose, as long as the table of
  -- tokens stays as it is.
  pub consume_is_single_use :
      (raw : Text) (p q : Purpose) (t : EmailToken) (w v x : World)
      → consume env raw p w ≡ (ok t, v)
      → x.db.email_tokens ≡ v.db.email_tokens
      → Consumed raw p t w v
        × (consume env raw q x ≡ (err (auth_error "Invalid or already-used token."), x))
  consume_is_single_use raw p q t w v x h same =
      let c = consume-Consumed raw p t w v h in
      let by_hash = λ (s : EmailToken). s.token_hash == env.sha256_hex raw in
      let by_id = λ (s : EmailToken). s.id == c.row.id in
      let row_after : row_of raw x ≡ some (used w.now c.row) =
        ap (find by_hash) (same ∙ c.marked)
        ∙ find-update by_hash by_id (used w.now) w.db.email_tokens (λ s. refl)
        ∙ ap (Option.map (λ s. if by_id s then used w.now s else s)) c.found
        ∙ rw (==_refl c.row.id) refl in
      (c, refused raw q (used w.now c.row) x row_after refl)
