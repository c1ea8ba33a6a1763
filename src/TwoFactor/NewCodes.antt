-- ===== src/TwoFactor/NewCodes.antt =====
-- The recovery codes that are handed out, and those that are kept.
use mathlib.Core.List.{append-nil, append_assoc}
use enterprise_auth_server.Common.{
  none_of_none, ℕ, zero, suc, ◌+◌, ◌≡◌, refl, ap, sym, subst, ◌∙◌, Bool, true, false, not, ◌&&◌,
  ltb, none, List, [], ◌∷◌, ◌++◌, Text, arith, select, length, nat_eq, ◌==◌, nat_beq_iff,
}
use enterprise_auth_server.Core.External.{Env, HashVerifies}
use enterprise_auth_server.Models.{User, BackupCode}
use enterprise_auth_server.State.World.{World}
use enterprise_auth_server.State.Exec.{◌>>=◌, ◌>>◌, pure, when, ok, >>=-eq-ok}
use enterprise_auth_server.State.Reads.{whole, after_raise_if}
use enterprise_auth_server.State.Quiet.{
  IsQuiet, IsQuiet-bind, IsQuiet-pure, quiet_rules, after_quiet,
}
use enterprise_auth_server.TwoFactor.{
  generate_code, generate_codes, store_codes, generate_recovery_codes,
}
use enterprise_auth_server.TwoFactor.Repository.{
  list_unused, add_code, count_unused, unused_of, delete_for_user,
}

module _ {ℓ} {A : Type ℓ} where
  select-append :
      (p : A → Bool) (xs : List A) (y : A)
      → p y ≡ true
      → select p (xs ++ y ∷ []) ≡ select p xs ++ y ∷ []
  unfolding select
  select-append p [] y h = ground (arith, h)
  select-append p (x ∷ xs) y h = ground (arith, select-append p xs y h)

-- Without the codes of a user, the user has no unused ones.
none_left :
    (user_id : ℕ) (cs : List BackupCode)
    → select (unused_of user_id) (select (λ c. not (c.user_id == user_id)) cs) ≡ []
unfolding select
none_left user_id [] = refl
none_left user_id (c ∷ cs) = ground (arith, none_left user_id cs)

module _ {Token : Type 0} (env : Env Token) where
  -- One after another, the codes verify against the hashes of the rows.
  pub data AllVerify : List Text → List BackupCode → Type 0 where
    no_more : AllVerify [] []
    both :
        (code : Text) (c : BackupCode) {codes : List Text} {cs : List BackupCode}
        → env.verify code c.hashed_code ≡ true
        → AllVerify codes cs
        → AllVerify (code ∷ codes) (c ∷ cs)

  length-AllVerify :
      {codes : List Text} {cs : List BackupCode} → AllVerify codes cs → length codes ≡ length cs
  length-AllVerify no_more = refl
  length-AllVerify (both code c h r) = ap suc (length-AllVerify r)

  generate_code-IsQuiet : IsQuiet (generate_code env)
  unfolding generate_code
  generate_code-IsQuiet = search quiet_rules

  generate_codes-IsQuiet : (k : ℕ) → IsQuiet (generate_codes env k)
  unfolding generate_codes
  generate_codes-IsQuiet zero = search quiet_rules
  generate_codes-IsQuiet (suc k) =
      IsQuiet-bind generate_code-IsQuiet
        λ code. IsQuiet-bind (generate_codes-IsQuiet k) λ codes. IsQuiet-pure (code ∷ codes)

  length-generate_codes :
      (k : ℕ) (codes : List Text) (w : World)
      → (generate_codes env k w).0 ≡ ok codes
      → length codes ≡ k
  unfolding generate_codes
  length-generate_codes zero codes w h = ground arith
  length-generate_codes (suc k) codes w h =
      let full = whole (generate_codes env (suc k)) w codes h in
      let x = (generate_codes env (suc k) w).1 in
      let m = generate_code env in
      let put = λ (code : Text) (codes : List Text). pure (code ∷ codes) in
      let (code, _, h1) = >>=-eq-ok m (λ code. generate_codes env k >>= put code) w codes x full in
      let (rest, e, h2) = >>=-eq-ok (generate_codes env k) (put code) (m w).1 codes x h1 in
      let same : codes ≡ code ∷ rest = ground (arith, h2) in
      ap length same ∙ ap suc (length-generate_codes k rest (m w).1 e)

  -- What `store_codes` adds to the unused codes of the user.
  record Stored (user : User) (codes : List Text) (w v : World) : Type 0 where
    pub rows : List BackupCode
    pub added : list_unused user.id v.db ≡ list_unused user.id w.db ++ rows
    pub verify : AllVerify codes rows

  add_code-list_unused :
      (user_id : ℕ) (c : BackupCode) (w : World)
      → (add_code c w).0 ≡ ok tt
      → unused_of user_id c ≡ true
      → list_unused user_id (add_code c w).1.db ≡ list_unused user_id w.db ++ c ∷ []
  unfolding add_code list_unused
  add_code-list_unused user_id c w h fresh =
      ground (arith, h, select-append (unused_of user_id) w.db.backup_codes c fresh)

  store_codes-Stored :
      HashVerifies env
      → (user : User) (codes : List Text) (w v : World) → store_codes env user codes w ≡ (ok tt, v)
      → Stored user codes w v
  unfolding store_codes
  store_codes-Stored hv user [] w v h =
      let unchanged = ap (λ p. list_unused user.id p.1.db) (sym h) in
      record {
        rows = [];
        added = unchanged ∙ sym (append-nil (list_unused user.id w.db));
        verify = no_more;
      }
  store_codes-Stored hv user (code ∷ codes) w v h =
      let row : BackupCode = record {
        id = env.new_uuid (w.drawn + 1);
        user_id = user.id;
        hashed_code = env.hash code w.drawn;
        used_at = none;
      } in
      let unused : unused_of user.id row ≡ true = ground (arith, nat_beq_iff user.id user.id) in
      let x : World = record w { drawn = w.drawn + 1 + 1 } in
      let (_, e, k) = >>=-eq-ok (add_code row) _ x tt v h in
      let rest = store_codes-Stored hv user codes (add_code row x).1 v k in
      record {
        rows = row ∷ rest.rows;
        added =
            rest.added
            ∙ ap (λ cs. cs ++ rest.rows) (add_code-list_unused user.id row x e unused)
            ∙ append_assoc (list_unused user.id w.db) (row ∷ []) rest.rows;
        verify = both code row (hv code w.drawn) rest.verify;
      }

  -- After the old codes were deleted, or when there were none.
  cleared :
      (user : User) (replace : Bool) (w : World)
      → (ltb 0 (count_unused user.id w.db) && not replace) ≡ false
      → list_unused user.id (when replace (delete_for_user user.id) w).1.db ≡ []
  unfolding delete_for_user list_unused count_unused
  cleared user true w h = none_left user.id w.db.backup_codes
  cleared user false w h = none_of_none (list_unused user.id w.db) (ground (arith, h))

  handed_out :
      HashVerifies env
      → (user : User) (codes : List Text) (w v : World) → list_unused user.id w.db ≡ []
      → (generate_codes env env.settings.backup_code_count >>= λ plain.
            store_codes env user plain >> pure plain)
          w
        ≡ (ok codes, v)
      → (length codes ≡ env.settings.backup_code_count) × AllVerify codes (list_unused user.id v.db)
  handed_out hv user codes w v empty h =
      let n = env.settings.backup_code_count in
      let finish = λ (plain : List Text). store_codes env user plain >> pure plain in
      let (plain, y, e, same_db, h1) = after_quiet finish w codes v (generate_codes-IsQuiet n) h in
      let (_, stored, h2) = >>=-eq-ok (store_codes env user plain) (λ _. pure plain) y codes v h1 in
      let same : plain ≡ codes = ground (arith, h2) in
      let x = (store_codes env user plain y).1 in
      let s =
        store_codes-Stored hv user plain y x (whole (store_codes env user plain) y tt stored) in
      let rows : s.rows ≡ list_unused user.id v.db =
        let none_before = ap (list_unused user.id) same_db ∙ empty in
        sym (ap (λ cs. cs ++ s.rows) none_before)
        ∙ sym s.added
        ∙ ap (λ p. list_unused user.id p.1.db) h2 in
      (
        ap length (sym same) ∙ length-generate_codes n plain w e,
        subst (λ c. AllVerify c (list_unused user.id v.db)) same
            (subst (AllVerify plain) rows s.verify),
      )

  -- Where a hash verifies its own text, the codes that are handed out are as many as the setting
  -- says, and one after another they verify against the unused codes that the user has afterwards,
  -- which are no more and no fewer, whether older codes were replaced or there were none.
  pub generate_recovery_codes-list_unused :
      HashVerifies env
      → (user : User) (replace : Bool) (codes : List Text) (w v : World)
      → generate_recovery_codes env user replace w ≡ (ok codes, v)
      → (length codes ≡ env.settings.backup_code_count)
        × AllVerify codes (list_unused user.id v.db)
        × (count_unused user.id v.db ≡ env.settings.backup_code_count)
  unfolding generate_recovery_codes count_unused
  generate_recovery_codes-list_unused hv user replace codes w v h =
      let m = when replace (delete_for_user user.id) in
      let (clear, h1) =
        after_raise_if (ltb 0 (count_unused user.id w.db) && not replace) _ _ w codes v h in
      let (_, _, h2) = >>=-eq-ok m _ w codes v h1 in
      let (many, all) = handed_out hv user codes (m w).1 v (cleared user replace w clear) h2 in
      (many, all, sym (length-AllVerify all) ∙ many)
