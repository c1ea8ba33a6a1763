-- ===== src/Sessions/LogoutAll.antt =====
-- `revoke_all` reaches every active session of the user.
use enterprise_auth_server.Common.{
  ℕ, ◌+◌, ◌≡◌, sym, ◌∙◌, subst, ◌⊎◌, inl, inr, Bool, true, ◌&&◌, Option, List, [], ◌∷◌, Text, All,
  All-update, All-map, any, select, arith, if◌then◌else◌, ◌==◌, nat_eq, nat_beq_iff, Bool-cases,
}
use enterprise_auth_server.Core.External.{Env}
use enterprise_auth_server.Models.{Session, User}
use enterprise_auth_server.State.World.{World}
use enterprise_auth_server.State.Exec.{ok, >>=-eq-ok}
use enterprise_auth_server.Sessions.{ended, is_excepted, revoke, revoke_each, revoke_all}
use enterprise_auth_server.Sessions.Repository.{save, owned_active, by_activity, any-by_activity}
use enterprise_auth_server.Sessions.History.{revoke-db}

-- The same row, in a list read earlier.
abbrev same_row : Session → Session → Bool
same_row t s = s.id == t.id && s.session_uuid == t.session_uuid

listed : List Session → Session → Bool
listed ss t = any (same_row t) ss

module _ (user_id : ℕ) (kept : Option ℕ) where
  -- An active row of the user is excepted, or still to be revoked.
  abbrev Covered : List Session → Session → Type 0
  Covered ss t = owned_active user_id t ≡ true → (is_excepted kept t ≡ true) ⊎ (listed ss t ≡ true)

  -- An active row of the user is excepted.
  abbrev pub Kept : Session → Type 0
  Kept t = owned_active user_id t ≡ true → is_excepted kept t ≡ true

  skip-Covered :
      (s : Session) (ss : List Session) (t : Session)
      → is_excepted kept s ≡ true
      → Covered (s ∷ ss) t
      → Covered ss t
  unfolding listed any
  skip-Covered s ss t k c a = ground (arith, c a, nat_beq_iff s.session_uuid t.session_uuid)

  revoke-Covered :
      (s : Session) (ss : List Session) (reason : Text) (now : ℕ) (t : Session)
      → Covered (s ∷ ss) t
      → Covered ss (if t.id == s.id then ended reason now t else t)
  unfolding listed any
  revoke-Covered s ss reason now t c = elim (Bool-cases (t.id == s.id)) [
    | inl e ↦ rw e (λ a. ground arith)
    | inr e ↦ rw e (λ a. ground (arith, c a, nat_beq_iff s.id t.id, nat_beq_iff t.id s.id))
  ]

  selected :
      (xs : List Session)
      → All
          (λ t. owned_active user_id t ≡ true → listed (select (owned_active user_id) xs) t ≡ true)
          xs
  unfolding listed any select
  selected [] = tt
  selected (x ∷ xs) = (
    λ a. ground (arith, nat_beq_iff x.id x.id, nat_beq_iff x.session_uuid x.session_uuid),
    All-map
        (λ t. owned_active user_id t ≡ true → listed (select (owned_active user_id) xs) t ≡ true)
        (λ t.
          owned_active user_id t ≡ true → listed (select (owned_active user_id) (x ∷ xs)) t ≡ true)
        xs (λ t h a. ground (arith, h a)) (selected xs),
  )

module _ {Token : Type 0} (env : Env Token) (user_id : ℕ) (kept : Option ℕ) where
  skipped :
      (s : Session) (ss : List Session) (w : World)
      → is_excepted kept s ≡ true
      → All (Covered user_id kept (s ∷ ss)) w.db.sessions
      → All (Covered user_id kept ss) w.db.sessions
  skipped s ss w k a =
      All-map (Covered user_id kept (s ∷ ss)) (Covered user_id kept ss) w.db.sessions
        (λ t. skip-Covered user_id kept s ss t k) a

  revoked :
      (s : Session) (ss : List Session) (reason : Text) (w : World)
      → All (Covered user_id kept (s ∷ ss)) w.db.sessions
      → All (Covered user_id kept ss) (revoke env s reason w).1.db.sessions
  revoked s ss reason w a =
      subst (λ d. All (Covered user_id kept ss) d.sessions) (sym (revoke-db env s reason w))
        (unfold save in
          All-update (Covered user_id kept (s ∷ ss)) (Covered user_id kept ss) (λ t. t.id == s.id)
            (ended reason w.now) w.db.sessions (revoke-Covered user_id kept s ss reason w.now) a)

  revoke_each-Kept :
      (ss : List Session) (reason : Text) (c n : ℕ) (w v : World)
      → revoke_each env ss reason kept c w ≡ (ok n, v)
      → All (Covered user_id kept ss) w.db.sessions
      → All (Covered user_id kept []) v.db.sessions
  unfolding revoke_each
  revoke_each-Kept [] reason c n w v h a =
      subst {A = World} (λ x. All (Covered user_id kept []) x.db.sessions) {x = w} {y = v}
        (ground arith) a
  revoke_each-Kept (s ∷ ss) reason c n w v h a = elim (Bool-cases (is_excepted kept s)) [
    | inl e ↦ revoke_each-Kept ss reason c n w v (ground arith) (skipped s ss w e a)
    | inr e ↦
        let k =
          >>=-eq-ok (revoke env s reason) (λ _. revoke_each env ss reason kept (c + 1)) w n v
            (ground arith) in
        revoke_each-Kept ss reason (c + 1) n (revoke env s reason w).1 v k.2
          (revoked s ss reason w a)
  ]

  start :
      (ss : List Session)
      → All (Covered user_id kept (by_activity (select (owned_active user_id) ss))) ss
  start ss =
      All-map
        (λ t. owned_active user_id t ≡ true → listed (select (owned_active user_id) ss) t ≡ true)
        (Covered user_id kept (by_activity (select (owned_active user_id) ss))) ss
        (λ t h a. inr (
          unfold listed in (any-by_activity (same_row t) (select (owned_active user_id) ss) ∙ h a)))
        (selected user_id kept ss)

module _ {Token : Type 0} (env : Env Token) where
  -- After `revoke_all` has returned, every session of the user that is still active is the excepted
  -- one; with no exception none is active.
  pub revoke_all-Kept :
      (user : User) (kept : Option ℕ) (reason : Text) (n : ℕ) (w v : World)
      → revoke_all env user reason kept w ≡ (ok n, v)
      → All (Kept user.id kept) v.db.sessions
  unfolding revoke_all
  revoke_all-Kept user kept reason n w v h =
      All-map (Covered user.id kept []) (Kept user.id kept) v.db.sessions
        (λ t c a. unfold listed any in ground (arith, c a))
        (revoke_each-Kept env user.id kept
          (by_activity (select (owned_active user.id) w.db.sessions)) reason 0 n w v (ground arith)
          (start env user.id kept w.db.sessions))
