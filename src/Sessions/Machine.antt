-- ===== src/Sessions/Machine.antt =====
-- What the session service promises of each UUID: a machine with three states, which the operations
-- of backend/app/services/session.py refine.
use enterprise_auth_server.Common.{
  ℕ, ◌≡◌, ap, sym, subst, ◌∙◌, Bool, true, false, Option, none, some, List, [], ◌∷◌, ◌++◌, find,
  find-update, find-append, find-append_none, any, arith, ◌==◌, nat_eq, if◌then◌else◌, Bool-cases,
  Option-cases, inl, inr,
}
use mathlib.Core.Option
use enterprise_auth_server.Core.External.{Env}
use enterprise_auth_server.Models.{Session, Database}
use enterprise_auth_server.Core.Errors.{integrity_error}
use enterprise_auth_server.State.World.{World}
use enterprise_auth_server.State.Exec.{Result, ok, err}
use enterprise_auth_server.State.Keeps.{Keeps, Both}
use enterprise_auth_server.Sessions.Repository.{add, save}
use enterprise_auth_server.Sessions.Stable.{IsEnding, IsStable}
use enterprise_auth_server.Sessions.History.{Event, history, history-Keeps}

-- No session has the UUID; a user has a session under it; the session has ended.
pub data Status : Type 0 where
  absent : Status
  open_for : ℕ → Status
  closed : Status

abbrev row_status : Option Session → Status
row_status none = absent
row_status (some s) = if s.is_active then open_for s.user_id else closed

-- The state of a UUID in the tables.
abbrev pub status : ℕ → Database → Status
status u db = row_status (find (λ s. s.session_uuid == u) db.sessions)

pub data Step : Status → Status → Type 0 where
  opens : (user_id : ℕ) → Step absent (open_for user_id)
  closes : (user_id : ℕ) → Step (open_for user_id) closed

pub data Reach (a : Status) : Status → Type 0 where
  here : Reach a a
  next : {b c : Status} → Reach a b → Step b c → Reach a c

open_row : (s : Session) → s.is_active ≡ true → row_status (some s) ≡ open_for s.user_id
open_row s h = ground (arith, h)

closed_row : (s : Session) → s.is_active ≡ false → row_status (some s) ≡ closed
closed_row s h = ground (arith, h)

module _ {a : Status} where
  close : (user_id : ℕ) → Reach a (open_for user_id) → Reach a closed
  close user_id r = next r (closes user_id)

  ending_step :
      (f : Session → Session)
      → IsEnding f
      → (s : Session) → Reach a (row_status (some s))
      → Reach a (row_status (some (f s)))
  ending_step f e s r = elim (Bool-cases s.is_active) [
    | inr i ↦
        let still = e.stays_inactive s i in
        subst (Reach a) (closed_row s i ∙ sym (closed_row (f s) still)) r
    | inl i ↦ elim (Bool-cases (f s).is_active) [
      | inl j ↦
          subst (Reach a)
            (open_row s i ∙ ap open_for (sym (e.same_user s)) ∙ sym (open_row (f s) j)) r
      | inr j ↦
          subst (Reach a) (sym (closed_row (f s) j))
            (close s.user_id (subst (Reach a) (open_row s i) r))
    ]
  ]

  ending_step_if :
      (b : Bool) (f : Session → Session)
      → IsEnding f
      → (s : Session) → Reach a (row_status (some s))
      → Reach a (row_status (some (if b then f s else s)))
  ending_step_if true f e s r = ending_step f e s r
  ending_step_if false f e s r = r

  saved :
      (id : ℕ) (f : Session → Session)
      → IsEnding f
      → (o : Option Session) → Reach a (row_status o)
      → Reach a (row_status (Option.map (λ s. if s.id == id then f s else s) o))
  saved id f e none r = r
  saved id f e (some s) r = ending_step_if (s.id == id) f e s r

  opened :
      (b : Bool) (s : Session)
      → s.is_active ≡ true
      → Reach a absent
      → Reach a (row_status (if b then some s else none))
  opened true s active r = subst (Reach a) (sym (open_row s active)) (next r (opens s.user_id))
  opened false s active r = r

  -- A new row opens its UUID, when no row had it, and leaves every other as it was.
  added :
      (u : ℕ) (s : Session)
      → s.is_active ≡ true
      → (ss : List Session) → Reach a (row_status (find (λ t. t.session_uuid == u) ss))
      → Reach a (row_status (find (λ t. t.session_uuid == u) (ss ++ s ∷ [])))
  added u s active ss r =
      let here_is = λ (o : Option Session). Reach a (row_status o) in
      let p = λ (t : Session). t.session_uuid == u in
      elim (Option-cases (find p ss)) [
        | inl n ↦
            subst here_is (sym (find-append_none p ss s n))
              (opened (s.session_uuid == u) s active (subst here_is n r))
        | inr (t, f) ↦ subst here_is (f ∙ sym (find-append p ss (s ∷ []) t f)) r
      ]

module _ (u : ℕ) (a : Status) where
  -- The UUID has come to its present state from a given one.
  pub record CameFrom (db : Database) : Type 0 where
    pub steps : Reach a (status u db)

  save-CameFrom : (id : ℕ) (f : Session → Session) → IsEnding f → Keeps CameFrom (save id f)
  unfolding save
  save-CameFrom id f e = record {
    at = λ w h. record {
      open_db =
          let moved =
            find-update (λ s. s.session_uuid == u) (λ s. s.id == id) f w.db.sessions
              (λ s. ap (λ i. i == u) (e.same_uuid s)) in
          record {
            steps =
                rw moved
                  (saved id f e (find (λ s. s.session_uuid == u) w.db.sessions) h.open_db.steps);
          };
      committed_db = h.committed_db;
    };
  }

  either_way :
      (P : World → Type 0) (b : Bool) (x y : Result (Unit {0}) × World)
      → P x.1
      → P y.1
      → P (if b then x else y).1
  either_way P true x y p q = p
  either_way P false x y p q = q

  add-CameFrom : (s : Session) → s.is_active ≡ true → Keeps CameFrom (add s)
  unfolding add
  add-CameFrom s active = record {
    at = λ w h.
        let rows = w.db.sessions ++ s ∷ [] in
        let grown : World = record w { db = record w.db { sessions = rows } } in
        let longer : CameFrom grown.db = record {
          steps = added u s active w.db.sessions h.open_db.steps;
        } in
        let refused : Result (Unit {0}) × World = (err integrity_error, w) in
        let inserted : Result (Unit {0}) × World = (ok tt, grown) in
        let same_uuid = any (λ t. t.session_uuid == s.session_uuid) w.db.sessions in
        let has_user = any (λ u. u.id == s.user_id) w.db.users in
        let after_insert : Both CameFrom grown = record {
          open_db = longer;
          committed_db = h.committed_db;
        } in
        either_way (Both CameFrom) (any (λ t. t.id == s.id) w.db.sessions) refused
          (if same_uuid then refused else if has_user then inserted else refused) h
          (either_way (Both CameFrom) same_uuid refused (if has_user then inserted else refused) h
            (either_way (Both CameFrom) has_user inserted refused after_insert h));
  }

  CameFrom-IsStable : IsStable CameFrom
  CameFrom-IsStable = record { save_keeps = save-CameFrom; add_keeps = add-CameFrom }

-- From a state without pending writes, whatever requests on sessions follow one another, whether they
-- succeed or fail, and whatever becomes of Redis and the clock between them, each UUID comes to its
-- committed state by steps of the machine: a session is opened once, for one user, and once it is
-- closed it stays closed.
pub history-refines :
    {Token : Type 0} (env : Env Token) (es : List Event) (u : ℕ) (w : World)
    → w.committed ≡ w.db
    → Reach (status u w.db) (status u (history env es w).committed)
history-refines env es u w clean =
    let started : CameFrom u (status u w.db) w.db = record { steps = here } in
    let whole : Both (CameFrom u (status u w.db)) w = record {
      open_db = started;
      committed_db = subst (CameFrom u (status u w.db)) (sym clean) started;
    } in
    (history-Keeps env (CameFrom-IsStable u (status u w.db)) es w whole).committed_db.steps
