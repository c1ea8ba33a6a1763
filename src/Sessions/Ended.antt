-- ===== src/Sessions/Ended.antt =====
-- A session that has ended stays ended: no operation of services/session.py makes it active again.
use enterprise_auth_server.Common.{
  ℕ, ◌≡◌, ap, false, some, [], ◌∷◌, find, find-update, find-append, arith, if◌then◌else◌, ◌==◌,
  nat_eq,
}
use enterprise_auth_server.Models.{Session, Database}
use enterprise_auth_server.State.Keeps.{Keeps}
use enterprise_auth_server.Sessions.Repository.{add, save}
use enterprise_auth_server.Sessions.Stable.{IsEnding, IsStable}

-- The row with the UUID is there and inactive.
pub record HasEnded (u : ℕ) (db : Database) : Type 0 where
  pub row : Session
  pub found : find (λ s. s.session_uuid == u) db.sessions ≡ some row
  pub inactive : row.is_active ≡ false

module _ {u : ℕ} where
  save-HasEnded : (id : ℕ) (f : Session → Session) → IsEnding f → Keeps (HasEnded u) (save id f)
  unfolding save
  save-HasEnded id f e = record {
    at = λ w h. record {
      open_db =
          let p = h.open_db in
          let moved =
            find-update (λ s. s.session_uuid == u) (λ s. s.id == id) f w.db.sessions
              (λ s. ap (λ i. i == u) (e.same_uuid s)) in
          record {
            row = if p.row.id == id then f p.row else p.row;
            found = rw (moved, p.found);
            inactive = ground (arith, p.inactive, e.stays_inactive p.row);
          };
      committed_db = h.committed_db;
    };
  }

  add-HasEnded : (s : Session) → Keeps (HasEnded u) (add s)
  unfolding add
  add-HasEnded s = record {
    at = λ w h. record {
      open_db =
          let p = h.open_db in
          record {
            row = p.row;
            found = ground (
              arith,
              p.found,
              find-append (λ t. t.session_uuid == u) w.db.sessions (s ∷ []) p.row p.found,
            );
            inactive = p.inactive;
          };
      committed_db = ground (arith, h.committed_db);
    };
  }

pub HasEnded-IsStable : (u : ℕ) → IsStable (HasEnded u)
HasEnded-IsStable u = record { save_keeps = save-HasEnded; add_keeps = λ s a. add-HasEnded s }
