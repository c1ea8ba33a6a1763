-- ===== src/State/UnitOfWork.antt =====
-- backend/app/db/session.py: one transaction for each request.
use enterprise_auth_server.Common.{[], ◌≡◌, refl, arith}
use enterprise_auth_server.Core.Errors.{Error}
use enterprise_auth_server.State.World.{World}
use enterprise_auth_server.State.Exec.{Result, ok, err, Exec}

-- `await session.commit()`
unfoldable pub commit : Exec (Unit {0})
commit w = (ok tt, record w { committed = w.db })

-- `await session.rollback()`. The answer of an exception handler has no background tasks.
rollback : World → World
rollback w = record w { db = w.committed; background = [] }

-- `get_db`: commit once on success, roll back on any exception, and raise it again.
settle {ℓ} : {A : Type ℓ} → Result A × World → Result A × World
unfolding rollback
settle (ok a, w) = (ok a, record w { committed = w.db })
settle (err e, w) = (err e, rollback w)

unfoldable pub run_request {ℓ} : {A : Type ℓ} → Exec A → Exec A
unfolding settle
run_request m w = settle (m w)

-- What the world is after a request that succeeded.
pub record Succeeded {ℓ} {A : Type ℓ} (m : Exec A) (w : World) (a : A) (v : World) : Type ℓ where
  pub after : World
  pub returned : m w ≡ (ok a, after)
  pub committed_all : v ≡ record after { committed = after.db }

settled {ℓ} :
    {A : Type ℓ} (a : A) (r : Result A) (x v : World)
    → settle (r, x) ≡ (ok a, v)
    → (r ≡ ok a) × (v ≡ record x { committed = x.db })
unfolding settle
settled a (ok b) x v h = (ground arith, ground arith)
settled a (err e) x v h = (cc, cc)

pub run_request-Succeeded {ℓ} :
    {A : Type ℓ} (m : Exec A) (w : World) (a : A) (v : World)
    → run_request m w ≡ (ok a, v)
    → Succeeded m w a v
unfolding run_request
run_request-Succeeded m w a v h =
    let k = settled a (m w).0 (m w).1 v h in
    record { after = (m w).1; returned = ground (arith, k.0); committed_all = k.1 }

unwound {ℓ} :
    {A : Type ℓ} (e : Error) (r : Result A) (x : World)
    → r ≡ err e
    → ((settle (r, x)).1.db ≡ x.committed) × ((settle (r, x)).1.committed ≡ x.committed)
unfolding settle
unwound e (ok a) x h = (cc, cc)
unwound e (err d) x h = (refl, refl)

-- After a request that failed the tables are those that were committed while it ran.
pub rolled_back {ℓ} :
    {A : Type ℓ} (m : Exec A) (w : World) (e : Error)
    → (m w).0 ≡ err e
    → ((run_request m w).1.db ≡ (m w).1.committed)
      × ((run_request m w).1.committed ≡ (m w).1.committed)
unfolding run_request
rolled_back m w e h = unwound e (m w).0 (m w).1 h

refused {ℓ} :
    {A : Type ℓ} (e : Error) (r : Result A) (x : World) → r ≡ err e → (settle (r, x)).0 ≡ err e
unfolding settle
refused e (ok a) x h = cc
refused e (err d) x h = h

-- A request fails with the error of its handler.
pub run_request-err {ℓ} :
    {A : Type ℓ} (m : Exec A) (w : World) (e : Error)
    → (m w).0 ≡ err e
    → (run_request m w).0 ≡ err e
unfolding run_request
run_request-err m w e h = refused e (m w).0 (m w).1 h
