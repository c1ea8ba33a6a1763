-- ===== src/State/Keeps.antt =====
-- Predicates on the tables that handlers keep, one rule for each way to build a handler.
use enterprise_auth_server.Common.{ℕ, Bool, true, false, ◌≡◌, arith, if◌then◌else◌}
use enterprise_auth_server.Core.Errors.{Error}
use enterprise_auth_server.Models.{Database}
use enterprise_auth_server.State.Redis.{Key, Value}
use enterprise_auth_server.State.World.{World}
use enterprise_auth_server.State.Exec.{
  Result, ok, err, Exec, ◌>>=◌, ◌>>◌, continue, pure, raise, gets, raise_if, draw,
}
use enterprise_auth_server.State.Commands.{exists, set, delete}
use enterprise_auth_server.State.UnitOfWork.{commit, run_request}

-- The predicate holds of the tables of the open transaction and of the committed ones.
pub record Both (P : Database → Type 0) (w : World) : Type 0 where
  pub open_db : P w.db
  pub committed_db : P w.committed

-- Whether it returns or raises, the handler keeps the predicate.
pub record Keeps {ℓ} {A : Type ℓ} (P : Database → Type 0) (m : Exec A) : Type ℓ where
  pub at : (w : World) → Both P w → Both P (m w).1

module _ {P : Database → Type 0} where
  continue-Both {ℓ κ} :
      {A : Type ℓ} {B : Type κ} (f : A → Exec B)
      → ((a : A) → Keeps P (f a))
      → (r : Result A) (w : World) → Both P w
      → Both P (continue f (r, w)).1
  continue-Both f k (ok a) w h = (k a).at w h
  continue-Both f k (err e) w h = h

  pub Keeps-bind {ℓ κ} :
      {A : Type ℓ} {B : Type κ} {m : Exec A} {f : A → Exec B}
      → Keeps P m
      → ((a : A) → Keeps P (f a))
      → Keeps P (m >>= f)
  Keeps-bind {m} {f} k l = record { at = λ w h. continue-Both f l (m w).0 (m w).1 (k.at w h) }

  pub Keeps-then {ℓ κ} :
      {A : Type ℓ} {B : Type κ} {m : Exec A} {n : Exec B} → Keeps P m → Keeps P n → Keeps P (m >> n)
  Keeps-then k l = Keeps-bind k (λ a. l)

  pub Keeps-pure {ℓ} : {A : Type ℓ} (a : A) → Keeps P (pure a)
  Keeps-pure a = record { at = λ w h. h }

  pub Keeps-raise {ℓ} : {A : Type ℓ} (e : Error) → Keeps P (raise {A = A} e)
  Keeps-raise e = record { at = λ w h. h }

  pub Keeps-gets {ℓ} : {A : Type ℓ} (f : World → A) → Keeps P (gets f)
  Keeps-gets f = record { at = λ w h. h }

  pub Keeps-raise_if : (b : Bool) (e : Error) → Keeps P (raise_if b e)
  Keeps-raise_if true e = record { at = λ w h. h }
  Keeps-raise_if false e = record { at = λ w h. h }

  pub Keeps-if {ℓ} :
      {A : Type ℓ} (b : Bool) {m n : Exec A} → Keeps P m → Keeps P n → Keeps P (if b then m else n)
  Keeps-if true k l = k
  Keeps-if false k l = l

  pub same_tables {ℓ} :
      {A : Type ℓ} (m : Exec A)
      → ((w : World) → ((m w).1.db ≡ w.db) × ((m w).1.committed ≡ w.committed))
      → Keeps P m
  same_tables m e = record {
    at = λ w h. record {
      open_db = rw ((e w).0) h.open_db;
      committed_db = rw ((e w).1) h.committed_db;
    };
  }

  pub Keeps-exists : (k : Key) → Keeps P (exists k)
  unfolding exists
  Keeps-exists k = same_tables (exists k) λ w. (ground arith, ground arith)

  pub Keeps-set : (k : Key) (x : Value) (ex : ℕ) → Keeps P (set k x ex)
  unfolding set
  Keeps-set k x ex = same_tables (set k x ex) λ w. (ground arith, ground arith)

  pub Keeps-delete : (k : Key) → Keeps P (delete k)
  unfolding delete
  Keeps-delete k = same_tables (delete k) λ w. (ground arith, ground arith)

  pub Keeps-draw : Keeps P draw
  unfolding draw
  Keeps-draw = record { at = λ w h. record { open_db = h.open_db; committed_db = h.committed_db } }

  pub Keeps-commit : Keeps P commit
  unfolding commit
  Keeps-commit = record { at = λ w h. record { open_db = h.open_db; committed_db = h.open_db } }

  settle-Both {ℓ} :
      {A : Type ℓ} (r : Result A) (w : World) → Both P w → Both P (run_request (λ _. (r, w)) w).1
  unfolding run_request
  settle-Both (ok a) w h = record { open_db = h.open_db; committed_db = h.open_db }
  settle-Both (err e) w h = record { open_db = h.committed_db; committed_db = h.committed_db }

  -- A request keeps what its handler keeps, also when it is rolled back.
  pub Keeps-run_request {ℓ} : {A : Type ℓ} {m : Exec A} → Keeps P m → Keeps P (run_request m)
  unfolding run_request
  Keeps-run_request {m} k = record { at = λ w h. settle-Both (m w).0 (m w).1 (k.at w h) }

pub ruleset keeps_rules = (
  Keeps-bind, Keeps-then, Keeps-pure, Keeps-raise, Keeps-gets, Keeps-raise_if, Keeps-if,
  Keeps-exists, Keeps-set, Keeps-delete, Keeps-draw, Keeps-commit,
)
