-- ===== src/State/Quiet.antt =====
-- Handlers that leave the tables as they are, whether they return or raise.
use enterprise_auth_server.Common.{
  ◌≡◌, ◌∙◌, refl, Bool, true, false, Option, none, some, arith, if◌then◌else◌,
}
use enterprise_auth_server.Core.Errors.{Error}
use enterprise_auth_server.State.Redis.{Key}
use enterprise_auth_server.State.World.{World}
use enterprise_auth_server.State.Exec.{
  Result, ok, err, Exec, ◌>>=◌, ◌>>◌, pure, raise, gets, continue, or_raise, raise_if, draw,
  >>=-eq-ok,
}
use enterprise_auth_server.State.Commands

pub record IsQuiet {ℓ} {A : Type ℓ} (m : Exec A) : Type ℓ where
  pub same_db : (w : World) → (m w).1.db ≡ w.db

module _ {ℓ κ} {A : Type ℓ} {B : Type κ} where
  continue_quiet :
      (f : A → Exec B) (r : Result A) (w : World)
      → ((a : A) → IsQuiet (f a))
      → (continue f (r, w)).1.db ≡ w.db
  continue_quiet f (ok a) w q = (q a).same_db w
  continue_quiet f (err e) w q = refl

  pub IsQuiet-bind :
      {m : Exec A} {f : A → Exec B} → IsQuiet m → ((a : A) → IsQuiet (f a)) → IsQuiet (m >>= f)
  IsQuiet-bind {m} {f} p q = record {
    same_db = λ w. continue_quiet f (m w).0 (m w).1 q ∙ p.same_db w;
  }

  pub IsQuiet-then : {m : Exec A} {n : Exec B} → IsQuiet m → IsQuiet n → IsQuiet (m >> n)
  IsQuiet-then p q = IsQuiet-bind p (λ _. q)

  -- A chain that succeeds after a part that leaves the tables goes on from the same tables.
  pub after_quiet :
      {m : Exec A} (f : A → Exec B) (w : World) (b : B) (v : World)
      → IsQuiet m
      → (m >>= f) w ≡ (ok b, v)
      → (a : A) × (x : World) × ((m w).0 ≡ ok a) × (x.db ≡ w.db) × (f a x ≡ (ok b, v))
  after_quiet {m} f w b v q h =
      let (a, e, k) = >>=-eq-ok m f w b v h in (a, (m w).1, e, q.same_db w, k)

module _ {ℓ} {A : Type ℓ} where
  pub IsQuiet-pure : (a : A) → IsQuiet (pure a)
  IsQuiet-pure a = record { same_db = λ w. refl }

  pub IsQuiet-raise : (e : Error) → IsQuiet {A = A} (raise e)
  IsQuiet-raise e = record { same_db = λ w. refl }

  pub IsQuiet-gets : (f : World → A) → IsQuiet (gets f)
  IsQuiet-gets f = record { same_db = λ w. refl }

  pub IsQuiet-or_raise : (e : Error) (o : Option A) → IsQuiet (or_raise e o)
  IsQuiet-or_raise e none = IsQuiet-raise e
  IsQuiet-or_raise e (some a) = IsQuiet-pure a

  pub IsQuiet-if : (b : Bool) {m n : Exec A} → IsQuiet m → IsQuiet n → IsQuiet (if b then m else n)
  IsQuiet-if true p q = p
  IsQuiet-if false p q = q

pub IsQuiet-raise_if : (b : Bool) (e : Error) → IsQuiet (raise_if b e)
IsQuiet-raise_if true e = IsQuiet-raise e
IsQuiet-raise_if false e = IsQuiet-pure tt

pub IsQuiet-draw : IsQuiet draw
unfolding draw
IsQuiet-draw = record { same_db = λ w. refl }

pub IsQuiet-get : (k : Key) → IsQuiet (Commands.get k)
unfolding Commands.get
IsQuiet-get k = record { same_db = λ w. ground arith }

pub IsQuiet-delete : (k : Key) → IsQuiet (Commands.delete k)
unfolding Commands.delete
IsQuiet-delete k = record { same_db = λ w. ground arith }

pub ruleset quiet_rules = (
  IsQuiet-bind, IsQuiet-then, IsQuiet-pure, IsQuiet-raise, IsQuiet-or_raise, IsQuiet-if,
  IsQuiet-raise_if, IsQuiet-gets, IsQuiet-draw, IsQuiet-get, IsQuiet-delete,
)
