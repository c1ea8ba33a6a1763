-- ===== src/State/Reads.antt =====
-- Going back through a chain that succeeded, over the parts that only read.
use enterprise_auth_server.Common.{◌≡◌, refl, subst, true, false, Bool, Option, none, some, arith}
use enterprise_auth_server.Core.Errors.{Error}
use enterprise_auth_server.State.Redis.{Key}
use enterprise_auth_server.State.World.{World}
use enterprise_auth_server.State.Exec.{Exec, ok, ◌>>=◌, ◌>>◌, or_raise, raise_if, >>=-eq-ok}
use enterprise_auth_server.State.Commands.{exists}

-- The whole outcome of a handler, of which the result is known.
pub whole {ℓ} :
    {A : Type ℓ} (m : Exec A) (w : World) (a : A) → (m w).0 ≡ ok a → m w ≡ (ok a, (m w).1)
whole m w a e = λ i. (e i, (m w).1)

-- A handler that leaves the world as it is, whether it returns or raises.
pub record Reads {ℓ} {A : Type ℓ} (m : Exec A) : Type ℓ where
  pub same : (w : World) → (m w).1 ≡ w

module _ {ℓ κ} {A : Type ℓ} {B : Type κ} where
  -- A chain that succeeds after a part that only reads goes on from the same world.
  pub after_Reads :
      {m : Exec A} (f : A → Exec B) (w : World) (b : B) (v : World)
      → Reads m
      → (m >>= f) w ≡ (ok b, v)
      → (a : A) × ((m w).0 ≡ ok a) × (f a w ≡ (ok b, v))
  after_Reads {m} f w b v r h =
      let (a, e, k) = >>=-eq-ok m f w b v h in (a, e, subst (λ x. f a x ≡ (ok b, v)) (r.same w) k)

  pub after_or_raise :
      (e : Error) (o : Option A) (f : A → Exec B) (w : World) (b : B) (v : World)
      → (or_raise e o >>= f) w ≡ (ok b, v)
      → (a : A) × (o ≡ some a) × (f a w ≡ (ok b, v))
  after_or_raise e none f w b v h = absurd (cc)
  after_or_raise e (some a) f w b v h = (a, refl, h)

pub after_raise_if {κ} :
    {B : Type κ} (bad : Bool) (e : Error) (m : Exec B) (w : World) (b : B) (v : World)
    → (raise_if bad e >> m) w ≡ (ok b, v)
    → (bad ≡ false) × (m w ≡ (ok b, v))
after_raise_if true e m w b v h = absurd (cc)
after_raise_if false e m w b v h = (refl, h)

pub exists-Reads : (k : Key) → Reads (exists k)
unfolding exists
exists-Reads k = record { same = λ w. ground arith }
