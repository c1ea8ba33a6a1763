-- ===== src/State/Exec.antt =====
-- Handlers read and write the world and may raise. What was written before a raise stays written.
use enterprise_auth_server.Common.{◌≡◌, ◌≢◌, refl, Bool, ℕ, ◌+◌, true, false, Option, none, some}
use enterprise_auth_server.Core.Errors.{Error, redis_error}
use enterprise_auth_server.State.World.{World}

pub data Result {ℓ} (A : Type ℓ) : Type ℓ where
  ok : A → Result A
  err : Error → Result A

abbrev pub Exec {ℓ} : Type ℓ → Type ℓ
Exec A = World → Result A × World

module _ {ℓ κ} {A : Type ℓ} {B : Type κ} where
  abbrev pub continue : (A → Exec B) → Result A × World → Result B × World
  continue f (ok a, w) = f a w
  continue f (err e, w) = (err e, w)

  infixl 5 ◌>>=◌
  abbrev pub ◌>>=◌ : Exec A → (A → Exec B) → Exec B
  ◌>>=◌ m f w = continue f (m w)

infixl 5 ◌>>◌
abbrev pub ◌>>◌ {ℓ κ} : {A : Type ℓ} {B : Type κ} → Exec A → Exec B → Exec B
m >> n = m >>= λ _. n

module _ {ℓ} {A : Type ℓ} where
  abbrev pub pure : A → Exec A
  pure a w = (ok a, w)

  abbrev pub raise : Error → Exec A
  raise e w = (err e, w)

  abbrev pub gets : (World → A) → Exec A
  gets f w = (ok (f w), w)

  -- `none` is an exception.
  abbrev pub or_raise : Error → Option A → Exec A
  or_raise e none = raise e
  or_raise e (some a) = pure a

  -- `except (RedisError, ConnectionError): ...`
  abbrev pub recover_redis : Exec A → Result A × World → Result A × World
  recover_redis h (ok a, w) = (ok a, w)
  recover_redis h (err redis_error, w) = h w
  recover_redis h (err e, w) = (err e, w)

  abbrev pub on_redis_error : Exec A → Exec A → Exec A
  on_redis_error h m w = recover_redis h (m w)

abbrev pub modify : (World → World) → Exec (Unit {0})
modify f w = (ok tt, f w)

abbrev pub raise_if : Bool → Error → Exec (Unit {0})
raise_if true e = raise e
raise_if false e = pure tt

abbrev pub when : Bool → Exec (Unit {0}) → Exec (Unit {0})
when true m = m
when false m = pure tt

-- The position of the next random value.
unfoldable pub draw : Exec ℕ
draw w = (ok w.drawn, record w { drawn = w.drawn + 1 })

module _ {ℓ κ} {A : Type ℓ} {B : Type κ} where
  continued :
      (f : A → Exec B) (r : Result A) (x : World) (b : B) (v : World)
      → continue f (r, x) ≡ (ok b, v)
      → (a : A) × (r ≡ ok a) × (f a x ≡ (ok b, v))
  continued f (ok a) x b v h = (a, refl, h)
  continued f (err e) x b v h = absurd (cc)

  -- A chain that succeeds has a first part that succeeds, and goes on from there.
  pub >>=-eq-ok :
      (m : Exec A) (f : A → Exec B) (w : World) (b : B) (v : World)
      → (m >>= f) w ≡ (ok b, v)
      → (a : A) × ((m w).0 ≡ ok a) × (f a (m w).1 ≡ (ok b, v))
  >>=-eq-ok m f w b v h = continued f (m w).0 (m w).1 b v h

  -- A chain that ends in a raise does not succeed.
  pub raises :
      (r : Result A × World) (e : Error) (b : B) → (continue (λ _. raise {A = B} e) r).0 ≢ ok b
  raises (ok a, w) e b = λ h. absurd (cc)
  raises (err d, w) e b = λ h. absurd (cc)
