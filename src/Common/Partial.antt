-- ===== src/Common/Partial.antt =====
-- Computations that may have no result, for do blocks.
use mathlib.Core.Path.{◌≡◌, refl}
use mathlib.Core.Bool.{Bool, true, false}
use mathlib.Core.Option.{Option, none, some}
use enterprise_auth_server.Common.Tests.{if◌then◌else◌}

infixl 5 ◌>>=◌
abbrev pub ◌>>=◌ {ℓ κ} : {A : Type ℓ} {B : Type κ} → Option A → (A → Option B) → Option B
none >>= f = none
some a >>= f = f a

abbrev pub pure {ℓ} : {A : Type ℓ} → A → Option A
pure a = some a

-- A result behind a guard that refuses, and behind one that lets pass.
pub passed_unless {ℓ} :
    {A : Type ℓ} (b : Bool) (o : Option A) (a : A)
    → (if b then none else o) ≡ some a
    → (b ≡ false) × (o ≡ some a)
passed_unless true o a h = absurd (cc)
passed_unless false o a h = (refl, h)

pub passed_if {ℓ} :
    {A : Type ℓ} (b : Bool) (o : Option A) (a : A)
    → (if b then o else none) ≡ some a
    → (b ≡ true) × (o ≡ some a)
passed_if true o a h = (refl, h)
passed_if false o a h = absurd (cc)

pub >>=-eq-some {ℓ κ} :
    {A : Type ℓ} {B : Type κ} (o : Option A) (f : A → Option B) (b : B)
    → o >>= f ≡ some b
    → (a : A) × (o ≡ some a) × (f a ≡ some b)
>>=-eq-some none f b h = absurd (cc)
>>=-eq-some (some a) f b h = (a, refl, h)
