-- ===== src/Common/Tables.antt =====
-- Lemmas on `find`, `update` and `any`.
use mathlib.Core.Option
use mathlib.Core.Path.{◌≡◌, refl}
use mathlib.Core.Bool.{Bool, true, false}
use mathlib.Core.Option.{Option, none, some}
use mathlib.Core.List.{List, [], ◌∷◌, ◌++◌}
use native.Mathlib.Omega.{arith}
use enterprise_auth_server.Common.Tests.{if◌then◌else◌}
use enterprise_auth_server.Common.Lists.{find, update, any, All, length}
use enterprise_auth_server.Common.Tests.{ltb}

module _ {ℓ} {A : Type ℓ} where
  -- An update that does not change what is looked for changes the row that is found.
  pub find-update :
      (p q : A → Bool) (f : A → A) (xs : List A)
      → ((x : A) → p (f x) ≡ p x)
      → find p (update q f xs) ≡ Option.map (λ x. if q x then f x else x) (find p xs)
  unfolding find update
  find-update p q f [] h = refl
  find-update p q f (x ∷ xs) h = ground (arith, h x, find-update p q f xs h)

  pub find-append :
      (p : A → Bool) (xs ys : List A) (x : A) → find p xs ≡ some x → find p (xs ++ ys) ≡ some x
  unfolding find
  find-append p [] ys x h = ground arith
  find-append p (z ∷ xs) ys x h = ground (arith, find-append p xs ys x)

  pub find-append_none :
      (p : A → Bool) (xs : List A) (y : A)
      → find p xs ≡ none
      → find p (xs ++ y ∷ []) ≡ (if p y then some y else none)
  unfolding find
  find-append_none p [] y h = refl
  find-append_none p (z ∷ xs) y h = ground (arith, find-append_none p xs y)

  pub any_of_find : (p : A → Bool) (xs : List A) (x : A) → find p xs ≡ some x → any p xs ≡ true
  unfolding find any
  any_of_find p [] x h = ground arith
  any_of_find p (z ∷ xs) x h = ground (arith, any_of_find p xs x)

  pub any-eq-false_of_find : (p : A → Bool) (xs : List A) → find p xs ≡ none → any p xs ≡ false
  unfolding find any
  any-eq-false_of_find p [] h = refl
  any-eq-false_of_find p (z ∷ xs) h = ground (arith, any-eq-false_of_find p xs)

  pub find-none_of_any : (p : A → Bool) (xs : List A) → any p xs ≡ false → find p xs ≡ none
  unfolding find any
  find-none_of_any p [] h = refl
  find-none_of_any p (z ∷ xs) h = ground (arith, find-none_of_any p xs)

  pub find-append_last :
      (p : A → Bool) (xs : List A) (y : A)
      → any p xs ≡ false
      → p y ≡ true
      → find p (xs ++ y ∷ []) ≡ some y
  unfolding find any
  find-append_last p [] y h k = ground arith
  find-append_last p (z ∷ xs) y h k = ground (arith, find-append_last p xs y)

  pub find_holds : (p : A → Bool) (xs : List A) (x : A) → find p xs ≡ some x → p x ≡ true
  unfolding find
  find_holds p [] x h = ground arith
  find_holds p (z ∷ xs) x h = ground (arith, find_holds p xs x)

  pub All-update {κ ι} :
      (P : A → Type κ) (Q : A → Type ι) (p : A → Bool) (f : A → A) (xs : List A)
      → ((x : A) → P x → Q (if p x then f x else x))
      → All P xs
      → All Q (update p f xs)
  unfolding update
  All-update P Q p f [] h a = tt
  All-update P Q p f (x ∷ xs) h a = (h x a.0, All-update P Q p f xs h a.1)

  pub All-map {κ ι} :
      (P : A → Type κ) (Q : A → Type ι) (xs : List A) → ((x : A) → P x → Q x) → All P xs → All Q xs
  All-map P Q [] h a = tt
  All-map P Q (x ∷ xs) h a = (h x a.0, All-map P Q xs h a.1)

  -- A list that is not longer than nothing is empty.
  pub none_of_none : (xs : List A) → ltb 0 (length xs) ≡ false → xs ≡ []
  none_of_none [] h = refl
  none_of_none (x ∷ xs) h = ground (arith, h)
