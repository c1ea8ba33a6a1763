-- ===== src/Common/Selection.antt =====
-- Lemmas on `any` and `select`: what stays of a list when a row is added and removed again.
use mathlib.Core.Path.{◌≡◌, refl}
use mathlib.Core.Bool.{Bool, true, false, not}
use mathlib.Core.Option.{none}
use mathlib.Core.List.{List, [], ◌∷◌, ◌++◌}
use native.Mathlib.Omega.{arith}
use enterprise_auth_server.Common.Tests.{if◌then◌else◌}
use enterprise_auth_server.Common.Lists.{find, select, any, All}

module _ {ℓ} {A : Type ℓ} where
  pub any-append_left : (p : A → Bool) (xs ys : List A) → any p xs ≡ true → any p (xs ++ ys) ≡ true
  unfolding any
  any-append_left p [] ys h = absurd (cc)
  any-append_left p (x ∷ xs) ys h = ground (arith, any-append_left p xs ys)

  pub any-append_right : (p : A → Bool) (xs ys : List A) → any p ys ≡ true → any p (xs ++ ys) ≡ true
  unfolding any
  any-append_right p [] ys h = h
  any-append_right p (x ∷ xs) ys h = ground (arith, any-append_right p xs ys h)

  pub any-append_none :
      (p : A → Bool) (xs ys : List A)
      → any p xs ≡ false
      → any p ys ≡ false
      → any p (xs ++ ys) ≡ false
  unfolding any
  any-append_none p [] ys h k = k
  any-append_none p (x ∷ xs) ys h k = ground (arith, any-append_none p xs ys)

  pub find-append_right :
      (p : A → Bool) (xs ys : List A) → find p xs ≡ none → find p (xs ++ ys) ≡ find p ys
  unfolding find
  find-append_right p [] ys h = refl
  find-append_right p (x ∷ xs) ys h = ground (arith, find-append_right p xs ys)

  pub any-append_last :
      (p : A → Bool) (xs : List A) (y : A) → p y ≡ true → any p (xs ++ y ∷ []) ≡ true
  unfolding any
  any-append_last p [] y h = ground arith
  any-append_last p (x ∷ xs) y h = ground (arith, any-append_last p xs y h)

  pub any-append_neither :
      (p : A → Bool) (xs : List A) (y : A)
      → any p xs ≡ false
      → p y ≡ false
      → any p (xs ++ y ∷ []) ≡ false
  unfolding any
  any-append_neither p xs y h k = any-append_none p xs (y ∷ []) h (rw k refl)

  pub any-select :
      (p q : A → Bool) (xs : List A)
      → ((x : A) → p x ≡ true → q x ≡ true)
      → any p xs ≡ true
      → any p (select q xs) ≡ true
  unfolding any select
  any-select p q [] h k = ground arith
  any-select p q (x ∷ xs) h k = ground (arith, h x, any-select p q xs h)

  pub any-eq-false : (p : A → Bool) (xs : List A) → All (λ x. p x ≡ false) xs → any p xs ≡ false
  unfolding any
  any-eq-false p [] a = refl
  any-eq-false p (x ∷ xs) a = ground (arith, any-eq-false p xs a.1, a.0)

  pub All_of_none : (p : A → Bool) (xs : List A) → any p xs ≡ false → All (λ x. p x ≡ false) xs
  unfolding any
  All_of_none p [] h = tt
  All_of_none p (x ∷ xs) h = (ground arith, All_of_none p xs (ground arith))

  pub All-both {κ ι} :
      (P : A → Type κ) (Q : A → Type ι) (xs : List A)
      → All P xs
      → All Q xs
      → All (λ x. P x × Q x) xs
  All-both P Q [] a b = tt
  All-both P Q (x ∷ xs) a b = ((a.0, b.0), All-both P Q xs a.1 b.1)

  -- The last row is removed again where no other passes its test.
  pub select-append_last :
      (p : A → Bool) (xs : List A) (y : A)
      → any p xs ≡ false
      → p y ≡ true
      → select (λ x. not (p x)) (xs ++ y ∷ []) ≡ xs
  unfolding any select
  select-append_last p [] y h k = ground arith
  select-append_last p (x ∷ xs) y h k = ground (arith, select-append_last p xs y)

  pub select-eq_all : (q : A → Bool) (xs : List A) → All (λ x. q x ≡ true) xs → select q xs ≡ xs
  unfolding select
  select-eq_all q [] a = refl
  select-eq_all q (x ∷ xs) a = ground (arith, select-eq_all q xs a.1, a.0)

  pub All-append {κ} :
      (P : A → Type κ) (xs : List A) (y : A) → All P xs → P y → All P (xs ++ y ∷ [])
  All-append P [] y a h = (h, tt)
  All-append P (x ∷ xs) y a h = (a.0, All-append P xs y a.1 h)

  All_if {κ} :
      (P : A → Type κ) (b : Bool) (x : A) (xs : List A)
      → (b ≡ true → P x)
      → All P xs
      → All P (if b then x ∷ xs else xs)
  All_if P true x xs h a = (h refl, a)
  All_if P false x xs h a = a

  -- The rows that are selected satisfy what every row satisfies that passes the test.
  pub All-select {κ ι} :
      (P : A → Type κ) (Q : A → Type ι) (q : A → Bool) (xs : List A)
      → ((x : A) → P x → q x ≡ true → Q x)
      → All P xs
      → All Q (select q xs)
  unfolding select
  All-select P Q q [] h a = tt
  All-select P Q q (x ∷ xs) h a = All_if Q (q x) x _ (h x a.0) (All-select P Q q xs h a.1)
