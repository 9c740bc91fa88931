-- ===== src/Common/Members.antt =====
-- Membership in a list, as a family.
use mathlib.Core.Path.{◌≡◌, sym, ap, ◌∙◌}
use mathlib.Core.Logic.{◌⊎◌, inl, inr}
use mathlib.Core.Bool.{Bool, true}
use mathlib.Core.List.{List, [], ◌∷◌, ◌++◌}
use runkube.Common.Tests.{Bool-cases}
use runkube.Common.Lists.{select}

-- The element stands in the list.
pub data In {ℓ} {A : Type ℓ} (a : A) : List A → Type ℓ where
  here : {x : A} {xs : List A} → x ≡ a → In a (x ∷ xs)
  there : {x : A} {xs : List A} → In a xs → In a (x ∷ xs)

module _ {ℓ} {A : Type ℓ} where
  pub In-append_left : (a : A) (xs ys : List A) → In a xs → In a (xs ++ ys)
  In-append_left a [] ys h = elim h [ ]
  In-append_left a (x ∷ xs) ys (here e) = here e
  In-append_left a (x ∷ xs) ys (there i) = there (In-append_left a xs ys i)

  pub In-append_right : (a : A) (xs ys : List A) → In a ys → In a (xs ++ ys)
  In-append_right a [] ys h = h
  In-append_right a (x ∷ xs) ys h = there (In-append_right a xs ys h)

pub In-append {ℓ} : {A : Type ℓ} {a : A} (xs ys : List A) → In a (xs ++ ys) → In a xs ⊎ In a ys
In-append [] ys i = inr i
In-append (x ∷ xs) ys (here e) = inl (here e)
In-append (x ∷ xs) ys (there i) = elim (In-append xs ys i) [
  | inl front ↦ inl (there front)
  | inr back ↦ inr back
]

first_or_later {ℓ} :
    {A : Type ℓ} (p : A → Bool) {a x : A} {xs : List A}
    → p x ≡ true
    → (In a xs → p a ≡ true)
    → In a (x ∷ xs)
    → p a ≡ true
first_or_later p match later (here e) = ap p (sym e) ∙ match
first_or_later p match later (there i) = later i

-- What was kept passes the test.
pub In-select_passes {ℓ} :
    {A : Type ℓ} (p : A → Bool) (a : A) (xs : List A) → In a (select p xs) → p a ≡ true
In-select_passes p a [] i = elim i [ ]
In-select_passes p a (x ∷ xs) i = elim (Bool-cases (p x)) [
  | inr no_match ↦ In-select_passes p a xs (rw no_match at i)
  | inl match ↦ first_or_later p match (In-select_passes p a xs) (rw match at i)
]

In-cons {ℓ} :
    {A : Type ℓ} {a x : A} {ys xs : List A} → (In a ys → In a xs) → In a (x ∷ ys) → In a (x ∷ xs)
In-cons f (here e) = here e
In-cons f (there i) = there (f i)

pub In-select {ℓ} : {A : Type ℓ} (p : A → Bool) (a : A) (xs : List A) → In a (select p xs) → In a xs
In-select p a [] i = i
In-select p a (x ∷ xs) i = elim (Bool-cases (p x)) [
  | inr no_match ↦ there (In-select p a xs (rw no_match at i))
  | inl match ↦ In-cons (In-select p a xs) (rw match at i)
]

pub In-head_or_tail {ℓ} : {A : Type ℓ} {a x : A} {xs : List A} → In a (x ∷ xs) → (x ≡ a) ⊎ In a xs
In-head_or_tail (here e) = inl e
In-head_or_tail (there i) = inr i

pub In-single {ℓ} : {A : Type ℓ} {a x : A} → In a (x ∷ []) → x ≡ a
In-single (here e) = e
In-single (there i) = elim i [ ]
