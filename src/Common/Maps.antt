-- ===== src/Common/Maps.antt =====
-- A Go map with string keys as an association list. The order of the list is the order in which a
-- `range` over the map visits it.
use Prim.Native.String.{String}
use mathlib.Core.Path.{◌≡◌, refl, subst, ap}
use mathlib.Core.Bool.{Bool, true}
use mathlib.Core.Logic.{◌≢◌, inl, inr}
use mathlib.Core.List.{List, [], ◌∷◌, ◌++◌}
use mathlib.Core.Option.{Option, none, some}
use native.Mathlib.Omega.{arith}
use text.Mathlib.TextEquality.{eq_iff}
use text.Mathlib.TextPositions.{eq_refl}
use runkube.Common.Tests.{if◌then◌else◌, Bool-cases}
use runkube.Common.Lists.{head?, select}
use runkube.Common.Texts.{◌==◌}

abbrev pub Dict {ℓ} : Type ℓ → Type ℓ
Dict V = List (String × V)

module _ {ℓ} {V : Type ℓ} where
  -- `m[k]`, with `none` for a missing key.
  unfoldable pub lookup : String → Dict V → Option V
  lookup k [] = none
  lookup k ((head, v) ∷ tail) = if head == k then some v else lookup k tail

  -- `m[k] = v`
  unfoldable pub insert : String → V → Dict V → Dict V
  insert k v [] = (k, v) ∷ []
  insert k v ((head, old) ∷ tail) =
      if head == k then (k, v) ∷ tail else (head, old) ∷ insert k v tail

  -- `delete(m, k)`
  unfoldable pub remove : String → Dict V → Dict V
  remove k [] = []
  remove k ((j, w) ∷ m) = if j == k then remove k m else (j, w) ∷ remove k m

  abbrev pub values : Dict V → List V
  values [] = []
  values ((j, w) ∷ m) = w ∷ values m

  pub lookup-insert :
      (set asked : String) (new : V) (m : Dict V)
      → lookup asked (insert set new m) ≡ (if set == asked then some new else lookup asked m)
  unfolding insert lookup
  lookup-insert set asked new [] = refl
  lookup-insert set asked new ((head, old) ∷ tail) = ground (
    arith,
    lookup-insert set asked new tail,
    eq_iff head asked,
    eq_iff head set,
    eq_iff set asked,
  )

  pub lookup-remove :
      (k j : String) (m : Dict V) → lookup j (remove k m) ≡ (if k == j then none else lookup j m)
  unfolding lookup remove
  lookup-remove k j [] = ground arith
  lookup-remove k j ((i, w) ∷ m) =
      ground (arith, eq_iff k j, eq_iff i k, eq_iff i j, lookup-remove k j m)

-- No key stands twice.
abbrev pub Distinct {ℓ} : {V : Type ℓ} → Dict V → Type ℓ
Distinct [] = Unit
Distinct ((k, v) ∷ m) = (lookup k m ≡ none) × Distinct m

module _ {ℓ} {V : Type ℓ} where
  pub insert-Distinct : (k : String) (v : V) (m : Dict V) → Distinct m → Distinct (insert k v m)
  unfolding insert lookup
  insert-Distinct k v [] d = (refl, tt)
  insert-Distinct k v ((j, w) ∷ m) d =
      ground (arith, eq_iff j k, eq_iff k j, lookup-insert k j v m, insert-Distinct k v m d.1)

  pub remove-Distinct : (k : String) (m : Dict V) → Distinct m → Distinct (remove k m)
  unfolding remove
  remove-Distinct k [] d = tt
  remove-Distinct k ((j, w) ∷ m) d =
      ground (arith, eq_iff j k, eq_iff k j, lookup-remove k j m, remove-Distinct k m d.1)

-- A predicate on every entry.
module _ {ℓ κ} {V : Type ℓ} (P : String → V → Type κ) where
  abbrev pub Entries : Dict V → Type κ
  Entries [] = Unit
  Entries ((k, v) ∷ m) = P k v × Entries m

  pub insert-Entries :
      (k : String) (v : V) (m : Dict V) → P k v → Entries m → Entries (insert k v m)
  unfolding insert
  insert-Entries k v [] p h = (p, tt)
  insert-Entries k v ((j, w) ∷ m) p h = elim (Bool-cases (j == k)) [
    | inl same ↦ rw same (p, h.1)
    | inr other ↦ rw other (h.0, insert-Entries k v m p h.1)
  ]

  pub remove-Entries : (k : String) (m : Dict V) → Entries m → Entries (remove k m)
  unfolding remove
  remove-Entries k [] h = tt
  remove-Entries k ((j, w) ∷ m) h = elim (Bool-cases (j == k)) [
    | inl same ↦ rw same (remove-Entries k m h.1)
    | inr other ↦ rw other (h.0, remove-Entries k m h.1)
  ]

  pub lookup-Entries : (k : String) (v : V) (m : Dict V) → lookup k m ≡ some v → Entries m → P k v
  unfolding lookup
  lookup-Entries k v [] e h = cc
  lookup-Entries k v ((j, w) ∷ m) e h = elim (Bool-cases (j == k)) [
    | inl same ↦
        let same_value : w ≡ v = ground arith in
        subst (λ x. P x v) ((eq_iff j k).0 same) (subst (P j) same_value h.0)
    | inr other ↦ lookup-Entries k v m (rw other at e) h.1
  ]

-- The first value that passes a test for its key is the value of the key.
pub head?-select-values {ℓ} :
    {V : Type ℓ} (p : V → Bool) (k : String) (m : Dict V)
    → Entries (λ j v. p v ≡ (j == k)) m
    → head? (select p (values m)) ≡ lookup k m
unfolding lookup
head?-select-values p k [] h = refl
head?-select-values p k ((j, v) ∷ m) h = ground (arith, head?-select-values p k m h.1)

pub Entries-mono {ℓ κ μ} :
    {V : Type ℓ} (P : String → V → Type κ) (Q : String → V → Type μ)
    → ((k : String) (v : V) → P k v → Q k v)
    → (m : Dict V) → Entries P m
    → Entries Q m
Entries-mono P Q f [] h = tt
Entries-mono P Q f ((k, v) ∷ m) h = (f k v h.0, Entries-mono P Q f m h.1)

-- Writing to a key in the middle of the list.
module _ {ℓ} {V : Type ℓ} where
  pub insert-append_middle :
      (k : String) (v w : V) (before after : Dict V)
      → lookup k before ≡ none
      → insert k w (before ++ ((k, v) ∷ after)) ≡ before ++ ((k, w) ∷ after)
  unfolding insert lookup
  insert-append_middle k v w [] after h = ground (arith, eq_refl k)
  insert-append_middle k v w ((j, x) ∷ before) after h =
      ground (arith, insert-append_middle k v w before after)

  lookup-append_none :
      (k j : String) (v : V) (before after : Dict V)
      → lookup k (before ++ ((j, v) ∷ after)) ≡ none
      → (lookup k before ≡ none) × (k ≢ j)
  unfolding lookup
  lookup-append_none k j v [] after h = ground (arith, eq_iff j k)
  lookup-append_none k j v ((i, x) ∷ before) after h =
      ground (arith, lookup-append_none k j v before after)

  -- In a map without repetition no entry before one has its key.
  pub Distinct-before :
      (k : String) (v : V) (before after : Dict V)
      → Distinct (before ++ ((k, v) ∷ after))
      → lookup k before ≡ none
  unfolding lookup
  Distinct-before k v [] after d = refl
  Distinct-before k v ((j, x) ∷ before) after d = ground (
    arith,
    lookup-append_none j k v before after d.0,
    Distinct-before k v before after d.1,
    eq_iff j k,
  )

  pub select_all : (m : List V) → select (λ _. true) m ≡ m
  select_all [] = refl
  select_all (x ∷ m) = ap (◌∷◌ x) (select_all m)

-- The last of two writes to a key counts.
pub insert-insert {ℓ} :
    {V : Type ℓ} (k : String) (v w : V) (m : Dict V) → insert k w (insert k v m) ≡ insert k w m
unfolding insert
insert-insert k v w [] = ground (arith, eq_refl k)
insert-insert k v w ((j, x) ∷ m) = ground (arith, eq_refl k, insert-insert k v w m)
