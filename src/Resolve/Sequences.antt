-- ===== src/Resolve/Sequences.antt =====
-- The sequences of pkg/resolve/resolve.go.
use runkube.Common.{
  ℕ, zero, suc, ◌<◌, true, ◌≡◌, refl, ap, ◌∙◌, ◌⊎◌, inl, inr, String, Bool, false, Option, none,
  some, List, [], ◌∷◌, ◌++◌, map, take, length, append-snoc, arith, Bool-cases, Option-cases, subst,
}
use Prim.Native.String.{◌++◌ as append}
use runkube.Resolve.{
  ok, err, Item, valuer, plain, other, Resolver, set_error, resolve_value, resolve_one, resolve,
}

-- The text of an item, which is empty where it has none.
abbrev pub text_of : Item → String
text_of (valuer (ok x)) = x
text_of (valuer (err e)) = ""
text_of (plain x) = x
text_of other = ""

-- The first error of a sequence of items, or none.
abbrev pub first_error : List Item → Option String
first_error [] = none
first_error (valuer (err e) ∷ rest) = some (append "ValueError " e)
first_error (_ ∷ rest) = first_error rest

abbrev pub or_first : Option String → List Item → Option String
or_first (some e) items = some e
or_first none items = first_error items

-- What was yielded, and the resolver after it, for the first items of a sequence.
abbrev pub IsPrefixOf : List Item → Resolver → List String × Resolver → ℕ → Type 0
IsPrefixOf items r out k =
    (out.0 ≡ map text_of (take k items)) × (out.1.err_field ≡ or_first r.err_field (take k items))

same_first :
    (o : Option String) (x : String) (rest : List Item)
    → or_first o rest ≡ or_first o (plain x ∷ rest)
same_first none x rest = refl
same_first (some e) x rest = refl

other_first : (o : Option String) (rest : List Item) → or_first o rest ≡ or_first o (other ∷ rest)
other_first none rest = refl
other_first (some e) rest = refl

ok_first :
    (o : Option String) (x : String) (rest : List Item)
    → or_first o rest ≡ or_first o (valuer (ok x) ∷ rest)
ok_first none x rest = refl
ok_first (some e) x rest = refl

nil_first : (o : Option String) → o ≡ or_first o []
nil_first none = refl
nil_first (some e) = refl

resolve_one_lem :
    (i : Item) (r : Resolver)
    → ((resolve_one i r).0 ≡ text_of i)
      × ((rest : List Item)
          → or_first (resolve_one i r).1.err_field rest ≡ or_first r.err_field (i ∷ rest))
unfolding resolve_one resolve_value set_error
resolve_one_lem (plain x) r = (refl, (λ rest. same_first r.err_field x rest))
resolve_one_lem other r = (refl, (λ rest. other_first r.err_field rest))
resolve_one_lem (valuer (ok x)) r = (refl, (λ rest. ok_first r.err_field x rest))
resolve_one_lem (valuer (err e)) r = (
  refl,
  (λ rest. elim (Option-cases r.err_field) [ inl n ↦ ground arith | inr (old, n) ↦ ground arith ]),
)

wanted_from :
    (more : List String → Bool) (seen : List String) (y : String) (ys : List String)
    → more (seen ++ y ∷ []) ≡ true
    → ((j : ℕ) → 0 < j → j < length ys → more ((seen ++ y ∷ []) ++ take j ys) ≡ true)
    → (j : ℕ) → 0 < j
    → j < length (y ∷ ys)
    → more (seen ++ take j (y ∷ ys)) ≡ true
wanted_from more seen y ys goes wanted zero low high = absurd (omega arith)
wanted_from more seen y ys goes wanted (suc zero) low high = goes
wanted_from more seen y ys goes wanted (suc (suc j)) low high =
    subst (λ l. more l ≡ true) (append-snoc seen y (take (suc j) ys))
      (wanted (suc j) (omega arith) (omega arith))

resolve_from :
    (more : List String → Bool) (seen : List String) (items : List Item) (r : Resolver)
    → let out = resolve more seen items r in
      (k : ℕ) × IsPrefixOf items r out k
      × ((k ≡ length items) ⊎ (more (seen ++ out.0) ≡ false))
      × ((j : ℕ) → 0 < j → j < length out.0 → more (seen ++ take j out.0) ≡ true)
unfolding resolve
resolve_from more seen [] r =
    (0, (refl, nil_first r.err_field), inl refl, (λ j low high. absurd (omega arith)))
resolve_from more seen (i ∷ rest) r = elim (Bool-cases (more (seen ++ (resolve_one i r).0 ∷ []))) [
  | inl goes ↦
      let (text, errors) = resolve_one_lem i r in
      let (k, (texts, later), stop, wanted) =
        resolve_from more (seen ++ (resolve_one i r).0 ∷ []) rest (resolve_one i r).1 in
      rw goes (
        suc k,
        (
          ap (λ y. y ∷ (resolve more (seen ++ (resolve_one i r).0 ∷ []) rest (resolve_one i r).1).0)
                text
              ∙ ap (λ l. text_of i ∷ l) texts,
          later ∙ errors (take k rest),
        ),
        elim stop [
          | inl all ↦ inl (ap (λ n. suc n) all)
          | inr ends ↦ inr (
              subst (λ l. more l ≡ false)
                (append-snoc seen (resolve_one i r).0
                  (resolve more (seen ++ (resolve_one i r).0 ∷ []) rest (resolve_one i r).1).0)
                ends)
        ],
        (λ j low high.
            wanted_from more seen (resolve_one i r).0
              (resolve more (seen ++ (resolve_one i r).0 ∷ []) rest (resolve_one i r).1).0 goes
              wanted j low high),
      )
  | inr ends ↦
      let (text, errors) = resolve_one_lem i r in
      rw ends (
        1,
        (ap (λ y. y ∷ []) text, nil_first (resolve_one i r).1.err_field ∙ errors []),
        inr ends,
        (λ j low high. absurd (omega arith)),
      )
]

-- The consumer is given the texts of the first items, one for each, in order: of all of them, or up to
-- one after which it wants no more; it wanted more after each text but the last. An item without a
-- text, or whose value fails, gives the empty text. The error that is kept is the first of those
-- items' errors, or one that was there before.
pub resolve_lem :
    (more : List String → Bool) (items : List Item) (r : Resolver)
    → let out = resolve more [] items r in
      (k : ℕ) × (out.0 ≡ map text_of (take k items))
      × (out.1.err_field ≡ or_first r.err_field (take k items))
      × ((k ≡ length items) ⊎ (more out.0 ≡ false))
      × ((j : ℕ) → 0 < j → j < length out.0 → more (take j out.0) ≡ true)
resolve_lem more items r =
    let (k, (texts, errors), stop, wanted) = resolve_from more [] items r in
    (k, texts, errors, stop, wanted)
