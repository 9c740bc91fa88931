-- ===== src/Frontend/Registry.antt =====
-- `Register` of pkg/frontend/server.go.
use runkube.Common.{
  ◌≡◌, refl, sym, subst, ◌≢◌, ◌⊎◌, inl, inr, ◌∙◌, String, Bool, true, false, none, some, List, [],
  ◌∷◌, arith, eq_iff, Option-cases, Bool-cases, lookup, insert, lookup-insert, eq_refl, All,
  if◌then◌else◌,
}
use runkube.Frontend.{Url, backend_key, Backend, Frontend, new_backend, register_one, register}

-- The backend that stands for a URL is there under its key.
abbrev pub IsRegistered : Frontend → Url → Type 0
IsRegistered f o =
    (k : String) × (backend_key o ≡ some k) × (lookup k f.backends ≡ some (new_backend k o))

-- Every backend stays what it is.
abbrev pub Keeps : Frontend → Frontend → Type 0
Keeps f f' =
    (k : String) (b : Backend) → lookup k f.backends ≡ some b → lookup k f'.backends ≡ some b

-- Why `registerOne` refuses a server: its port, or its key is taken.
abbrev pub IsRefused : Frontend → Url → Type 0
IsRefused f o = (k : String) → backend_key o ≡ some k → lookup k f.backends ≢ none

-- A predicate holds of an element.
abbrev pub Some : (Url → Type 0) → List Url → Type 0
Some P [] = ⊥
Some P (o ∷ os) = P o ⊎ Some P os

abbrev Registration : Url → Frontend → Bool × Frontend → Type 0
Registration o f out =
    Keeps f out.1
    × (((out.0 ≡ true) × IsRegistered out.1 o) ⊎ ((out.0 ≡ false) × (out.1 ≡ f) × IsRefused f o))

register_one_eq :
    (o : Url) (f : Frontend)
    → register_one o f ≡ elim (backend_key o) [
      | none ↦ (false, f)
      | some bk ↦ elim (lookup bk f.backends) [
        | some b ↦ (false, f)
        | none ↦ (true, record f { backends = insert bk (new_backend bk o) f.backends })
      ]
    ]
unfolding register_one
register_one_eq o f = refl

register_one_lem : (o : Url) (f : Frontend) → Registration o f (register_one o f)
register_one_lem o f = elim (Option-cases (backend_key o)) [
  | inl bad ↦
      let same : register_one o f ≡ (false, f) = register_one_eq o f ∙ rw bad in
      rw same ((λ k b e. e), inr (refl, refl, (λ k e. cc)))
  | inr (bk, e) ↦ elim (Option-cases (lookup bk f.backends)) [
    | inr (b, there) ↦
        let same : register_one o f ≡ (false, f) = register_one_eq o f ∙ rw (e, there) in
        rw same ((λ k b e. e), inr (refl, refl, (λ k e2 gone. taken bk b e there k e2 gone)))
    | inl free ↦
        let f' : Frontend = record f { backends = insert bk (new_backend bk o) f.backends } in
        let same : register_one o f ≡ (true, f') = register_one_eq o f ∙ rw (e, free) in
        rw same (
          (λ k b there.
              ground (arith, lookup-insert bk k (new_backend bk o) f.backends, eq_iff bk k)),
          inl (refl, (bk, e, lookup-insert bk bk (new_backend bk o) f.backends ∙ rw (eq_refl bk))),
        )
  ]
]
  where
    taken :
        (bk : String) (b : Backend)
        → backend_key o ≡ some bk
        → lookup bk f.backends ≡ some b
        → (k : String) → backend_key o ≡ some k
        → lookup k f.backends ≢ none
    taken bk b e there k e2 = λ gone. let same : bk ≡ k = cc in cc

Registered-Keeps : (f f' : Frontend) (o : Url) → Keeps f f' → IsRegistered f o → IsRegistered f' o
Registered-Keeps f f' o keeps (k, e, there) = (k, e, keeps k (new_backend k o) there)

-- What `Register` of a list comes to.
abbrev pub Registrations : List Url → Frontend → Bool × Frontend → Type 0
Registrations os f out =
    Keeps f out.1
    × (((out.0 ≡ true) × All (IsRegistered out.1) os)
        ⊎ ((out.0 ≡ false) × Some (IsRefused out.1) os))

register_eq :
    (o : Url) (os : List Url) (f : Frontend)
    → register (o ∷ os) f ≡ (
        if (register_one o f).0
        then register os (register_one o f).1
        else (false, (register_one o f).1))
unfolding register
register_eq o os f = refl

register_nil : (f : Frontend) → register [] f ≡ (true, f)
unfolding register
register_nil f = refl

-- `Register` never replaces a backend. When it returns nil, every server of the list is there with an
-- empty queue under its own key. When it returns an error, a server of the list has a port other than
-- 443 or a key that is taken.
pub register_lem : (os : List Url) (f : Frontend) → Registrations os f (register os f)
register_lem [] f =
    subst (λ out. Registrations [] f out) (sym (register_nil f)) ((λ k b e. e), inl (refl, tt))
register_lem (o ∷ os) f = elim (Bool-cases (register_one o f).0) [
  | inl registered ↦
      let (keeps, first) = register_one_lem o f in
      let f' = (register_one o f).1 in
      let (kept, later) = register_lem os f' in
      let same : register (o ∷ os) f ≡ register os f' = register_eq o os f ∙ rw registered in
      let here : IsRegistered f' o = there_is first registered in
      subst (λ out. Registrations (o ∷ os) f out) (sym same)
        (
          (λ k b e. kept k b (keeps k b e)),
          elim later [
            | inl (done, all) ↦
                inl (done, (Registered-Keeps f' (register os f').1 o kept here, all))
            | inr (failed, which) ↦ inr (failed, inr which)
          ],
        )
  | inr failed ↦
      let (keeps, first) = register_one_lem o f in
      let f' = (register_one o f).1 in
      let same : register (o ∷ os) f ≡ (false, f') = register_eq o os f ∙ rw failed in
      rw same (keeps, inr (refl, inl (refusal first failed)))
]
  where
    there_is :
        ((((register_one o f).0 ≡ true) × IsRegistered (register_one o f).1 o)
          ⊎ (((register_one o f).0 ≡ false) × ((register_one o f).1 ≡ f) × IsRefused f o))
        → (register_one o f).0 ≡ true
        → IsRegistered (register_one o f).1 o
    there_is (inl (a, b)) e = b
    there_is (inr (a, b, c)) e = cc

    refusal :
        ((((register_one o f).0 ≡ true) × IsRegistered (register_one o f).1 o)
          ⊎ (((register_one o f).0 ≡ false) × ((register_one o f).1 ≡ f) × IsRefused f o))
        → (register_one o f).0 ≡ false
        → IsRefused (register_one o f).1 o
    refusal (inl (a, b)) e = cc
    refusal (inr (a, b, c)) e = rw b c
