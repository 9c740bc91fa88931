-- ===== src/Kapi/Registration.antt =====
-- pkg/kapi/kapi.go: what `http.ServeMux` makes of a list of registrations.
use runkube.Common.{
  ◌≡◌, inl, inr, ap, String, none, some, List, [], ◌∷◌, ◌++◌, arith, In, here, there,
  In-append_right, Dict, lookup, insert, lookup-insert, eq_iff, eq_refl, Option-cases,
}
use runkube.Kapi.Routes.{Handler, register}

-- A pattern that stands in the mux stays as it is.
register_keeps :
    (rs : List (String × Handler)) (mux mux' : Dict Handler) (p : String) (h : Handler)
    → register rs mux ≡ some mux'
    → lookup p mux ≡ some h
    → lookup p mux' ≡ some h
unfolding register
register_keeps [] mux mux' p h e found = ground arith
register_keeps ((q, k) ∷ rest) mux mux' p h e found =
    ground
      (arith, register_keeps rest (insert q k mux) mux' p h, lookup-insert q p k mux, eq_iff q p)

-- What is registered is served.
pub lookup-register :
    (rs : List (String × Handler)) (mux mux' : Dict Handler) (p : String) (h : Handler)
    → register rs mux ≡ some mux'
    → In (p, h) rs
    → lookup p mux' ≡ some h
unfolding register
lookup-register [] mux mux' p h e i = elim i [ ]
lookup-register ((q, k) ∷ rest) mux mux' p h e (here e') = ground (
  arith,
  ap (λ (r : String × Handler). r.0) e',
  ap (λ (r : String × Handler). r.1) e',
  register_keeps rest (insert q k mux) mux' q k,
  lookup-insert q q k mux,
  eq_refl q,
)
lookup-register ((q, k) ∷ rest) mux mux' p h e (there i') =
    ground (arith, lookup-register rest (insert q k mux) mux' p h _ i')

-- What is registered was not there.
register_fresh :
    (rs : List (String × Handler)) (mux mux' : Dict Handler) (p : String) (h : Handler)
    → register rs mux ≡ some mux'
    → In (p, h) rs
    → lookup p mux ≡ none
unfolding register
register_fresh [] mux mux' p h e i = elim i [ ]
register_fresh ((q, k) ∷ rest) mux mux' p h e (here e') =
    ground (arith, ap (λ (r : String × Handler). r.0) e')
register_fresh ((q, k) ∷ rest) mux mux' p h e (there i') =
    ground (
      arith,
      register_fresh rest (insert q k mux) mux' p h _ i',
      lookup-insert q p k mux,
      eq_iff q p,
    )

-- No pattern is registered twice.
pub register_once :
    (xs ys : List (String × Handler)) (mux : Dict Handler) (p : String) (h k : Handler)
    → In (p, h) xs
    → In (p, k) ys
    → register (xs ++ ys) mux ≡ none
unfolding register
register_once [] ys mux p h k i j = elim i [ ]
register_once ((q, g) ∷ xs) ys mux p h k (here e') j =
    elim (Option-cases (register (xs ++ ys) (insert q g mux))) [
      | inl panics ↦ ground arith
      | inr (mux', goes) ↦ absurd (
          ground (
            arith,
            ap (λ (r : String × Handler). r.0) e',
            register_fresh (xs ++ ys) (insert q g mux) mux' p k goes
                (In-append_right (p, k) xs ys j),
            lookup-insert q p g mux,
            eq_iff q p,
          ))
    ]
register_once ((q, g) ∷ xs) ys mux p h k (there i') j =
    ground (arith, register_once xs ys (insert q g mux) p h k i' j)
