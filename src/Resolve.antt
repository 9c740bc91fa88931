-- ===== src/Resolve.antt =====
-- pkg/resolve/resolve.go: a sequence of texts and of values that are still to be computed.
use runkube.Common.{
  ℕ, ◌≡◌, String, Bool, true, false, Option, none, some, List, [], ◌∷◌, ◌++◌, if◌then◌else◌,
}
use Prim.Native.String.{◌++◌ as append}
pub mod Sequences
pub mod Tests

-- What `Value` gives: a text or an error, which is its text.
pub data Result : Type 0 where
  ok err : String → Result

-- An element of the sequence: a `Valuer`, a text, or anything else.
pub data Item : Type 0 where
  valuer : Result → Item
  plain : String → Item
  other : Item

pub record Resolver : Type 0 where
  pub err_field : Option String

unfoldable pub set_error : String → Resolver → Resolver
set_error e r = elim r.err_field [ none ↦ record r { err_field = some e } | some old ↦ r ]

-- An error is wrapped in a `ValueError`.
unfoldable pub resolve_value : Result → Result
resolve_value (ok x) = ok x
resolve_value (err e) = err (append "ValueError " e)

-- The `switch`: the text that is yielded next. Its `break` leaves the `switch` only, so after an error
-- the empty text is yielded.
unfoldable pub resolve_one : Item → Resolver → String × Resolver
unfolding resolve_value set_error
resolve_one (valuer v) r = elim (resolve_value v) [ ok y ↦ (y, r) | err e ↦ ("", set_error e r) ]
resolve_one (plain x) r = (x, r)
resolve_one other r = ("", r)

-- `more` is what the consumer's `yield` returns, by all that it was given so far, the last included.
unfoldable pub resolve :
    (List String → Bool) → List String → List Item → Resolver → List String × Resolver
unfolding resolve_one
resolve more seen [] r = ([], r)
resolve more seen (i ∷ rest) r =
    let (y, r') = resolve_one i r in
    let seen' = seen ++ y ∷ [] in
    let (ys, r'') = resolve more seen' rest r' in if more seen' then (y ∷ ys, r'') else (y ∷ [], r')
