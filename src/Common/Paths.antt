-- ===== src/Common/Paths.antt =====
-- The functions of Go's packages path and path/filepath that the code uses: `Join`, `Clean`, `Base`;
-- and `strings.FieldsFunc` at slashes.
use Prim.Native.Char.{Char, code}
use Prim.Native.String.{String, ◌++◌ as append}
use mathlib.Core.Path.{◌≡◌, refl, sym, subst, ◌∙◌}
use mathlib.Core.Bool.{Bool, true, false, not, ◌||◌}
use mathlib.Core.Logic.{◌≢◌, inl, inr}
use native.Mathlib.Omega.{arith}
use text.Mathlib.TextEquality.{eq_iff}
use text.Mathlib.TextLemmas.{append-eq-nil_iff}
use mathlib.Core.List.{List, [], ◌∷◌, reverse}
use text.Mathlib.Text.{starts_with}
use runkube.Common.Tests.{if◌then◌else◌, eqb, Bool-cases}
use runkube.Common.Lists.{select}
use runkube.Common.Members.{In, here, there}
use runkube.Common.Texts.{◌==◌, ==_of_ne, join}

-- The texts one after the other, as `Sprintf` puts them.
unfoldable pub concat : List String → String
concat [] = ""
concat (x ∷ rest) = append x (concat rest)

push : Char → List String → List String
push c [] = String.◌∷◌ c "" ∷ []
push c (p ∷ ps) = String.◌∷◌ c p ∷ ps

-- The pieces between slashes, the empty ones included.
unfoldable pub pieces : String → List String
unfolding push
pieces String.[] = "" ∷ []
pieces (String.◌∷◌ c s) =
    let rest = pieces s in if eqb (code c) b'/' then "" ∷ rest else push c rest

-- The pieces that are not empty.
unfoldable pub fields : String → List String
unfolding pieces
fields s = select (λ p. not (p == "")) (pieces s)

up : Bool → List String → List String
up rooted [] = if rooted then [] else ".." ∷ []
up rooted (top ∷ below) = if top == ".." then ".." ∷ top ∷ below else below

-- The pieces of a clean path, the last first.
walk : Bool → List String → List String → List String
unfolding up
walk rooted done [] = done
walk rooted done (p ∷ rest) =
    walk rooted
      (if p == "" || p == "." then done else if p == ".." then up rooted done else p ∷ done) rest

unfoldable pub clean : String → String
unfolding walk pieces join
clean s =
    let rooted = starts_with s "/" in
    let body = join (reverse (walk rooted [] (pieces s))) "/" in
    if rooted then append "/" body else if body == "" then "." else body

-- `Join`: empty elements do not count.
unfoldable pub join_path : List String → String
unfolding clean join
join_path elements =
    let text = join (select (λ e. not (e == "")) elements) "/" in
    if text == "" then "" else clean text

last_of : String → List String → String
last_of default [] = default
last_of default (p ∷ rest) = last_of p rest

unfoldable pub base : String → String
unfolding fields last_of
base s = if s == "" then "." else last_of "/" (fields s)

joined : join_path ("/srv/" ∷ "" ∷ "etc/../run" ∷ "a.sock" ∷ []) ≡ "/srv/run/a.sock"
unfolding join_path
joined = refl

cleaned : join_path ("./a" ∷ "../../b/" ∷ []) ≡ "../b"
unfolding join_path
cleaned = refl

based : base "/srv/run/a.sock" ≡ "a.sock"
unfolding base
based = refl

clean_form : Bool → String → String
clean_form rooted body = if rooted then append "/" body else if body == "" then "." else body

clean_form-ne-empty : (rooted : Bool) (body : String) → clean_form rooted body ≢ ""
unfolding clean_form
clean_form-ne-empty true body e =
    ground (arith, (append-eq-nil_iff {p = "/"} {q = body}).0 e, eq_iff "/" "")
clean_form-ne-empty false body h = dot_or (body == "") refl h
  where
    dot_or : (b : Bool) → (body == "") ≡ b → (if b then "." else body) ≢ ""
    dot_or true e h = ground (arith, eq_iff "." "")
    dot_or false e h = ground (arith, eq_iff body "")

pub clean-ne-empty : (s : String) → clean s ≢ ""
unfolding clean clean_form
clean-ne-empty s =
    clean_form-ne-empty (starts_with s "/")
      (join (reverse (walk (starts_with s "/") [] (pieces s))) "/")

join_parts-ne-empty :
    (x : String) (rest : List String) (sep : String) → x ≢ "" → join (x ∷ rest) sep ≢ ""
unfolding join
join_parts-ne-empty x [] sep ne e = ne e
join_parts-ne-empty x (y ∷ rest) sep ne e = ne (append-eq-nil_iff.0 e).0

clean_text-ne-empty : (text : String) → text ≢ "" → (if text == "" then "" else clean text) ≢ ""
clean_text-ne-empty text ne =
    subst (λ b. (if b then "" else clean text) ≢ "") (sym (==_of_ne text "" ne))
      (clean-ne-empty text)

join_select-ne-empty :
    (x : String) (xs : List String)
    → x ≢ ""
    → In x xs
    → join (select (λ e. not (e == "")) xs) "/" ≢ ""
join_select-ne-empty x [] ne i = absurd (elim i [ ])
join_select-ne-empty x (y ∷ ys) ne (here e) =
    rw (==_of_ne y "" (λ h. ne (sym e ∙ h)))
      (join_parts-ne-empty y (select (λ e. not (e == "")) ys) "/" (λ h. ne (sym e ∙ h)))
join_select-ne-empty x (y ∷ ys) ne (there i) = elim (Bool-cases (y == "")) [
  | inl empty ↦ rw empty (join_select-ne-empty x ys ne i)
  | inr full ↦
      rw full
        (join_parts-ne-empty y (select (λ e. not (e == "")) ys) "/" (ground (arith, eq_iff y "")))
]

-- Joining an element that is not empty with others gives a path that is not empty.
pub join_path-ne-empty : (x : String) (xs : List String) → x ≢ "" → In x xs → join_path xs ≢ ""
unfolding join_path
join_path-ne-empty x xs ne i =
    clean_text-ne-empty (join (select (λ e. not (e == "")) xs) "/") (join_select-ne-empty x xs ne i)
