-- ===== src/Resolve/Tests.antt =====
-- The theorem on pkg/resolve at a concrete sequence.
use runkube.Common.{
  ℕ, ◌<◌, ◌≡◌, refl, ◌⊎◌, String, Bool, true, false, none, List, [], ◌∷◌, map, take, length, ltb,
}
use runkube.Resolve.{
  ok, err, Item, valuer, plain, Resolver, set_error, resolve_value, resolve_one, resolve,
}
use runkube.Resolve.Sequences.{text_of, or_first, resolve_lem}

abbrev items : List Item
items = plain "a" ∷ valuer (err "x") ∷ valuer (ok "b") ∷ valuer (err "y") ∷ []

-- A consumer of three texts.
abbrev wants_three : List String → Bool
wants_three seen = ltb (length seen) 3

abbrev start : Resolver
start = record { err_field = none }

three : (resolve wants_three [] items start).0 ≡ "a" ∷ "" ∷ "b" ∷ []
unfolding resolve resolve_one resolve_value set_error
three = refl

resolve_lem_example :
    let out = resolve wants_three [] items start in
    (k : ℕ) × (out.0 ≡ map text_of (take k items))
    × (out.1.err_field ≡ or_first none (take k items))
    × ((k ≡ 4) ⊎ (wants_three out.0 ≡ false))
    × ((j : ℕ) → 0 < j → j < length out.0 → wants_three (take j out.0) ≡ true)
resolve_lem_example = resolve_lem wants_three items start
