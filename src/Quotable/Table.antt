-- ===== src/Quotable/Table.antt =====
-- An index that looks through all of its objects: it has what is documented of package cache.
use runkube.Common.{
  ◌≡◌, refl, ap, ◌∙◌, ◌↔◌, inl, inr, String, Bool, true, false, Option, none, some, List, [], ◌∷◌,
  ◌==◌, Bool-cases, In, here, there, In-head_or_tail, In-select_passes, select, contains, lookup,
  insert, remove, lookup-insert, lookup-remove, Dict, arith, eq_iff,
}
use runkube.Quotable.{Metadata, Indexer, IsIndexer, index_funcs}

keys_of : Dict Metadata → List String
keys_of [] = []
keys_of ((k, o) ∷ rest) = k ∷ keys_of rest

has : (Metadata → List String) → String → Option Metadata → Bool
has f v none = false
has f v (some o) = contains (f o) v

unfoldable pub keys_with : (Metadata → List String) → String → Dict Metadata → List String
unfolding has keys_of
keys_with f v s = select (λ k. has f v (lookup k s)) (keys_of s)

unfoldable pub keys_by :
    Option (Metadata → List String) → String → Dict Metadata → Option (List String)
unfolding keys_with
keys_by none v s = none
keys_by (some f) v s = some (keys_with f v s)

abbrev pub table : Indexer
table = record {
  Store = Dict Metadata;
  empty = [];
  add = λ o s. insert o.uid o s;
  delete = λ o s. remove o.uid s;
  index_keys = λ name v s. keys_by (lookup name index_funcs) v s;
  list_index_func_values = λ name s. [];
}

In-contains : (v : String) (xs : List String) → contains xs v ≡ true → In v xs
In-contains v [] e = absurd (ground arith)
In-contains v (x ∷ xs) e = elim (Bool-cases (x == v)) [
  | inl same ↦ here ((eq_iff x v).0 same)
  | inr other ↦ there (In-contains v xs (ground arith))
]

contains-In : (v : String) (xs : List String) → In v xs → contains xs v ≡ true
contains-In v [] i = absurd (elim i [ ])
contains-In v (x ∷ xs) i = elim (In-head_or_tail i) [
  | inl same ↦ ground (arith, eq_iff x v)
  | inr later ↦ ground (arith, contains-In v xs later)
]

In-keys_of :
    (k : String) (s : Dict Metadata) (o : Metadata) → lookup k s ≡ some o → In k (keys_of s)
unfolding keys_of lookup
In-keys_of k [] o e = absurd (ground arith)
In-keys_of k ((j, p) ∷ rest) o e = elim (Bool-cases (j == k)) [
  | inl same ↦ here ((eq_iff j k).0 same)
  | inr other ↦ there (In-keys_of k rest o (rw other at e))
]

select-In :
    (p : String → Bool) (k : String) (xs : List String) → In k xs → p k ≡ true → In k (select p xs)
select-In p k [] i good = i
select-In p k (x ∷ xs) i good = elim (In-head_or_tail i) [
  | inl same ↦ rw (ap p same ∙ good) (here same)
  | inr later ↦ elim (Bool-cases (p x)) [
    | inl kept ↦ rw kept (there (select-In p k xs later good))
    | inr left ↦ rw left (select-In p k xs later good)
  ]
]

has-eq-true :
    (f : Metadata → List String) (v : String) (l : Option Metadata)
    → has f v l ≡ true
    → (o : Metadata) × (l ≡ some o) × In v (f o)
unfolding has
has-eq-true f v none e = absurd (ground arith)
has-eq-true f v (some o) e = (o, refl, In-contains v (f o) e)

In-keys_with :
    (f : Metadata → List String) (v k : String) (s : Dict Metadata)
    → In k (keys_with f v s) ↔ ((o : Metadata) × (lookup k s ≡ some o) × In v (f o))
unfolding keys_with has
In-keys_with f v k s = (
  λ i. has-eq-true f v (lookup k s) (In-select_passes (λ k. has f v (lookup k s)) k (keys_of s) i),
  λ (o, at_key, i).
      select-In (λ k. has f v (lookup k s)) k (keys_of s) (In-keys_of k s o at_key)
        (ap (has f v) at_key ∙ contains-In v (f o) i),
)

pub table-IsIndexer : IsIndexer table
unfolding keys_by lookup
table-IsIndexer = record {
  held = λ s k. lookup k s;
  held_empty = λ k. refl;
  held_add = λ o s k. lookup-insert o.uid k o s;
  held_delete = λ o s k. lookup-remove o.uid k s;
  index_keys_some = λ name f v s known.
      (keys_with f v s, ap (λ l. keys_by l v s) known, λ k. In-keys_with f v k s);
  index_keys_none = λ name v s unknown. ap (λ l. keys_by l v s) unknown;
}
