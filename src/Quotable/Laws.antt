-- ===== src/Quotable/Laws.antt =====
-- tools/quotable/main.go: what is counted after a history of events, and which resources are watched.
use runkube.Common.{
  ◌≡◌, refl, sym, ap, ◌∙◌, subst, ◌↔◌, inl, inr, String, true, false, Option, none, some, List, [],
  ◌∷◌, ◌++◌, ◌==◌, if◌then◌else◌, Bool-cases, In, here, there, In-single, In-head_or_tail,
  In-append, In-append_left, In-append_right, length, lookup, arith,
}
use mathlib.Core.Option.{some-injective}
use runkube.Quotable.{
  Metadata, Indexer, IsIndexer, Event, added, deleted, updated, index_funcs, index_values,
  make_index_func, number_of, on_add, on_delete, handle, handle_all, count, ApiResource,
  ApiResourceList, GroupVersionResource, storage_verbs, has_slash, has_all, is_quotable,
  quotable_resources, with_group, get_resources,
}

-- The object that an event tells of, whether it was added or deleted.
abbrev pub told : Event → Option Metadata
told (added i) = i
told (deleted i) = i
told updated = none

abbrev pub newer : Option Metadata → String → Option Metadata → Option Metadata
newer none k before = before
newer (some o) k before = if o.uid == k then some o else before

-- The last object of the events that has the identifier, and the one before them where there is none.
unfoldable pub last_told : List Event → String → Option Metadata → Option Metadata
last_told [] k before = before
last_told (e ∷ rest) k before = last_told rest k (newer (told e) k before)

In-index_values : (v : String) (l : Option String) → In v (index_values l) ↔ (l ≡ some v)
unfolding index_values
In-index_values v none = (λ i. absurd (elim i [ ]), λ e. absurd (ground arith))
In-index_values v (some w) = (λ i. ap some (In-single i), λ e. here (ground arith))

In-make_index_func :
    (k v : String) (o : Metadata) → In v (make_index_func k o) ↔ (lookup k o.labels ≡ some v)
unfolding make_index_func
In-make_index_func k v o = In-index_values v (lookup k o.labels)

module _ (x : Indexer) (law : IsIndexer x) where
  held-handle :
      (e : Event) (s : x.Store) (k : String)
      → law.held (handle x e s) k ≡ newer (told e) k (law.held s k)
  unfolding handle on_add on_delete
  held-handle (added none) s k = refl
  held-handle (added (some o)) s k = law.held_add o s k
  held-handle (deleted none) s k = refl
  held-handle (deleted (some o)) s k =
      ground (arith, law.held_add o (x.delete o s) k, law.held_delete o s k)
  held-handle updated s k = refl

  held-handle_all :
      (es : List Event) (s : x.Store) (k : String)
      → law.held (handle_all x es s) k ≡ last_told es k (law.held s k)
  unfolding handle_all last_told
  held-handle_all [] s k = refl
  held-handle_all (e ∷ rest) s k =
      held-handle_all rest (handle x e s) k ∙ ap (last_told rest k) (held-handle e s k)

  history :
      (es : List Event) (k : String) → law.held (handle_all x es x.empty) k ≡ last_told es k none
  history es k = held-handle_all es x.empty k ∙ ap (last_told es k) (law.held_empty k)

  -- What a dimension counts after a history of events: each identifier whose last object has the value
  -- for its label, once that object was added or deleted. So a deleted object is counted on.
  pub count_lem :
      (es : List Event) (name v : String)
      → lookup name index_funcs ≡ some (make_index_func name)
      → (keys : List String) × (x.index_keys name v (handle_all x es x.empty) ≡ some keys)
        × (count x name v (handle_all x es x.empty) ≡ some (length keys))
        × ((k : String)
            → In k keys
              ↔ ((o : Metadata) × (last_told es k none ≡ some o) × (lookup name o.labels ≡ some v)))
  unfolding count number_of
  count_lem es name v known =
      let s = handle_all x es x.empty in
      let (keys, is_keys, members) = law.index_keys_some name (make_index_func name) v s known in
      (
        keys,
        is_keys,
        ap (number_of x) is_keys,
        λ k. (
          λ i.
              let (o, at_key, has) = (members k).0 i in
              (o, sym (history es k) ∙ at_key, (In-make_index_func name v o).0 has),
          λ (o, last, has).
              (members k).1 (o, history es k ∙ last, (In-make_index_func name v o).1 has),
        ),
      )

-- A resource of a group that is no subresource and has the verbs of stored resources.
pub record Offers (p : String → Option (String × String)) (g : ApiResourceList)
    (r : GroupVersionResource) : Type 0 where
  pub entry : ApiResource
  pub is_member : In entry g.api_resources
  pub is_top : has_slash entry.name ≡ false
  pub is_stored : has_all entry.verbs storage_verbs ≡ true
  pub is_parsed : p g.group_version ≡ some (r.group, r.version)
  pub is_named : r.resource ≡ entry.name

is_quotable-eq-true :
    (a : ApiResource)
    → is_quotable a ≡ true
    → (has_slash a.name ≡ false) × (has_all a.verbs storage_verbs ≡ true)
unfolding is_quotable
is_quotable-eq-true a e = elim (Bool-cases (has_slash a.name)) [
  | inl sub ↦ absurd (ground arith)
  | inr top ↦ (top, ground arith)
]

abbrev gvr_of : String × String → ApiResource → GroupVersionResource
gvr_of gv a = record { group = gv.0; version = gv.1; resource = a.name }

In-quotable_resources :
    (gv : String × String) (xs : List ApiResource) (r : GroupVersionResource)
    → In r (quotable_resources gv xs)
    → (a : ApiResource) × In a xs × (is_quotable a ≡ true) × (gvr_of gv a ≡ r)
unfolding quotable_resources
In-quotable_resources gv [] r i = absurd (elim i [ ])
In-quotable_resources gv (a ∷ rest) r i = elim (Bool-cases (is_quotable a)) [
  | inr bad ↦
      let (b, j, good, same) = In-quotable_resources gv rest r (rw bad at i) in
      (b, there j, good, same)
  | inl good ↦ elim (In-head_or_tail (rw good at i)) [
    | inl same ↦ (a, here refl, good, same)
    | inr later ↦
        let (b, j, good', same) = In-quotable_resources gv rest r later in (b, there j, good', same)
  ]
]

quotable_resources-In :
    (gv : String × String) (xs : List ApiResource) (a : ApiResource)
    → In a xs
    → is_quotable a ≡ true
    → In (gvr_of gv a) (quotable_resources gv xs)
unfolding quotable_resources
quotable_resources-In gv [] a i good = absurd (elim i [ ])
quotable_resources-In gv (b ∷ rest) a (here e) good =
    rw (ap is_quotable e ∙ good) (here (ap (gvr_of gv) e))
quotable_resources-In gv (b ∷ rest) a (there i) good = elim (Bool-cases (is_quotable b)) [
  | inl yes_b ↦ rw yes_b (there (quotable_resources-In gv rest a i good))
  | inr no_b ↦ rw no_b (quotable_resources-In gv rest a i good)
]

with_group-eq-some :
    (pg : Option (String × String)) (resources : List ApiResource)
    (later : Option (List GroupVersionResource)) (rs : List GroupVersionResource)
    → with_group pg resources later ≡ some rs
    → (gv : String × String) × (inserted : List GroupVersionResource) × (pg ≡ some gv)
      × (later ≡ some inserted)
      × (quotable_resources gv resources ++ inserted ≡ rs)
unfolding with_group
with_group-eq-some none resources later rs e = absurd (ground arith)
with_group-eq-some (some gv) resources none rs e = absurd (ground arith)
with_group-eq-some (some gv) resources (some inserted) rs e =
    (gv, inserted, refl, refl, some-injective _ _ e)

offer_of :
    (p : String → Option (String × String)) (g : ApiResourceList) (gv : String × String)
    (a : ApiResource)
    → p g.group_version ≡ some gv
    → In a g.api_resources
    → is_quotable a ≡ true
    → Offers p g (gvr_of gv a)
offer_of p g gv a parsed i good =
    let (top, stored) = is_quotable-eq-true a good in
    record {
      entry = a;
      is_member = i;
      is_top = top;
      is_stored = stored;
      is_parsed = parsed;
      is_named = refl;
    }

offered :
    (p : String → Option (String × String)) (g : ApiResourceList) (gv : String × String)
    (r : GroupVersionResource)
    → p g.group_version ≡ some gv
    → Offers p g r
    → In r (quotable_resources gv g.api_resources)
unfolding is_quotable
offered p g gv r parsed o =
    let pair : gv ≡ (r.group, r.version) = some-injective _ _ (sym parsed ∙ o.is_parsed) in
    subst (λ s. In s (quotable_resources gv g.api_resources)) (cc)
      (quotable_resources-In gv g.api_resources o.entry o.is_member (rw (o.is_top) o.is_stored))

get_resources-Offers :
    (p : String → Option (String × String)) (groups : List ApiResourceList)
    (rs : List GroupVersionResource) (r : GroupVersionResource)
    → get_resources p groups ≡ some rs
    → In r rs
    → (g : ApiResourceList) × In g groups × Offers p g r
unfolding get_resources
get_resources-Offers p [] rs r e i = absurd (none_inserted (some-injective _ _ e) i)
  where
    none_inserted : [] ≡ rs → In r rs → ⊥
    none_inserted h j = elim (subst (In r) (sym h) j) [ ]
get_resources-Offers p (g ∷ groups) rs r e i =
    let (gv, inserted, is_gv, is_later, whole) =
      with_group-eq-some (p g.group_version) g.api_resources (get_resources p groups) rs e in
    elim (In-append (quotable_resources gv g.api_resources) inserted (subst (In r) (sym whole) i)) [
      | inr back ↦
          let (h, j, offer) = get_resources-Offers p groups inserted r is_later back in
          (h, there j, offer)
      | inl front ↦
          let (a, j, good, same) = In-quotable_resources gv g.api_resources r front in
          (g, here refl, subst (Offers p g) same (offer_of p g gv a is_gv j good))
    ]

Offers-get_resources :
    (p : String → Option (String × String)) (groups : List ApiResourceList)
    (rs : List GroupVersionResource) (r : GroupVersionResource) (g : ApiResourceList)
    → get_resources p groups ≡ some rs
    → In g groups
    → Offers p g r
    → In r rs
unfolding get_resources
Offers-get_resources p [] rs r g e i offer = absurd (elim i [ ])
Offers-get_resources p (h ∷ groups) rs r g e i offer =
    let (gv, inserted, is_gv, is_later, whole) =
      with_group-eq-some (p h.group_version) h.api_resources (get_resources p groups) rs e in
    elim (In-head_or_tail i) [
      | inr later ↦ subst (In r) whole (
          In-append_right r (quotable_resources gv h.api_resources) inserted
            (Offers-get_resources p groups inserted r g is_later later offer))
      | inl same ↦ subst (In r) whole (
          In-append_left r (quotable_resources gv h.api_resources) inserted
            (offered p h gv r is_gv (subst (λ g. Offers p g r) (sym same) offer)))
    ]

-- If `getResources` returns no error, it gives exactly the resources that some group tells of, that are
-- no subresources and that can be created, updated and deleted.
pub get_resources_lem :
    (p : String → Option (String × String)) (groups : List ApiResourceList)
    (rs : List GroupVersionResource)
    → get_resources p groups ≡ some rs
    → (r : GroupVersionResource) → In r rs ↔ ((g : ApiResourceList) × In g groups × Offers p g r)
get_resources_lem p groups rs e r = (
  get_resources-Offers p groups rs r e,
  λ (g, i, offer). Offers-get_resources p groups rs r g e i offer,
)
