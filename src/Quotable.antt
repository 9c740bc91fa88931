-- ===== src/Quotable.antt =====
-- tools/quotable/main.go: counts of objects by their dimensions. The index of package cache is the
-- parameter `Indexer`.
use Prim.Native.Char.{code}
use runkube.Common.{
  ℕ, ◌≡◌, String, Bool, true, false, not, ◌&&◌, ◌||◌, Option, none, some, List, [], ◌∷◌, ◌==◌, eqb,
  if◌then◌else◌, concat, join, contains, length, Dict, lookup, insert, map, In, ◌↔◌, ◌++◌,
}
use runkube.Webhook.Handlers
use runkube.Webhook.Handlers.{
  ResponseWriter, Body, text, review, new_response, set_json, write_header,
}
pub mod Laws
pub mod Table
pub mod Tests

-- `metav1.PartialObjectMetadata`
pub record Metadata : Type 0 where
  pub uid : String
  pub labels : Dict String
  pub annotations : Dict String
  pub managed_fields : List String
  pub owner_references : List String
  pub finalizers : List String
  pub resource_version : String

-- `dimensions` of an object of a group and resource.
unfoldable pub dimensions : String → Metadata → Dict String
unfolding insert lookup
dimensions gr o =
    let d : Dict String = ("gr", gr) ∷ [] in
    elim (lookup "runkube.internal/realm" o.labels) [
      | none ↦ d
      | some r ↦ insert "realm.gr" (concat (r ∷ "+" ∷ gr ∷ [])) (insert "realm" r d)
    ]

unfoldable pub index_values : Option String → List String
index_values none = []
index_values (some v) = v ∷ []

-- `makeIndexFunc`
unfoldable pub make_index_func : String → Metadata → List String
unfolding index_values
make_index_func k o = index_values (lookup k o.labels)

-- The index functions of `newIndexer`.
unfoldable pub index_funcs : Dict (Metadata → List String)
unfolding make_index_func
index_funcs = ("gr", make_index_func "gr") ∷ ("realm.gr", make_index_func "realm.gr") ∷ []

-- `cache.Indexer` with `uidKeyFunc`: `index_keys` has no answer for a name without an index function.
pub record Indexer : Type 1 where
  pub Store : Type 0
  pub empty : Store
  pub add : Metadata → Store → Store
  pub delete : Metadata → Store → Store
  pub index_keys : String → String → Store → Option (List String)
  pub list_index_func_values : String → Store → List String

-- What is documented of it: it holds the last object that was added under a key and not deleted, and an
-- index has the keys of the objects for which its function gives the value.
pub record IsIndexer (x : Indexer) : Type 0 where
  pub held : x.Store → String → Option Metadata
  pub held_empty : (k : String) → held x.empty k ≡ none
  pub held_add :
      (o : Metadata) (s : x.Store) (k : String)
      → held (x.add o s) k ≡ (if o.uid == k then some o else held s k)
  pub held_delete :
      (o : Metadata) (s : x.Store) (k : String)
      → held (x.delete o s) k ≡ (if o.uid == k then none else held s k)
  pub index_keys_some :
      (name : String) (f : Metadata → List String) (v : String) (s : x.Store)
      → lookup name index_funcs ≡ some f
      → (keys : List String) × (x.index_keys name v s ≡ some keys)
        × ((k : String) → In k keys ↔ ((o : Metadata) × (held s k ≡ some o) × In v (f o)))
  pub index_keys_none :
      (name v : String) (s : x.Store)
      → lookup name index_funcs ≡ none
      → x.index_keys name v s ≡ none

-- What an informer tells. An object that is none has no metadata, such as the record of a missed
-- deletion.
pub data Event : Type 0 where
  added deleted : Option Metadata → Event
  updated : Event

module _ (x : Indexer) where
  unfoldable pub on_add : Option Metadata → x.Store → x.Store
  on_add none s = s
  on_add (some o) s = x.add o s

  -- The object is taken out and put in again.
  unfoldable pub on_delete : Option Metadata → x.Store → x.Store
  on_delete none s = s
  on_delete (some o) s = x.add o (x.delete o s)

  unfoldable pub handle : Event → x.Store → x.Store
  unfolding on_add on_delete
  handle (added i) s = on_add i s
  handle (deleted i) s = on_delete i s
  handle updated s = s

  unfoldable pub handle_all : List Event → x.Store → x.Store
  unfolding handle
  handle_all [] s = s
  handle_all (e ∷ rest) s = handle_all rest (handle e s)

  unfoldable pub number_of : Option (List String) → Option ℕ
  number_of none = none
  number_of (some keys) = some (length keys)

  -- `Count`, without the number that goes with an error.
  unfoldable pub count : String → String → x.Store → Option ℕ
  unfolding number_of
  count k v s = number_of (x.index_keys k v s)

  -- `Dimensions`, in any order of the map.
  unfoldable pub all_dimensions : List String
  unfolding index_funcs
  all_dimensions = map (λ (entry : String × (Metadata → List String)). entry.0) index_funcs

  abbrev pub dimension_values : String → x.Store → List String
  dimension_values dim s = x.list_index_func_values dim s

  -- `GET /dimensions/{dim}/values/{value}`: an error is written before its status.
  unfoldable pub serve_count : String → String → x.Store → ResponseWriter (String × String × ℕ)
  unfolding count set_json write_header
  serve_count dim value s =
      let w = set_json new_response in
      elim (count dim value s) [
        | none ↦ write_header 500 (record (write_header 200 w) { body = text })
        | some c ↦ record (write_header 200 w) { body = review (dim, value, c) }
      ]

-- `transformFunc`: the object with its dimensions for labels, or the error of the cast.
unfoldable pub transform : String → Option Metadata → Option Metadata
unfolding dimensions
transform gr none = none
transform gr (some m) = some record {
  uid = m.uid;
  labels = dimensions gr m;
  annotations = [];
  managed_fields = [];
  owner_references = [];
  finalizers = [];
  resource_version = "";
}

-- `schema.GroupVersionResource`
pub record GroupVersionResource : Type 0 where
  pub group : String
  pub version : String
  pub resource : String

unfoldable pub gvr_key : GroupVersionResource → String
gvr_key a =
    let group : String = if a.group == "" then "core" else a.group in
    join (a.resource ∷ a.version ∷ group ∷ []) "."

pub record ApiResource : Type 0 where
  pub name : String
  pub verbs : List String

pub record ApiResourceList : Type 0 where
  pub group_version : String
  pub api_resources : List ApiResource

abbrev pub storage_verbs : List String
storage_verbs = "create" ∷ "update" ∷ "delete" ∷ []

unfoldable pub has_all : List String → List String → Bool
has_all verbs [] = true
has_all verbs (v ∷ rest) = contains verbs v && has_all verbs rest

-- `strings.Contains(name, "/")`
unfoldable pub has_slash : String → Bool
has_slash String.[] = false
has_slash (String.◌∷◌ c s) = eqb (code c) b'/' || has_slash s

unfoldable pub is_quotable : ApiResource → Bool
unfolding has_slash has_all
is_quotable a = if has_slash a.name then false else has_all a.verbs storage_verbs

-- The loop over the resources of a group.
unfoldable pub quotable_resources : String × String → List ApiResource → List GroupVersionResource
unfolding is_quotable
quotable_resources gv [] = []
quotable_resources gv (a ∷ rest) =
    let later = quotable_resources gv rest in
    if is_quotable a
    then record { group = gv.0; version = gv.1; resource = a.name } ∷ later
    else later

unfoldable pub with_group :
    Option (String × String)
    → List ApiResource
    → Option (List GroupVersionResource)
    → Option (List GroupVersionResource)
unfolding quotable_resources
with_group none resources later = none
with_group (some gv) resources none = none
with_group (some gv) resources (some inserted) = some (quotable_resources gv resources ++ inserted)

-- `getResources` on what the server answers, as the sequence of `Insert`s into the set.
-- `parse_group_version` gives a group and a version; its error ends the loop.
unfoldable pub get_resources :
    (parse_group_version : String → Option (String × String))
    → List ApiResourceList
    → Option (List GroupVersionResource)
unfolding with_group
get_resources parse_group_version [] = some []
get_resources parse_group_version (g ∷ rest) =
    with_group (parse_group_version g.group_version) g.api_resources
      (get_resources parse_group_version rest)
