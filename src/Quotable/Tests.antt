-- ===== src/Quotable/Tests.antt =====
-- Runs of tools/quotable/main.go on a table, and the theorems at such runs.
use runkube.Common.{
  ◌≡◌, refl, ◌↔◌, String, Option, none, some, List, [], ◌∷◌, ◌==◌, In, length, lookup, insert,
  remove, join, if◌then◌else◌,
}
use runkube.Quotable.{
  Metadata, Event, added, deleted, updated, index_funcs, handle_all, count, gvr_key, serve_count,
  ApiResource, ApiResourceList, GroupVersionResource, get_resources,
}
use runkube.Quotable.Table.{table, table-IsIndexer, keys_by}
use runkube.Quotable.Laws.{last_told, count_lem, Offers, get_resources_lem}

abbrev bucket : Metadata
bucket = record {
  uid = "u1";
  labels = ("gr", "buckets.v1.api") ∷ [];
  annotations = [];
  managed_fields = [];
  owner_references = [];
  finalizers = [];
  resource_version = "";
}

abbrev events : List Event
events = added (some bucket) ∷ updated ∷ deleted (some bucket) ∷ deleted none ∷ []

count_lem_example :
    (keys : List String) × (table.index_keys "gr" "buckets.v1.api"
        (handle_all table events table.empty)
      ≡ some keys)
    × (count table "gr" "buckets.v1.api" (handle_all table events table.empty) ≡ some (length keys))
    × ((k : String)
        → In k keys ↔ (
            (o : Metadata) × (last_told events k none ≡ some o)
            × (lookup "gr" o.labels ≡ some "buckets.v1.api")))
unfolding index_funcs lookup
count_lem_example = count_lem table table-IsIndexer events "gr" "buckets.v1.api" refl

-- The deleted object is counted.
still_counted : count table "gr" "buckets.v1.api" (handle_all table events table.empty) ≡ some 1
unfolding count handle_all keys_by lookup index_funcs insert remove
still_counted = refl

-- A dimension that is none is answered with 200.
unknown_dimension : (serve_count table "color" "red" []).code ≡ some 200
unfolding serve_count keys_by index_funcs lookup
unknown_dimension = refl

abbrev split_version : String → Option (String × String)
split_version t = if t == "v1" then some ("", "v1") else none

abbrev pods : ApiResource
pods = record { name = "pods"; verbs = "get" ∷ "create" ∷ "delete" ∷ "update" ∷ [] }

abbrev groups : List ApiResourceList
groups =
    record {
      group_version = "v1";
      api_resources =
          pods
          ∷ record pods { name = "pods/log" }
          ∷ record { name = "bindings"; verbs = "create" ∷ [] }
          ∷ [];
    }
    ∷ []

abbrev pods_v1 : GroupVersionResource
pods_v1 = record { group = ""; version = "v1"; resource = "pods" }

get_resources_lem_example :
    In pods_v1 (pods_v1 ∷ [])
    ↔ ((g : ApiResourceList) × In g groups × Offers split_version g pods_v1)
unfolding get_resources
get_resources_lem_example = get_resources_lem split_version groups (pods_v1 ∷ []) refl pods_v1

core_key : gvr_key pods_v1 ≡ "pods.v1.core"
unfolding gvr_key join
core_key = refl
