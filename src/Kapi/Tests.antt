-- ===== src/Kapi/Tests.antt =====
-- Runs of pkg/kapi/kapi.go, and the theorems at such runs.
use runkube.Common.{
  ◌≡◌, refl, String, Bool, true, none, some, List, [], ◌∷◌, ◌++◌, here, Dict, lookup, insert,
  concat, fields, clean, join_path,
}
use runkube.Kapi.{Group, ResourceSpec, url, rurl, descriptor}
use runkube.Kapi.Routes.{
  Handler, list_handler, resource_routes, all_resource_routes, install_group, install,
  install_groups, register, new_api,
}
use runkube.Kapi.Laws.{new_api-list_handler, new_api_panics}

abbrev spec : Bool → String → ResourceSpec
spec namespaced name = record {
  group = "api.x";
  version = "v1";
  kind = name;
  namespaced = namespaced;
  resource = name;
  verbs = [];
}

abbrev group : List ResourceSpec → Group
group rs = record { api_version = record { group = "api.x"; version = "v1" }; resources = rs }

pattern_of_list :
    rurl (group []) (spec true "buckets") "/apis/{group}/{version}/{resource}"
    ≡ "GET /apis/api.x/v1/buckets"
unfolding rurl fields clean join_path concat descriptor
pattern_of_list = refl

abbrev one : Group
one = group (spec true "buckets" ∷ [])

abbrev served : Dict Handler
served = install (one ∷ []) ++ install_groups (one ∷ [])

registered : new_api (one ∷ []) ≡ some served
unfolding new_api register install install_groups install_group all_resource_routes resource_routes
    rurl url lookup insert fields clean join_path concat descriptor
registered = refl

new_api-list_handler_example :
    lookup (rurl one (spec true "buckets") "/apis/{group}/{version}/{resource}") served
    ≡ some (list_handler (spec true "buckets"))
new_api-list_handler_example =
    new_api-list_handler (one ∷ []) served one (spec true "buckets") registered (here refl)
      (here refl)

new_api_panics_example : new_api (group (spec true "buckets" ∷ spec true "queues" ∷ []) ∷ []) ≡ none
new_api_panics_example =
    new_api_panics (group (spec true "buckets" ∷ spec true "queues" ∷ []) ∷ [])
      (group (spec true "buckets" ∷ spec true "queues" ∷ [])) (spec true "buckets" ∷ [])
      (spec true "queues" ∷ []) (spec true "buckets") (spec true "queues") (here refl) refl
      (here refl) (here refl) refl refl
