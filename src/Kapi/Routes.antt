-- ===== src/Kapi/Routes.antt =====
-- pkg/kapi/kapi.go: `install` and `Install`, the routes with their handlers.
use runkube.Common.{
  ℕ, String, Bool, Option, none, some, List, [], ◌∷◌, ◌++◌, map, if◌then◌else◌, concat, join_path,
  ltb, Dict, lookup, insert,
}
use runkube.Kapi.{
  Value, Fields, field, null, group_version_text, end, text, obj, num, Group, ResourceSpec,
  ApiResource, descriptor, new_object, new_list, open_api_v3_paths, open_api_v3_components_schemas,
  api_discovery, url, rurl,
}

-- What the handlers read of a request: the parsed list options, the path's values, the URI.
pub record Request : Type 0 where
  pub request_uri : String
  pub watch : Bool
  pub timeout_seconds : Option ℕ
  pub name : String
  pub namespace : String
  pub now : String

-- What a handler does: the status, the header Content-Type and the body, or a wait with no body.
pub data Answer : Type 0 where
  encoded : ℕ → Option String → Fields → Answer
  group_version : String → List ApiResource → Answer
  paths : List (String × String) → Answer
  schemas : List (String × Value) → List (String × Value) → Answer
  sleep : ℕ → Answer

abbrev pub Handler : Type 0
Handler = Request → Answer

-- `d`: the seconds that a watch is kept, ten minutes unless the request says otherwise.
unfoldable pub watch_seconds : Option ℕ → ℕ
watch_seconds none = 600
watch_seconds (some t) = if ltb 0 t then t else 600

-- The handler of a list.
unfoldable pub list_handler : ResourceSpec → Handler
unfolding watch_seconds
list_handler r req =
    if req.watch
    then sleep (watch_seconds req.timeout_seconds)
    else encoded 200 (some "application/json") (new_list r)

abbrev created : Request → Fields
created req = field "creationTimestamp" (text req.now) end

-- The handler of one object: any name is found.
unfoldable pub get_handler : ResourceSpec → Handler
get_handler r req = encoded 200 (some "application/json") (
    field "metadata"
      (obj (
        field "name" (text req.name) (
          if r.namespaced
          then field "namespace" (text req.namespace) (created req)
          else created req)))
      (new_object r))

unfoldable pub not_found_handler : Handler
not_found_handler req = encoded 404 none (
    field "message" (text (concat (req.request_uri ∷ " not found" ∷ []))) (
      field "code" (num 404)
        (field "reason" (text "BadRequest") (field "status" (text "Failure") end))))

unfoldable pub resource_routes : Group → ResourceSpec → List (String × Handler)
unfolding list_handler get_handler
resource_routes g r =
    (rurl g r "/apis/{group}/{version}/{resource}", list_handler r)
    ∷ (if (descriptor r).namespaced
        then (rurl g r "/apis/{group}/{version}/namespaces/{namespace}/{resource}", list_handler r)
          ∷ (
            rurl g r "/apis/{group}/{version}/namespaces/{namespace}/{resources}/{name}",
            get_handler r,
          )
          ∷ []
        else (rurl g r "/apis/{group}/{version}/{resource}/{name}", get_handler r) ∷ [])

unfoldable pub all_resource_routes : Group → List ResourceSpec → List (String × Handler)
unfolding resource_routes
all_resource_routes g [] = []
all_resource_routes g (r ∷ rest) = resource_routes g r ++ all_resource_routes g rest

-- `Install`
unfoldable pub install_group : Group → List (String × Handler)
unfolding all_resource_routes
install_group g =
    (
      url g "/openapi/v3/apis/{group}/{version}",
      λ _. schemas (open_api_v3_paths g) (open_api_v3_components_schemas g),
    )
    ∷ (
      url g "/apis/{group}/{version}",
      λ _.
          group_version (group_version_text g.api_version.group g.api_version.version)
            (api_discovery g),
    )
    ∷ all_resource_routes g g.resources

-- The entries of `ps`.
unfoldable pub openapi_paths : List Group → List (String × String)
openapi_paths groups =
    map
      (λ (g : Group). (
        concat ("apis/" ∷ g.api_version.group ∷ "/" ∷ g.api_version.version ∷ []),
        join_path ("/openapi/v3/apis" ∷ g.api_version.group ∷ g.api_version.version ∷ []),
      ))
      groups

-- `install`
unfoldable pub install : List Group → List (String × Handler)
unfolding not_found_handler openapi_paths
install groups =
    ("/{a...}", not_found_handler)
    ∷ ("/apis", λ _. encoded 200 (some "application/json") (field "groups" null end))
    ∷ ("GET /openapi/{version}", λ _. paths (openapi_paths groups))
    ∷ []

unfoldable pub install_groups : List Group → List (String × Handler)
unfolding install_group
install_groups [] = []
install_groups (g ∷ rest) = install_group g ++ install_groups rest

-- `HandleFunc` in a row, on the patterns that the mux has: a pattern that stands there already is a
-- panic, `none`. `http.ServeMux` also refuses different patterns that conflict, which is left out.
unfoldable pub register : List (String × Handler) → Dict Handler → Option (Dict Handler)
register [] mux = some mux
register ((pattern, h) ∷ rest) mux =
    let mux' = register rest (insert pattern h mux) in
    elim (lookup pattern mux) [ some old ↦ none | none ↦ mux' ]

-- `NewAPI`
unfoldable pub new_api : List Group → Option (Dict Handler)
unfolding install install_groups
new_api groups = register (install groups ++ install_groups groups) []
