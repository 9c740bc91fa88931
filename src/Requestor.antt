-- ===== src/Requestor.antt =====
-- tools/requestor/requestor.go: the requests that are made of what the server tells of its resources.
-- `strings.ToLower`, `ParseGroupVersion` and the builder of package rest are parameters.
use Prim.Native.Char.{code}
use Prim.Native.String.{String}
use runkube.Common.{
  ℕ, zero, suc, ◌≡◌, Bool, true, false, ◌||◌, Option, none, some, List, [], ◌∷◌, ◌++◌, ◌==◌, eqb,
  if◌then◌else◌,
}
use runkube.Quotable.{ApiResource, ApiResourceList}
pub mod Laws
pub mod Tests

pub record RequestInfo : Type 0 where
  pub group : String
  pub version : String
  pub resource : String
  pub subresource : String
  pub verb : String
  pub field_selector : String
  pub label_selector : String
  pub namespace : String
  pub name : String

-- What the code sets on a `rest.Request`.
pub record Request : Type 0 where
  pub prefix : List String
  pub method : String
  pub max_retries : ℕ
  pub namespace : String
  pub resource : String
  pub subresource : String
  pub params : List (String × String)

-- The method of a verb in small letters; none: the code panics.
unfoldable pub method_of : String → Option String
method_of v =
    if v == "create"
    then some "POST"
    else if v == "update" || v == "patch"
    then some "PUT"
    else if v == "delete" || v == "deletecollection"
    then some "DELETE"
    else if v == "get" || v == "list" || v == "watch"
    then some "GET"
    else none

param : String → String → List (String × String)
param key value = if value == "" then [] else (key, value) ∷ []

unfoldable pub request_with : RequestInfo → Option String → Option Request
unfolding param
request_with r none = none
request_with r (some method) = some record {
  prefix = if r.group == "" then "api" ∷ r.version ∷ [] else "apis" ∷ r.group ∷ r.version ∷ [];
  method = method;
  max_retries = 0;
  namespace = r.namespace;
  resource = r.resource;
  subresource = r.subresource;
  params = param "fieldSelector" r.field_selector ++ param "labelSelector" r.label_selector;
}

-- `ToRESTRequest`; none: it panics.
unfoldable pub to_rest_request : (to_lower : String → String) → RequestInfo → Option Request
unfolding method_of request_with
to_rest_request to_lower r = request_with r (method_of (to_lower r.verb))

-- `strings.Cut(name, "/")`
unfoldable pub cut : String → String × String
cut String.[] = ("", "")
cut (String.◌∷◌ c s) =
    let (before, after) = cut s in
    if eqb (code c) b'/' then ("", s) else (String.◌∷◌ c before, after)

unfoldable pub expand_verbs :
    RequestInfo → String × String → String × String → List String → List RequestInfo
expand_verbs base gv names [] = []
expand_verbs base gv names (verb ∷ rest) =
    record base {
      verb = verb;
      version = gv.1;
      group = gv.0;
      resource = names.0;
      subresource = names.1;
    }
    ∷ expand_verbs base gv names rest

unfoldable pub expand_resources :
    RequestInfo → String × String → List ApiResource → List RequestInfo
unfolding expand_verbs cut
expand_resources base gv [] = []
expand_resources base gv (a ∷ rest) =
    expand_verbs base gv (cut a.name) a.verbs ++ expand_resources base gv rest

-- All that the sequence of `DiscoveryExpandor` yields to a consumer that never stops. The error of
-- `parse_group_version` is dropped: it gives an empty group and version then.
unfoldable pub expand :
    (parse_group_version : String → String × String)
    → RequestInfo
    → List ApiResourceList
    → List RequestInfo
unfolding expand_resources
expand parse_group_version base [] = []
expand parse_group_version base (g ∷ rest) =
    expand_resources base (parse_group_version g.group_version) g.api_resources
    ++ expand parse_group_version base rest

unfoldable pub prepend : Option Request → List Request × Bool → List Request × Bool
prepend none later = ([], false)
prepend (some q) later = (q ∷ later.0, later.1)

-- The loop of `main` over the sequence: the requests that are made up to the first panic, and whether
-- there was none. Requests that the builder refuses are not told apart.
unfoldable pub make_requests : (String → String) → List RequestInfo → List Request × Bool
unfolding to_rest_request prepend
make_requests to_lower [] = ([], true)
make_requests to_lower (r ∷ rest) =
    prepend (to_rest_request to_lower r) (make_requests to_lower rest)
