-- ===== src/Kapi.antt =====
-- pkg/kapi/kapi.go: the API groups that the extension server offers, what it tells about them, and the
-- routes that it installs. Objects are trees of JSON values. The package's pattern matching is that of
-- `http.ServeMux`: a route is the pattern that is registered, with the handler.
use runkube.Common.{
  ℕ, String, Bool, true, false, Option, none, some, List, [], ◌∷◌, ◌++◌, map, ◌==◌, if◌then◌else◌,
  concat, fields, join, join_path, clean, ltb, length,
}
pub mod Routes
pub mod Registration
pub mod Laws
pub mod Tests

mutual
  pub data Value : Type 0 where
    null : Value
    text : String → Value
    num : ℕ → Value
    flag : Bool → Value
    obj : Fields → Value
    arr : Items → Value

  pub data Fields : Type 0 where
    end : Fields
    field : String → Value → Fields → Fields

  pub data Items : Type 0 where
    nil : Items
    cons : Value → Items → Items

pub record GroupVersion : Type 0 where
  pub group : String
  pub version : String

-- `ResourceSpec`, which is the one implementation of `Resource`.
pub record ResourceSpec : Type 0 where
  pub group : String
  pub version : String
  pub kind : String
  pub namespaced : Bool
  pub resource : String
  pub verbs : List String

pub record Group : Type 0 where
  pub api_version : GroupVersion
  pub resources : List ResourceSpec

abbrev pub default_verbs : List String
default_verbs = "get" ∷ "list" ∷ "watch" ∷ "create" ∷ "patch" ∷ "update" ∷ "delete" ∷ "proxy" ∷ []

-- `metav1.APIResource`
pub record ApiResource : Type 0 where
  pub name : String
  pub group : String
  pub version : String
  pub singular_name : String
  pub kind : String
  pub namespaced : Bool
  pub verbs : List String

unfoldable pub descriptor : ResourceSpec → ApiResource
descriptor r = record {
  name = r.resource;
  group = r.group;
  version = r.version;
  singular_name = r.kind;
  kind = r.kind;
  namespaced = r.namespaced;
  verbs = if ltb 0 (length r.verbs) then r.verbs else default_verbs;
}

-- `GroupVersion.String`
abbrev pub group_version_text : String → String → String
group_version_text group version =
    if group == "" then version else concat (group ∷ "/" ∷ version ∷ [])

-- An object of a kind, and a list: what `SetGroupVersionKind` sets.
abbrev kind_fields : ResourceSpec → Fields → Fields
kind_fields r rest =
    field "apiVersion" (text (group_version_text r.group r.version))
      (field "kind" (text r.kind) rest)

unfoldable pub new_object : ResourceSpec → Fields
new_object r = kind_fields r end

unfoldable pub new_list : ResourceSpec → Fields
new_list r = kind_fields r (field "items" (arr nil) end)

-- The value of `x-kubernetes-group-version-kind`.
abbrev group_version_kind : ApiResource → Value
group_version_kind d = obj (
    field "group" (text d.group)
      (field "version" (text d.version) (field "kind" (text d.kind) end)))

unfoldable pub open_api_v3_paths : Group → List (String × Value)
open_api_v3_paths g =
    map
      (λ (r : ResourceSpec). (
        join_path
            ("/apis" ∷ g.api_version.group ∷ g.api_version.version ∷ (descriptor r).name ∷ []),
        obj (
            field "get"
              (obj
                (field "x-kubernetes-group-version-kind" (group_version_kind (descriptor r)) end))
              end),
      ))
      g.resources

abbrev string_type : Value
string_type = obj (field "type" (text "string") end)

unfoldable pub open_api_v3_components_schemas : Group → List (String × Value)
open_api_v3_components_schemas g =
    map
      (λ (r : ResourceSpec). (
        join (g.api_version.group ∷ g.api_version.version ∷ (descriptor r).kind ∷ []) ".",
        obj (
            field "type" (text "object") (
              field "properties"
                (obj (field "apiVersion" string_type (field "kind" string_type end)))
                (field "x-kubernetes-group-version-kind"
                  (arr (cons (group_version_kind (descriptor r)) nil)) end))),
      ))
      g.resources

unfoldable pub api_discovery : Group → List ApiResource
api_discovery g = map descriptor g.resources

-- `base64.StdEncoding` of the bundle is an argument.
unfoldable pub api_service : String → String → String → Group → Value
api_service ca_bundle namespace name g = obj (
    field "apiVersion" (text "apiregistration.k8s.io/v1") (
      field "kind" (text "APIService") (
        field "metadata"
          (obj
            (field "name" (text (join (g.api_version.version ∷ g.api_version.group ∷ []) ".")) end))
          (field "spec"
            (obj (
              field "caBundle" (text ca_bundle) (
                field "group" (text g.api_version.group) (
                  field "version" (text g.api_version.version) (
                    field "groupPriorityMinimum" (num 1000) (
                      field "versionPriority" (num 15) (
                        field "service"
                          (obj (
                            field "name" (text name)
                              (field "namespace" (text namespace) (field "port" (num 443) end))))
                          end)))))))
            end))))

unfoldable pub api_services : String → String → String → List Group → List Value
api_services ca_bundle namespace name groups = map (api_service ca_bundle namespace name) groups

-- What `url` puts for a piece of a pattern.
unfoldable pub fill : Group → String → String
fill g p =
    if p == "{group}"
    then g.api_version.group
    else if p == "{version}"
    then g.api_version.version
    else p

unfoldable pub url : Group → String → String
unfolding fill
url g u = concat ("GET " ∷ clean (join_path ("/" ∷ map (fill g) (fields u))) ∷ [])

-- What `rurl` puts for a piece.
unfoldable pub fill_resource : Group → ResourceSpec → String → String
unfolding fill
fill_resource g r p = if p == "{resource}" then (descriptor r).name else fill g p

unfoldable pub rurl : Group → ResourceSpec → String → String
unfolding fill_resource
rurl g r u = concat ("GET " ∷ clean (join_path ("/" ∷ map (fill_resource g r) (fields u))) ∷ [])
