-- ===== src/Cri/Model.antt =====
-- pkg/cri/model/model.go: the objects of the runtime, their filters and the three maps. `r.mu` is
-- held for the whole of each operation here, so each is one step.
use runkube.Common.{
  ◌≡◌, String, Bool, true, false, not, ◌&&◌, ◌||◌, Option, none, some, List, [], ◌∷◌, ◌++◌, Dict,
  lookup, insert, remove, values, head?, select, ◌==◌, if◌then◌else◌, ◌>>=?◌,
}
use runkube.Cri.Objects.{
  Labels, PodSandboxState, ContainerState, sandbox_state_eq, container_state_eq, PodSandbox,
  PodSandboxStatus, PodSandboxStats, ContainerStatus, ContainerStats, ImageSpec, PodSandboxFilter,
  ContainerFilter, ImageFilter, PodSandboxStatsFilter, ContainerStatsFilter, Externals,
}
use runkube.Cri.Objects
pub mod Lookup

pub record Sandbox : Type 0 where
  pub p : Option PodSandbox
  pub s : Option PodSandboxStatus
  pub stats : Option PodSandboxStats

pub record Container : Type 0 where
  pub p : Option Objects.Container
  pub s : Option ContainerStatus
  pub stats : Option ContainerStats

pub record Image : Type 0 where
  pub i : Option ImageSpec

abbrev pub new_sandbox : PodSandbox → PodSandboxStatus → Sandbox
new_sandbox p s = record { p = some p; s = some s; stats = none }

abbrev pub new_container : Objects.Container → ContainerStatus → Container
new_container p s = record { p = some p; s = some s; stats = none }

abbrev pub new_image : Option ImageSpec → Image
new_image i = record { i = i }

-- The guard `f.Id != "" && (x.p == nil || x.p.Id != f.Id)` and its like: `true` lets the object by.
abbrev pub passes_text : String → Option String → Bool
passes_text want none = want == ""
passes_text want (some got) = want == "" || got == want

abbrev pub passes_sandbox_state : Option PodSandboxState → Option PodSandboxStatus → Bool
passes_sandbox_state none s = true
passes_sandbox_state (some want) none = false
passes_sandbox_state (some want) (some s) = sandbox_state_eq s.state want

abbrev pub passes_container_state : Option ContainerState → Option ContainerStatus → Bool
passes_container_state none s = true
passes_container_state (some want) none = false
passes_container_state (some want) (some s) = container_state_eq s.state want

-- A nil selector, or a nil object, passes.
abbrev pub passes_labels : Externals → Option Labels → Option Labels → Bool
passes_labels env (some selector) (some labels) = env.selector_matches selector labels
passes_labels env _ _ = true

abbrev pub map_option {ℓ κ} : {A : Type ℓ} {B : Type κ} → (A → B) → Option A → Option B
map_option f none = none
map_option f (some a) = some (f a)

module _ (env : Externals) where
  unfoldable pub sandbox_matches : Option PodSandboxFilter → Sandbox → Bool
  sandbox_matches none x = true
  sandbox_matches (some f) x =
      passes_text f.id (map_option (λ p. p.id) x.p)
      && passes_sandbox_state f.state x.s
      && passes_labels env f.label_selector (map_option (λ p. p.labels) x.p)

  unfoldable pub container_matches : Option ContainerFilter → Container → Bool
  container_matches none x = true
  container_matches (some f) x =
      passes_text f.id (map_option (λ p. p.id) x.p)
      && passes_text f.pod_sandbox_id (map_option (λ p. p.pod_sandbox_id) x.p)
      && passes_container_state f.state x.s
      && passes_labels env f.label_selector (map_option (λ p. p.labels) x.p)

-- `f.Image != nil && x.i != nil && x.i.Image != f.Image.Image` rejects.
unfoldable pub image_differs : Option ImageSpec → Option ImageSpec → Bool
image_differs (some want) (some got) = not (got.image == want.image)
image_differs _ _ = false

unfoldable pub image_matches : Option ImageFilter → Image → Bool
unfolding image_differs
image_matches none x = true
image_matches (some f) x = not (image_differs f.image x.i)

-- The maps of `Runtime`.
pub record Store : Type 0 where
  pub sandboxes : Dict Sandbox
  pub containers : Dict Container
  pub images : Dict Image

abbrev pub empty_store : Store
empty_store = record { sandboxes = []; containers = []; images = [] }

unfoldable pub add_sandbox : String → Sandbox → Store → Store
add_sandbox id sb r = record r { sandboxes = insert id sb r.sandboxes }

unfoldable pub update_sandbox : String → Sandbox → Store → Store
update_sandbox id sb r = record r { sandboxes = insert id sb r.sandboxes }

unfoldable pub remove_sandbox : String → Store → Store
remove_sandbox id r = record r { sandboxes = remove id r.sandboxes }

unfoldable pub add_container : String → Container → Store → Store
add_container id c r = record r { containers = insert id c r.containers }

unfoldable pub update_container : String → Container → Store → Store
update_container id c r = record r { containers = insert id c r.containers }

unfoldable pub remove_container : String → Store → Store
remove_container id r = record r { containers = remove id r.containers }

unfoldable pub add_image : String → Image → Store → Store
add_image id img r = record r { images = insert id img r.images }

unfoldable pub update_image : String → Image → Store → Store
update_image id img r = record r { images = insert id img r.images }

unfoldable pub remove_image : String → Store → Store
remove_image id r = record r { images = remove id r.images }

abbrev pub id_filter : String → PodSandboxFilter
id_filter id = record { id = id; state = none; label_selector = none }

abbrev pub container_id_filter : String → ContainerFilter
container_id_filter id = record {
  id = id;
  pod_sandbox_id = "";
  state = none;
  label_selector = none;
}

-- `GetImage` filters by no image at all when the name is empty.
abbrev pub image_name_filter : String → ImageFilter
image_name_filter id = record { image = if id == "" then none else some (record { image = id }) }

module _ (env : Externals) where
  unfoldable pub list_sandboxes : Option PodSandboxFilter → Store → List Sandbox
  list_sandboxes f r = select (sandbox_matches env f) (values r.sandboxes)

  unfoldable pub get_sandbox : String → Store → Option Sandbox
  unfolding list_sandboxes
  get_sandbox id r = head? (list_sandboxes (some (id_filter id)) r)

  unfoldable pub list_containers : Option ContainerFilter → Store → List Container
  list_containers f r = select (container_matches env f) (values r.containers)

  unfoldable pub get_container : String → Store → Option Container
  unfolding list_containers
  get_container id r = head? (list_containers (some (container_id_filter id)) r)

unfoldable pub list_images : Option ImageFilter → Store → List Image
list_images f r = select (image_matches f) (values r.images)

unfoldable pub get_image : String → Store → Option Image
unfolding list_images
get_image id r = head? (list_images (some (image_name_filter id)) r)

-- The statistics of one sandbox, if the filter lets them by. A filter by identifier reads `sb.p.Id`,
-- so a nil `p` is a nil dereference: `none`.
listed_stats : Option PodSandboxStatsFilter → Sandbox → Option (List PodSandboxStats)
listed_stats f sb = elim sb.stats [
  | none ↦ some []
  | some stats ↦ elim f [
    | none ↦ some (stats ∷ [])
    | some filter ↦
        if filter.id == ""
        then some (stats ∷ [])
        else sb.p >>=? λ p. some (if p.id == filter.id then stats ∷ [] else [])
  ]
]

collect_stats : Option PodSandboxStatsFilter → List Sandbox → Option (List PodSandboxStats)
unfolding listed_stats
collect_stats f [] = some []
collect_stats f (sb ∷ rest) =
    listed_stats f sb >>=? λ here. collect_stats f rest >>=? λ later. some (here ++ later)

unfoldable pub list_pod_sandbox_stats :
    Option PodSandboxStatsFilter → Store → Option (List PodSandboxStats)
unfolding collect_stats
list_pod_sandbox_stats f r = collect_stats f (values r.sandboxes)

unfoldable pub get_pod_sandbox_stats : Externals → String → Store → Option PodSandboxStats
get_pod_sandbox_stats env id r = get_sandbox env id r >>=? λ sb. sb.stats

container_stats : List Container → List ContainerStats
container_stats [] = []
container_stats (c ∷ rest) = elim c.stats [
  | none ↦ container_stats rest
  | some stats ↦ stats ∷ container_stats rest
]

has_stats : Container → Bool
has_stats c = elim c.stats [ none ↦ false | some _ ↦ true ]

-- The filter is read before any test for nil, so a nil filter is a nil dereference: `none`.
unfoldable pub list_container_stats :
    Externals → Option ContainerStatsFilter → Store → Option (List ContainerStats)
unfolding container_stats has_stats
list_container_stats env none r = none
list_container_stats env (some f) r =
    let cf : ContainerFilter = record {
      id = f.id;
      pod_sandbox_id = f.pod_sandbox_id;
      state = none;
      label_selector = f.label_selector;
    } in
    some (
      container_stats
        (select (λ c. has_stats c && container_matches env (some cf) c) (values r.containers)))

unfoldable pub get_container_stats : Externals → String → Store → Option ContainerStats
get_container_stats env id r = get_container env id r >>=? λ c. c.stats
