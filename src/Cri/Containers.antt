-- ===== src/Cri/Containers.antt =====
-- pkg/cri/cri.go: the handlers for containers.
use runkube.Common.{ℕ, String, not, Option, none, some, List, [], ◌∷◌, map, is_some, ◌==◌, ◌>>=?◌}
use runkube.Cri.Objects.{
  Labels, container_created, container_running, container_exited, ContainerMetadata, ImageSpec,
  ContainerStatus, ContainerStats, ContainerFilter, ContainerStatsFilter, Externals, get_image_name,
}
use runkube.Cri.Objects
use runkube.Cri.Model.{
  new_container, add_container, update_container, remove_container, get_sandbox, list_containers,
  get_container, get_image, list_container_stats, get_container_stats,
}
use runkube.Cri.Runtime.{Callback}
use runkube.Cri.Service.{
  invalid_argument, not_found, already_exists, Handler, ◌>>=◌, ◌>>◌, pure, require, found, deref,
  query, modify, await, uniq_id,
}

pub record ContainerConfig : Type 0 where
  pub metadata : Option ContainerMetadata
  pub image : Option ImageSpec
  pub labels : Labels
  pub annotations : Labels
  pub log_path : String

pub record CreateContainerRequest : Type 0 where
  pub pod_sandbox_id : String
  pub config : Option ContainerConfig

abbrev no_config : ContainerConfig
no_config = record { metadata = none; image = none; labels = []; annotations = []; log_path = "" }

-- The getters, which give zero values behind nil pointers.
abbrev pub get_config : CreateContainerRequest → ContainerConfig
get_config req = elim req.config [ none ↦ no_config | some c ↦ c ]

abbrev pub get_name : Option ContainerMetadata → String
get_name none = ""
get_name (some m) = m.name

-- `image` is the value behind `req.GetConfig().GetImage()`.
unfoldable pub new_container_object :
    CreateContainerRequest → ImageSpec → String → ℕ → Objects.Container
new_container_object req image scid now = record {
  id = scid;
  pod_sandbox_id = req.pod_sandbox_id;
  metadata = (get_config req).metadata;
  image = some image;
  image_ref = image.image;
  state = container_created;
  created_at = now;
  labels = (get_config req).labels;
  annotations = (get_config req).annotations;
  image_id = image.image;
}

unfoldable pub new_container_status :
    CreateContainerRequest → ImageSpec → Objects.Container → ContainerStatus
new_container_status req image nc = record {
  id = nc.id;
  metadata = nc.metadata;
  state = nc.state;
  created_at = nc.created_at;
  started_at = 0;
  finished_at = 0;
  image = nc.image;
  image_ref = image.image;
  labels = nc.labels;
  annotations = nc.annotations;
  log_path = (get_config req).log_path;
}

module _ (env : Externals) where
  -- A nil image has the empty name for `GetImage`, and is dereferenced after that.
  unfoldable pub create_container : (ℕ → ℕ) → CreateContainerRequest → Handler String
  unfolding new_container_object new_container_status
  create_container clock req = do
    let sbid = req.pod_sandbox_id
    require (not (sbid == "")) invalid_argument
    sandbox ← query (get_sandbox env sbid)
    require (is_some sandbox) not_found
    pulled ← query (get_image (get_image_name (get_config req).image))
    require (is_some pulled) not_found
    let scid = uniq_id env (clock 0) ("container" ∷ sbid ∷ get_name (get_config req).metadata ∷ [])
    existing ← query (get_container env scid)
    require (not (is_some existing)) already_exists
    image ← deref (get_config req).image
    let nc = new_container_object req image scid (clock 1)
    modify (add_container scid (new_container nc (new_container_status req image nc)))
    pure scid

  -- The transition to RUNNING that `StartContainer` enqueues.
  unfoldable pub make_running : String → Callback
  make_running scid clock st = elim (get_container env scid st) [
    | none ↦ some st
    | some c ↦ c.p >>=? λ p. c.s >>=? λ s. some (
        update_container scid
          (record c {
            p = some (record p { state = container_running });
            s = some (record s { state = container_running; started_at = clock 0 });
          })
          st)
  ]

  unfoldable pub start_container : (ℕ → ℕ) → String → Handler (Unit {0})
  start_container clock scid = do
    existing ← query (get_container env scid)
    require (is_some existing) not_found
    await clock 10 (make_running scid)

  -- The transition to EXITED that `StopContainer` enqueues.
  unfoldable pub make_exited : String → Callback
  make_exited scid clock st = elim (get_container env scid st) [
    | none ↦ some st
    | some c ↦ c.p >>=? λ p. c.s >>=? λ s. some (
        update_container scid
          (record c {
            p = some (record p { state = container_exited });
            s = some (record s { state = container_exited; finished_at = clock 0 });
          })
          st)
  ]

  unfoldable pub stop_container : (ℕ → ℕ) → String → Handler (Unit {0})
  stop_container clock scid = do
    existing ← query (get_container env scid)
    require (is_some existing) not_found
    await clock 10 (make_exited scid)

  unfoldable pub remove_container_handler : String → Handler (Unit {0})
  remove_container_handler scid = do
    existing ← query (get_container env scid)
    require (is_some existing) not_found
    modify (remove_container scid)

  unfoldable pub list_containers_handler :
      Option ContainerFilter → Handler (List (Option Objects.Container))
  list_containers_handler f = query (λ st. map (λ x. x.p) (list_containers env f st))

  unfoldable pub container_status : String → Handler (Option ContainerStatus)
  container_status scid = do o ← (found (← query (get_container env scid)) not_found); pure o.s

  unfoldable pub container_stats : String → Handler ContainerStats
  container_stats scid = do stats ← query (get_container_stats env scid); found stats not_found

  unfoldable pub list_container_stats_handler :
      Option ContainerStatsFilter → Handler (List ContainerStats)
  list_container_stats_handler f = do list ← query (list_container_stats env f); deref list
