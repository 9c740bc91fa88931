-- ===== src/Cri/Tests.antt =====
-- The runtime on the story of pkg/cri/cri_test.go, and the states of the examples.
pub mod Examples
use runkube.Common.{
  ℕ, ◌+◌, ◌≡◌, refl, ◌≢◌, String, Bool, true, false, Option, none, some, List, [], ◌∷◌, arith,
  eq_iff, lookup, insert, remove, join,
}
use runkube.Cri.Objects.{
  ImageSpec, PodSandboxMetadata, ContainerMetadata, Externals, ContainerState, container_running,
  sandbox_ready, PodSandbox, PodSandboxStatus, ContainerStatus,
}
use runkube.Cri.Objects
use runkube.Cri.Model.{
  Store, empty_store, new_sandbox, new_container, new_image, get_sandbox, get_container, get_image,
  sandbox_matches, container_matches, image_matches, add_sandbox, update_sandbox, remove_sandbox,
  add_container, update_container, remove_container, add_image, remove_image, list_containers,
}
use runkube.Cri.Model.Lookup.{get_sandbox-eq-lookup}
use runkube.Cri.Runtime.{
  Runtime, done, enqueue, wait, tick, run_events, is_due, is_closed, schedule,
}
use runkube.Cri.Runtime.Wait.{IsIdle, enqueue_returns}
use runkube.Cri.Consistent.{empty_store-IsConsistent}
use runkube.Cri.Sound.{IsSound}
use runkube.Cri.Service.{Reply, ok, err, not_found, invalid_argument, await, uniq_id}
use runkube.Cri.Sandboxes.{
  PodSandboxConfig, RunPodSandboxRequest, run_pod_sandbox, stop_pod_sandbox, new_pod_sandbox,
  new_pod_sandbox_status, make_ready, exit_container, exit_containers, make_notready, stop_sandbox,
  has_containers, remove_pod_sandbox, pod_sandbox_status,
}
use runkube.Cri.Containers.{
  ContainerConfig, CreateContainerRequest, create_container, new_container_object,
  new_container_status, make_running, start_container, make_exited, stop_container,
  container_status,
}
use runkube.Cri.Images.{pull_image, store_image}
use runkube.Cri.Laws.Images.{pulled_store}
use runkube.Cri.History.{Call, run_pod, stop_pod, create, start, pull, serve, serve_all}
use runkube.Cri.History.Whole.{serve_all-IsSound}

-- A clock that does not move, and its only reading.
abbrev pub frozen : ℕ → ℕ
frozen n = 7

abbrev pub env : Externals
env = record { selector_matches = λ _ _. true; format_time = λ _. "t" }

abbrev pub nginx : ImageSpec
nginx = record { image = "nginx" }

abbrev pub pod_request : RunPodSandboxRequest
pod_request = record {
  config = some (record {
    metadata = some (record { name = "p1"; uid = "u1"; namespace = "d"; attempt = 0 });
    labels = [];
    annotations = [];
  });
  runtime_handler = "";
}

abbrev pub container_request : CreateContainerRequest
container_request = record {
  pod_sandbox_id = "sandbox-u1-t";
  config = some (record {
    metadata = some (record { name = "c1"; attempt = 0 });
    image = some nginx;
    labels = [];
    annotations = [];
    log_path = "";
  });
}

abbrev pub start_runtime : Runtime
start_runtime = record {
  store = empty_store;
  tick_rate = 100;
  seq = 0;
  events = [];
  next_channel = 0;
  closed = [];
}

pub start_runtime-IsSound : IsSound start_runtime
start_runtime-IsSound = record {
  idle = record { ticking = omega arith; quiet = refl; fresh = tt };
  consistent = empty_store-IsConsistent;
}

abbrev pub pod : PodSandbox
pod = record {
  id = "sandbox-u1-t";
  metadata = record { name = "p1"; uid = "u1"; namespace = "d"; attempt = 0 };
  state = sandbox_ready;
  created_at = 7;
  labels = [];
  annotations = [];
  runtime_handler = "";
}

abbrev pub pod_status : PodSandboxStatus
pod_status = record {
  id = "sandbox-u1-t";
  metadata = pod.metadata;
  state = sandbox_ready;
  created_at = 7;
  labels = [];
  annotations = [];
  runtime_handler = "";
  ip = "10.0.0.1";
}

abbrev pub c1 : Objects.Container
c1 = record {
  id = "c1";
  pod_sandbox_id = "sandbox-u1-t";
  metadata = none;
  image = some nginx;
  image_ref = "nginx";
  state = container_running;
  created_at = 8;
  labels = [];
  annotations = [];
  image_id = "nginx";
}

abbrev pub c1_status : ContainerStatus
c1_status = record {
  id = "c1";
  metadata = none;
  state = container_running;
  created_at = 8;
  started_at = 9;
  finished_at = 0;
  image = some nginx;
  image_ref = "nginx";
  labels = [];
  annotations = [];
  log_path = "";
}

-- One sandbox with a running container.
abbrev pub busy : Runtime
busy = record {
  store = record {
    sandboxes = ("sandbox-u1-t", new_sandbox pod pod_status) ∷ [];
    containers = ("c1", new_container c1 c1_status) ∷ [];
    images = ("nginx", new_image (some nginx)) ∷ [];
  };
  tick_rate = 100;
  seq = 40;
  events = [];
  next_channel = 2;
  closed = 1 ∷ 0 ∷ [];
}

pub pod_named : ◌≢◌ {A = String} "sandbox-u1-t" ""
pod_named = ground (arith, eq_iff "sandbox-u1-t" "")

pub c1_named : ◌≢◌ {A = String} "c1" ""
c1_named = ground (arith, eq_iff "c1" "")

pub busy-IsSound : IsSound busy
unfolding lookup
busy-IsSound = record {
  idle = record { ticking = omega arith; quiet = refl; fresh = omega arith };
  consistent = record {
    sandboxes = ((pod_named, refl, refl, refl), tt);
    containers = ((c1_named, refl, refl, refl), tt);
    images = (refl, tt);
    one_sandbox = (refl, tt);
    one_container = (refl, tt);
    housed = ((λ e. cc), tt);
  };
}

-- What the tests compute with.
computes : Unit {0}
unfolding lookup insert remove join uniq_id get_sandbox get_container get_image sandbox_matches
    container_matches image_matches add_sandbox update_sandbox remove_sandbox add_container
    update_container remove_container add_image remove_image list_containers new_pod_sandbox
    new_pod_sandbox_status make_ready run_pod_sandbox exit_container exit_containers make_notready
    stop_sandbox stop_pod_sandbox has_containers remove_pod_sandbox pod_sandbox_status
    new_container_object new_container_status create_container make_running start_container
    make_exited stop_container container_status store_image pull_image await enqueue wait tick
    run_events is_due is_closed schedule serve serve_all
computes = tt

create_too_early : (create_container env frozen container_request start_runtime).0 ≡ err not_found
unfolding computes
create_too_early = refl

-- Pull, run, create and start: after the last reply the container is RUNNING.
abbrev pub story : List ((ℕ → ℕ) × Call)
story =
    (frozen, pull false (some nginx))
    ∷ (frozen, run_pod pod_request)
    ∷ (frozen, create container_request)
    ∷ (frozen, start "container-sandbox-u1-t-c1-t")
    ∷ []

abbrev state_of : Reply (Option ContainerStatus) × Runtime → Option ContainerState
state_of (ok (some s), r) = some s.state
state_of _ = none

story_runs :
    state_of
      (container_status env "container-sandbox-u1-t-c1-t" (serve_all env story start_runtime).1)
    ≡ some container_running
unfolding computes
story_runs = refl

-- The sandbox of a new container is not removed before the container.
remove_busy : (remove_pod_sandbox env "sandbox-u1-t" busy).0 ≡ err invalid_argument
unfolding computes
remove_busy = refl
