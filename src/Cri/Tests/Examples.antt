-- ===== src/Cri/Tests/Examples.antt =====
-- The theorems on pkg/cri at concrete states.
use runkube.Common.{
  ◌≡◌, refl, ◌≢◌, ◌⊎◌, String, true, false, none, some, [], ◌∷◌, arith, eq_iff, lookup, remove,
  join, is_some, if◌then◌else◌, ◌==◌,
}
use runkube.Cri.Objects.{
  PodSandboxStatus, sandbox_ready, sandbox_notready, container_running, container_exited,
}
use runkube.Cri.Model.{empty_store, new_image, new_sandbox, get_sandbox, get_image, add_image}
use runkube.Cri.Transitions.{with_sandbox_state}
use runkube.Cri.Model.Lookup.{get_sandbox-eq-lookup}
use runkube.Cri.Runtime.{done, enqueue}
use runkube.Cri.Runtime.Wait.{enqueue_returns}
use runkube.Cri.Consistent.{IsConsistent}
use runkube.Cri.Sound.{IsSound, with_store}
use runkube.Cri.Service.{
  ok, err, panic, not_found, invalid_argument, already_exists, cancelled, uniq_id,
}
use runkube.Cri.Sandboxes.{
  run_pod_sandbox, pod_sandbox_status, stop_pod_sandbox, remove_pod_sandbox,
}
use runkube.Cri.Containers.{
  CreateContainerRequest, create_container, start_container, stop_container,
  remove_container_handler,
}
use runkube.Cri.Images.{pull_image, store_image}
use runkube.Cri.Laws.Images.{pulled_store, pull_image_lem, pull_nil_image}
use runkube.Cri.Laws.States.{sandbox_state}
use runkube.Cri.Exits.{placed, exit_placed}
use runkube.Cri.Laws.Run.{run_pod_sandbox_lem, new_id}
use runkube.Cri.Laws.Stop.{stop_pod_sandbox_lem}
use runkube.Cri.Laws.Remove.{Removal, remove_pod_sandbox_lem}
use runkube.Cri.Laws.Create.{Creation, create_container_lem}
use runkube.Cri.Laws.Containers.{
  Move, start_container_lem, stop_container_lem, remove_container_lem,
}
use runkube.Cri.Laws.Unnamed.{stop_pod_sandbox_unnamed, create_container_no_image}
use runkube.Cri.History.{serve_all}
use runkube.Cri.History.Whole.{serve_all-IsSound}
use runkube.Cri.Tests.{
  frozen, env, nginx, pod_request, container_request, start_runtime, start_runtime-IsSound, pod,
  pod_status, busy, pod_named, c1_named, busy-IsSound, story,
}

enqueue_returns_example :
    enqueue frozen 3 (store_image (some nginx)) start_runtime
    ≡ done (record start_runtime {
      store = pulled_store (some nginx) empty_store;
      seq = 3;
      next_channel = 1;
      closed = 0 ∷ [];
    })
unfolding store_image add_image
enqueue_returns_example =
    enqueue_returns frozen 3 (store_image (some nginx)) start_runtime
      (pulled_store (some nginx) empty_store) start_runtime-IsSound.idle (omega arith) refl

get_sandbox-eq-lookup_example :
    get_sandbox env "sandbox-u1-t" busy.store ≡ lookup "sandbox-u1-t" busy.store.sandboxes
get_sandbox-eq-lookup_example =
    get_sandbox-eq-lookup env "sandbox-u1-t" busy.store pod_named busy-IsSound.consistent.sandboxes

serve_all-IsSound_example :
    ((serve_all env story start_runtime).0 ≡ true) × IsSound (serve_all env story start_runtime).1
serve_all-IsSound_example =
    serve_all-IsSound env story start_runtime start_runtime-IsSound (omega arith) (
      (λ e. cc),
      (
        tt,
        (
          (nginx, refl, (λ e. ground (arith, eq_iff "nginx" ""))),
          ((λ e. ground (arith, eq_iff "container-sandbox-u1-t-c1-t" "")), tt),
        ),
      ),
    )

remove_pod_sandbox_lem_example :
    ((◌≡◌ {A = String} "sandbox-u1-t" "")
      × (remove_pod_sandbox env "sandbox-u1-t" busy ≡ (err invalid_argument, busy)))
    ⊎ Removal "sandbox-u1-t" busy (remove_pod_sandbox env "sandbox-u1-t" busy)
remove_pod_sandbox_lem_example = remove_pod_sandbox_lem env busy busy-IsSound "sandbox-u1-t"

create_container_lem_example :
    Creation env frozen container_request busy (create_container env frozen container_request busy)
create_container_lem_example = create_container_lem env frozen busy busy-IsSound container_request

start_container_lem_example :
    Move container_running "c1" busy (start_container env frozen "c1" busy)
start_container_lem_example =
    start_container_lem env frozen busy busy-IsSound "c1" c1_named (omega arith)

stop_container_lem_example : Move container_exited "c1" busy (stop_container env frozen "c1" busy)
stop_container_lem_example =
    stop_container_lem env frozen busy busy-IsSound "c1" c1_named (omega arith)

remove_container_lem_example :
    remove_container_handler env "c1" busy
    ≡ (ok tt, with_store (record (busy.store) { containers = [] }) busy)
unfolding lookup remove
remove_container_lem_example = remove_container_lem env frozen busy busy-IsSound "c1" c1_named

pull_nil_image_run :
    is_some (get_image "anything" (pull_image frozen false none busy).1.store) ≡ true
pull_nil_image_run = pull_nil_image frozen busy busy-IsSound (omega arith) false "anything"

pull_image_lem_run :
    let out = pull_image frozen true (some nginx) start_runtime in
    (out.0 ≡ err cancelled)
    × ((k : String)
        → lookup k out.1.store.images
          ≡ (if nginx.image == k then some (new_image (some nginx)) else lookup k []))
    × (out.1.store.sandboxes ≡ [])
    × (out.1.store.containers ≡ [])
    × (out.1.seq ≡ 10)
pull_image_lem_run =
    pull_image_lem frozen start_runtime start_runtime-IsSound (omega arith) true nginx

stop_pod_sandbox_unnamed_run :
    let out = stop_pod_sandbox env frozen "" busy in
    (out.0 ≡ ok tt)
    × (lookup "" out.1.store.sandboxes
        ≡ some (with_sandbox_state sandbox_notready (new_sandbox pod pod_status)))
    × ¬ IsConsistent out.1.store
stop_pod_sandbox_unnamed_run =
    stop_pod_sandbox_unnamed env frozen busy busy-IsSound "sandbox-u1-t"
      (new_sandbox pod pod_status) [] (omega arith) refl

-- A request that gives no image.
abbrev imageless : CreateContainerRequest
imageless = record { pod_sandbox_id = "sandbox-u1-t"; config = none }

create_container_no_image_run : create_container env frozen imageless busy ≡ (panic, busy)
unfolding lookup uniq_id join
create_container_no_image_run =
    create_container_no_image env frozen busy busy-IsSound imageless "nginx"
      (new_image (some nginx)) [] pod_named refl (λ e. cc) refl refl

stop_pod_sandbox_lem_example :
    let out = stop_pod_sandbox env frozen "sandbox-u1-t" busy in
    ((lookup "sandbox-u1-t" busy.store.sandboxes ≡ none) × (out ≡ (err not_found, busy)))
    ⊎ ((lookup "sandbox-u1-t" busy.store.sandboxes ≢ none)
        × (out.0 ≡ ok tt)
        × ((k : String)
            → sandbox_state (lookup k out.1.store.sandboxes) ≡ (
                if "sandbox-u1-t" == k
                then some sandbox_notready
                else sandbox_state (lookup k busy.store.sandboxes)))
        × ((k : String)
            → placed (lookup k out.1.store.containers)
              ≡ exit_placed "sandbox-u1-t" (placed (lookup k busy.store.containers)))
        × (out.1.store.images ≡ busy.store.images)
        × (out.1.seq ≡ 50))
stop_pod_sandbox_lem_example =
    stop_pod_sandbox_lem env frozen busy busy-IsSound "sandbox-u1-t" pod_named (omega arith)

run_pod_sandbox_lem_example :
    let out = run_pod_sandbox env frozen pod_request start_runtime in
    let id = new_id env frozen pod_request in
    ((◌≡◌ {A = String} "u1" "") × (out ≡ (err invalid_argument, start_runtime)))
    ⊎ ((lookup id start_runtime.store.sandboxes ≢ none)
        × (out ≡ (err already_exists, start_runtime)))
    ⊎ ((lookup id start_runtime.store.sandboxes ≡ none)
        × (out.0 ≡ ok id)
        × ((s : PodSandboxStatus) × (pod_sandbox_status env id out.1 ≡ (ok (some s), out.1))
            × (s.state ≡ sandbox_ready))
        × ((k : String)
            → sandbox_state (lookup k out.1.store.sandboxes) ≡ (
                if id == k
                then some sandbox_ready
                else sandbox_state (lookup k start_runtime.store.sandboxes)))
        × (out.1.store.containers ≡ [])
        × (out.1.store.images ≡ [])
        × (out.1.seq ≡ 10))
run_pod_sandbox_lem_example =
    run_pod_sandbox_lem env frozen start_runtime start_runtime-IsSound pod_request (omega arith)
