-- ===== src/Cri/Sandboxes.antt =====
-- pkg/cri/cri.go: the handlers for pod sandboxes. The n-th reading of the clock in a call is
-- `clock n`.
use runkube.Common.{
  ℕ, suc, String, Bool, true, false, not, Option, none, some, List, [], ◌∷◌, map, is_some, ◌==◌,
  if◌then◌else◌, ◌>>=?◌,
}
use runkube.Cri.Objects.{
  Labels, sandbox_ready, sandbox_notready, container_exited, PodSandboxMetadata, PodSandbox,
  PodSandboxStatus, PodSandboxStats, PodSandboxFilter, PodSandboxStatsFilter, Externals,
}
use runkube.Cri.Model.{
  Container, Store, new_sandbox, add_sandbox, update_sandbox, remove_sandbox, update_container,
  list_sandboxes, get_sandbox, list_containers, list_pod_sandbox_stats, get_pod_sandbox_stats,
}
use runkube.Cri.Runtime.{Callback}
use runkube.Cri.Service.{
  invalid_argument, not_found, already_exists, Handler, ◌>>=◌, ◌>>◌, pure, require, found, deref,
  query, modify, await, uniq_id,
}

pub record PodSandboxConfig : Type 0 where
  pub metadata : Option PodSandboxMetadata
  pub labels : Labels
  pub annotations : Labels

pub record RunPodSandboxRequest : Type 0 where
  pub config : Option PodSandboxConfig
  pub runtime_handler : String

abbrev no_metadata : PodSandboxMetadata
no_metadata = record { name = ""; uid = ""; namespace = ""; attempt = 0 }

-- The getters, which give zero values behind nil pointers.
abbrev pub get_metadata : Option PodSandboxConfig → PodSandboxMetadata
get_metadata none = no_metadata
get_metadata (some c) = elim c.metadata [ none ↦ no_metadata | some m ↦ m ]

abbrev get_labels : Option PodSandboxConfig → Labels
get_labels none = []
get_labels (some c) = c.labels

abbrev get_annotations : Option PodSandboxConfig → Labels
get_annotations none = []
get_annotations (some c) = c.annotations

unfoldable pub new_pod_sandbox : RunPodSandboxRequest → String → ℕ → PodSandbox
new_pod_sandbox req sbid now = record {
  id = sbid;
  metadata = get_metadata req.config;
  state = sandbox_notready;
  created_at = now;
  labels = get_labels req.config;
  annotations = get_annotations req.config;
  runtime_handler = req.runtime_handler;
}

unfoldable pub new_pod_sandbox_status : PodSandbox → PodSandboxStatus
new_pod_sandbox_status np = record {
  id = np.id;
  metadata = np.metadata;
  state = np.state;
  created_at = np.created_at;
  labels = np.labels;
  annotations = np.annotations;
  runtime_handler = np.runtime_handler;
  ip = "10.0.0.1";
}

-- One container of the loop of `StopPodSandbox`. The clock is read for each that is stopped.
unfoldable pub exit_container : ℕ → String → Container → Store → Option Store
exit_container now sbid v st = v.p >>=? λ p.
    if p.pod_sandbox_id == sbid
    then (v.s >>=? λ s. some (
        update_container p.id
          (record v {
            p = some (record p { state = container_exited });
            s = some (record s { state = container_exited; finished_at = now });
          })
          st))
    else some st

unfoldable pub exit_containers : (ℕ → ℕ) → ℕ → String → List Container → Store → Option Store
exit_containers clock i sbid [] st = some st
exit_containers clock i sbid (v ∷ vs) st =
    exit_container (clock i) sbid v st >>=? exit_containers clock (suc i) sbid vs

-- Whether the loop of `RemovePodSandbox` meets a container of the sandbox. `none` is a nil
-- dereference before it meets one.
unfoldable pub has_containers : String → List Container → Option Bool
has_containers sbid [] = some false
has_containers sbid (v ∷ vs) =
    let rest : Option Bool = has_containers sbid vs in
    v.p >>=? λ p. if p.pod_sandbox_id == sbid then some true else rest

module _ (env : Externals) where
  -- The transition to READY that `RunPodSandbox` enqueues.
  unfoldable pub make_ready : String → Callback
  make_ready sbid clock st = elim (get_sandbox env sbid st) [
    | none ↦ some st
    | some sb ↦ sb.p >>=? λ p. sb.s >>=? λ s. some (
        update_sandbox sbid
          (record sb {
            p = some (record p { state = sandbox_ready });
            s = some (record s { state = sandbox_ready });
          })
          st)
  ]

  unfoldable pub run_pod_sandbox : (ℕ → ℕ) → RunPodSandboxRequest → Handler String
  unfolding make_ready new_pod_sandbox new_pod_sandbox_status
  run_pod_sandbox clock req = do
    require (not ((get_metadata req.config).uid == "")) invalid_argument
    let sbid = uniq_id env (clock 0) ("sandbox" ∷ (get_metadata req.config).uid ∷ [])
    existing ← query (get_sandbox env sbid)
    require (not (is_some existing)) already_exists
    let np = new_pod_sandbox req sbid (clock 1)
    modify (add_sandbox sbid (new_sandbox np (new_pod_sandbox_status np)))
    await clock 10 (make_ready sbid)
    pure sbid

  -- The transition to NOTREADY, without that of the containers.
  unfoldable pub make_notready : String → Store → Option Store
  make_notready sbid st = elim (get_sandbox env sbid st) [
    | none ↦ some st
    | some sb ↦ sb.p >>=? λ p. sb.s >>=? λ s. some (
        update_sandbox sbid
          (record sb {
            p = some (record p { state = sandbox_notready });
            s = some (record s { state = sandbox_notready });
          })
          st)
  ]

  -- What `StopPodSandbox` enqueues.
  unfoldable pub stop_sandbox : String → Callback
  unfolding make_notready
  stop_sandbox sbid clock st = make_notready sbid st >>=? λ st'.
      exit_containers clock 0 sbid (list_containers env none st') st'

  unfoldable pub stop_pod_sandbox : (ℕ → ℕ) → String → Handler (Unit {0})
  stop_pod_sandbox clock sbid = do
    existing ← query (get_sandbox env sbid)
    require (is_some existing) not_found
    await clock 10 (stop_sandbox sbid)

  unfoldable pub remove_pod_sandbox : String → Handler (Unit {0})
  remove_pod_sandbox sbid = do
    require (not (sbid == "")) invalid_argument
    existing ← query (get_sandbox env sbid)
    require (is_some existing) not_found
    used ← (deref (← query (λ st. has_containers sbid (list_containers env none st))))
    require (not used) invalid_argument
    modify (remove_sandbox sbid)

  unfoldable pub pod_sandbox_status : String → Handler (Option PodSandboxStatus)
  pod_sandbox_status sbid = do o ← (found (← query (get_sandbox env sbid)) not_found); pure o.s

  unfoldable pub list_pod_sandbox : Option PodSandboxFilter → Handler (List (Option PodSandbox))
  list_pod_sandbox f = query (λ st. map (λ x. x.p) (list_sandboxes env f st))

  unfoldable pub pod_sandbox_stats : String → Handler PodSandboxStats
  pod_sandbox_stats sbid = do stats ← query (get_pod_sandbox_stats env sbid); found stats not_found

unfoldable pub list_pod_sandbox_stats_handler :
    Option PodSandboxStatsFilter → Handler (List PodSandboxStats)
list_pod_sandbox_stats_handler f = do list ← query (list_pod_sandbox_stats f); deref list
