-- ===== src/Cri/History.antt =====
-- Histories of calls on the runtime of pkg/cri. Handlers do not overlap (Service), so a history is a
-- list of calls, with ticks of the simulation between them.
pub mod Served
pub mod Edited
pub mod Whole
use runkube.Common.{
  ℕ, suc, ◌+◌, ◌*◌, ◌≤◌, ◌<◌, ◌≡◌, refl, ◌≢◌, String, Bool, true, false, ◌&&◌, Option, none, some,
  List, [], ◌∷◌, arith, eq_iff, All, length, lookup, remove, is_some, Option-cases, Bool-cases,
  ◌==◌, inl, inr, ◌∙◌,
}
use runkube.Cri.Objects.{ImageSpec, Externals, sandbox_ready, sandbox_notready}
use runkube.Cri.Model.{remove_container, remove_image, get_container, Store}
use runkube.Cri.Runtime.{u64_mod, Runtime, Run, done, panicked, blocked, tick, run_events}
use runkube.Cri.Runtime.Wait.{IsIdle}
use runkube.Cri.Service.{Reply, ok, err, panic, hang}
use runkube.Cri.Consistent.{
  IsConsistent, put_sandbox-IsConsistent, put_container-IsConsistent, drop_container-IsConsistent,
  drop_sandbox-IsConsistent, put_image-IsConsistent, drop_image-IsConsistent,
}
use runkube.Cri.Sandboxes.{
  RunPodSandboxRequest, get_metadata, run_pod_sandbox, stop_pod_sandbox, remove_pod_sandbox,
  new_pod_sandbox, new_pod_sandbox_status,
}
use runkube.Cri.Containers.{
  CreateContainerRequest, get_config, create_container, start_container, stop_container,
  remove_container_handler,
}
use runkube.Cri.Images.{pull_image, remove_image_handler}
use runkube.Cri.Sound.{
  IsSound, HasTime, with_store, after_wait, with_store-IsSound, after_wait-IsSound,
}

pub data Call : Type 0 where
  run_pod : RunPodSandboxRequest → Call
  stop_pod remove_pod : String → Call
  create : CreateContainerRequest → Call
  start stop drop : String → Call
  pull : Bool → Option ImageSpec → Call
  evict : Option ImageSpec → Call
  -- A tick with no call under way.
  elapse : Call

-- A reply that the client gets: neither a panic nor a call that never returns.
abbrev pub answers {ℓ} : {A : Type ℓ} → Reply A → Bool
answers (ok a) = true
answers (err c) = true
answers panic = false
answers hang = false

abbrev pub reported : {A : Type 0} → Reply A × Runtime → Bool × Runtime
reported (reply, r) = (answers reply, r)

abbrev pub ticked : Runtime → Run Runtime → Bool × Runtime
ticked r (done r') = (true, r')
ticked r panicked = (false, r)
ticked r blocked = (false, r)

module _ (env : Externals) where
  unfoldable pub serve : (ℕ → ℕ) → Call → Runtime → Bool × Runtime
  serve clock (run_pod req) r = reported (run_pod_sandbox env clock req r)
  serve clock (stop_pod sbid) r = reported (stop_pod_sandbox env clock sbid r)
  serve clock (remove_pod sbid) r = reported (remove_pod_sandbox env sbid r)
  serve clock (create req) r = reported (create_container env clock req r)
  serve clock (start scid) r = reported (start_container env clock scid r)
  serve clock (stop scid) r = reported (stop_container env clock scid r)
  serve clock (drop scid) r = reported (remove_container_handler env scid r)
  serve clock (pull picks_done image) r = reported (pull_image clock picks_done image r)
  serve clock (evict image) r = reported (remove_image_handler image r)
  serve clock elapse r = ticked r (tick clock r)

  -- Whether every call is answered, and the runtime after the last.
  unfoldable pub serve_all : List ((ℕ → ℕ) × Call) → Runtime → Bool × Runtime
  serve_all [] r = (true, r)
  serve_all ((clock, call) ∷ calls) r =
      let (answered, r') = serve clock call r in
      let (rest, r'') = serve_all calls r' in (answered && rest, r'')

-- The identifiers that the handlers look up are not empty, and an image has a name.
abbrev pub IsNamed : Call → Type 0
IsNamed (stop_pod sbid) = sbid ≢ ""
IsNamed (create req) =
    (image : ImageSpec) × ((get_config req).image ≡ some image) × (image.image ≢ "")
IsNamed (start scid) = scid ≢ ""
IsNamed (stop scid) = scid ≢ ""
IsNamed (pull picks_done image) = image ≢ none
IsNamed _ = Unit

-- The call was answered and left a sound runtime, at most ten ticks later.
abbrev pub IsServed : Runtime → Bool × Runtime → Type 0
IsServed r out = (out.0 ≡ true) × IsSound out.1 × (out.1.seq ≤ r.seq + 10)
