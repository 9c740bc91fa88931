-- ===== src/Cri/History/Served.antt =====
-- The calls of a history that wait for their transition, from a sound runtime.
use runkube.Common.{
  ℕ, ◌≡◌, refl, ◌≢◌, String, Bool, true, false, Option, none, some, arith, eq_iff, lookup-Entries,
  lookup, Option-cases, Bool-cases, ◌==◌, inl, inr, insert,
}
use runkube.Cri.Objects.{ImageSpec, Externals, sandbox_ready, sandbox_notready}
use runkube.Cri.Model
use runkube.Cri.Model.{
  Container, Store, new_sandbox, new_image, remove_container, remove_image, get_container,
}
use runkube.Cri.Runtime.{Runtime}
use runkube.Cri.Consistent.{
  IsHoused, IsConsistent, put_sandbox-IsConsistent, put_container-IsConsistent,
  put_image-IsConsistent,
}
use runkube.Cri.Sandboxes.{
  RunPodSandboxRequest, get_metadata, run_pod_sandbox, stop_pod_sandbox, new_pod_sandbox,
  new_pod_sandbox_status,
}
use runkube.Cri.Containers.{start_container, stop_container}
use runkube.Cri.Images.{pull_image}
use runkube.Cri.Transitions.{with_sandbox_state, running, exited}
use runkube.Cri.Exits.{exit_all-IsConsistent}
use runkube.Cri.Sound.{
  IsSound, HasTime, with_store, after_wait, with_store-IsSound, after_wait-IsSound,
}
use runkube.Cri.Laws.States.{sandbox_parts}
use runkube.Cri.Laws.Stop.{stopped_store, stop_pod_sandbox_found, stop_pod_sandbox_missing}
use runkube.Cri.Laws.Run.{
  new_id, new_id-ne-empty, created_sandbox, started_store, run_pod_sandbox_new,
  run_pod_sandbox_no_uid, run_pod_sandbox_taken,
}
use runkube.Cri.Laws.Containers.{
  container_parts, put_container, start_container_found, stop_container_found, missing_container,
}
use runkube.Cri.Laws.Images.{pulled_store, pull_image_eq}
use runkube.Cri.History.{reported, IsServed}

module _ (r : Runtime) (sound : IsSound r) where
  pub kept : IsServed r (true, r)
  kept = (refl, sound, omega arith)

  pub stored : (st : Store) → IsConsistent st → IsServed r (true, with_store st r)
  stored st well = (refl, with_store-IsSound r st sound well, omega arith)

  waited : (st : Store) → IsConsistent st → IsServed r (true, after_wait st r)
  waited st well = (refl, after_wait-IsSound r st sound well, omega arith)

  module _ (env : Externals) (clock : ℕ → ℕ) (time : HasTime r) where
    pub run_pod_sandbox-IsServed :
        (req : RunPodSandboxRequest) → IsServed r (reported (run_pod_sandbox env clock req r))
    unfolding new_pod_sandbox new_pod_sandbox_status
    run_pod_sandbox-IsServed req = elim (Bool-cases ((get_metadata req.config).uid == "")) [
      | inl e ↦
          rw
            (run_pod_sandbox_no_uid env clock r sound req
              ((eq_iff (get_metadata req.config).uid "").0 e))
            kept
      | inr e ↦
          let given : (get_metadata req.config).uid ≢ "" =
            λ h. ground (arith, eq_iff (get_metadata req.config).uid "") in
          elim (Option-cases (lookup (new_id env clock req) r.store.sandboxes)) [
            | inr (sb, there) ↦
                rw (run_pod_sandbox_taken env clock r sound req given (λ h. cc)) kept
            | inl free ↦ rw (run_pod_sandbox_new env clock r sound req given free time) (
                waited (started_store env clock req r.store) (
                  put_sandbox-IsConsistent r.store sound.consistent (new_id env clock req)
                    (with_sandbox_state sandbox_ready (created_sandbox env clock req))
                    (new_id-ne-empty env clock req, refl, refl, refl)))
          ]
    ]

    stopped-IsConsistent :
        (sbid : String) (sb : Model.Sandbox)
        → lookup sbid r.store.sandboxes ≡ some sb
        → IsConsistent (stopped_store clock sbid sb r.store)
    stopped-IsConsistent sbid sb e =
        let (p, s, is_p, is_s, ne, same_p, same_s, _) =
          sandbox_parts r.store sound.consistent sbid sb e in
        let sb' = with_sandbox_state sandbox_notready sb in
        let st : Store = record (r.store) { sandboxes = insert sbid sb' r.store.sandboxes } in
        exit_all-IsConsistent clock sbid st
          (put_sandbox-IsConsistent r.store sound.consistent sbid sb' (ground arith))

    pub stop_pod_sandbox-IsServed :
        (sbid : String) → sbid ≢ "" → IsServed r (reported (stop_pod_sandbox env clock sbid r))
    stop_pod_sandbox-IsServed sbid ne = elim (Option-cases (lookup sbid r.store.sandboxes)) [
      | inl e ↦ rw (stop_pod_sandbox_missing env clock r sound sbid ne e) kept
      | inr (sb, e) ↦
          rw (stop_pod_sandbox_found env clock r sound sbid sb ne time e)
            (waited (stopped_store clock sbid sb r.store) (stopped-IsConsistent sbid sb e))
    ]

    -- A container of well-formed maps is in a sandbox.
    container-IsHoused :
        (scid : String) (c : Container)
        → lookup scid r.store.containers ≡ some c
        → IsHoused r.store.sandboxes c.p
    container-IsHoused scid c e =
        lookup-Entries (λ _ x. IsHoused r.store.sandboxes x.p) scid c r.store.containers e
          sound.consistent.housed

    running-IsConsistent :
        (scid : String) (c : Container)
        → lookup scid r.store.containers ≡ some c
        → IsConsistent (put_container scid (running (clock 0) c) r.store)
    running-IsConsistent scid c e =
        let (p, s, is_p, is_s, ne, same_p, same_s, _) =
          container_parts r.store sound.consistent scid c e in
        let housed = container-IsHoused scid c e in
        put_container-IsConsistent r.store sound.consistent scid (running (clock 0) c)
          (ground arith) (ground arith)

    exited-IsConsistent :
        (scid : String) (c : Container)
        → lookup scid r.store.containers ≡ some c
        → IsConsistent (put_container scid (exited (clock 0) c) r.store)
    exited-IsConsistent scid c e =
        let (p, s, is_p, is_s, ne, same_p, same_s, _) =
          container_parts r.store sound.consistent scid c e in
        let housed = container-IsHoused scid c e in
        put_container-IsConsistent r.store sound.consistent scid (exited (clock 0) c) (ground arith)
          (ground arith)

    pub start_container-IsServed :
        (scid : String) → scid ≢ "" → IsServed r (reported (start_container env clock scid r))
    start_container-IsServed scid ne = elim (Option-cases (lookup scid r.store.containers)) [
      | inl e ↦ rw (missing_container env clock r sound scid ne e).0 kept
      | inr (c, e) ↦ rw (start_container_found env clock r sound scid c ne time e) (
          waited (put_container scid (running (clock 0) c) r.store) (running-IsConsistent scid c e))
    ]

    pub stop_container-IsServed :
        (scid : String) → scid ≢ "" → IsServed r (reported (stop_container env clock scid r))
    stop_container-IsServed scid ne = elim (Option-cases (lookup scid r.store.containers)) [
      | inl e ↦ rw (missing_container env clock r sound scid ne e).1 kept
      | inr (c, e) ↦
          rw (stop_container_found env clock r sound scid c ne time e) (
            waited (put_container scid (exited (clock 0) c) r.store) (exited-IsConsistent scid c e))
    ]

    pub pull_image-IsServed :
        (picks_done : Bool) (image : Option ImageSpec)
        → image ≢ none
        → IsServed r (reported (pull_image clock picks_done image r))
    pull_image-IsServed true none ne = absurd (ne refl)
    pull_image-IsServed false none ne = absurd (ne refl)
    pull_image-IsServed true (some image) ne =
        rw (pull_image_eq clock r sound time true (some image)) (
          waited (pulled_store (some image) r.store) (
            put_image-IsConsistent r.store sound.consistent image.image (new_image (some image))
              refl))
    pull_image-IsServed false (some image) ne =
        rw (pull_image_eq clock r sound time false (some image)) (
          waited (pulled_store (some image) r.store) (
            put_image-IsConsistent r.store sound.consistent image.image (new_image (some image))
              refl))
