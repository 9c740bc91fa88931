-- ===== src/Cri/Laws/Stop.antt =====
-- `StopPodSandbox` of pkg/cri/cri.go, on every branch.
use runkube.Common.{
  ℕ, ◌+◌, ◌≡◌, refl, ◌≢◌, ◌⊎◌, inl, inr, String, none, some, arith, Option-cases, lookup, insert,
  ◌==◌, if◌then◌else◌,
}
use runkube.Cri.Objects.{sandbox_notready, Externals}
use runkube.Cri.Model.{Sandbox, Store}
use runkube.Cri.Model.Lookup.{get_sandbox-eq-lookup}
use runkube.Cri.Runtime.{Runtime}
use runkube.Cri.Service.{not_found, ok, err}
use runkube.Cri.Sandboxes.{stop_sandbox, stop_pod_sandbox}
use runkube.Cri.Transitions.{with_sandbox_state, exit_all, stop_sandbox_lem}
use runkube.Cri.Exits.{placed, exit_placed, placed-exit_all}
use runkube.Cri.Sound.{IsSound, HasTime, after_wait, await_lem}
use runkube.Cri.Laws.States.{sandbox_state, sandbox_parts, sandbox_state-insert}

abbrev pub stopped_store : (ℕ → ℕ) → String → Sandbox → Store → Store
stopped_store clock sbid sb st = record st {
  sandboxes = insert sbid (with_sandbox_state sandbox_notready sb) st.sandboxes;
  containers = exit_all clock 0 sbid st.containers;
}

module _ (env : Externals) (clock : ℕ → ℕ) (r : Runtime) (sound : IsSound r) where
  pub stop_pod_sandbox_found :
      (sbid : String) (sb : Sandbox)
      → sbid ≢ ""
      → HasTime r
      → lookup sbid r.store.sandboxes ≡ some sb
      → stop_pod_sandbox env clock sbid r
        ≡ (ok tt, after_wait (stopped_store clock sbid sb r.store) r)
  unfolding stop_pod_sandbox
  stop_pod_sandbox_found sbid sb ne time e = ground (
    arith,
    get_sandbox-eq-lookup env sbid r.store ne sound.consistent.sandboxes,
    await_lem r clock (stop_sandbox env sbid) (stopped_store clock sbid sb r.store) sound.idle time
        (stop_sandbox_lem env clock r.store sbid sb sound.consistent e),
  )

  pub stop_pod_sandbox_missing :
      (sbid : String)
      → sbid ≢ ""
      → lookup sbid r.store.sandboxes ≡ none
      → stop_pod_sandbox env clock sbid r ≡ (err not_found, r)
  unfolding stop_pod_sandbox
  stop_pod_sandbox_missing sbid ne e =
      ground (arith, get_sandbox-eq-lookup env sbid r.store ne sound.consistent.sandboxes)

  -- On a sound runtime with room for ten ticks, `StopPodSandbox` of a nonempty unknown identifier
  -- is refused and changes nothing. Of a known one it returns after ten ticks: the sandbox is
  -- NOTREADY, each of its containers EXITED, and the state of every other sandbox, the place and
  -- state of every other container, and the images are as before.
  pub stop_pod_sandbox_lem :
      (sbid : String)
      → sbid ≢ ""
      → HasTime r
      → let out = stop_pod_sandbox env clock sbid r in
        ((lookup sbid r.store.sandboxes ≡ none) × (out ≡ (err not_found, r)))
        ⊎ ((lookup sbid r.store.sandboxes ≢ none)
            × (out.0 ≡ ok tt)
            × ((k : String)
                → sandbox_state (lookup k out.1.store.sandboxes) ≡ (
                    if sbid == k
                    then some sandbox_notready
                    else sandbox_state (lookup k r.store.sandboxes)))
            × ((k : String)
                → placed (lookup k out.1.store.containers)
                  ≡ exit_placed sbid (placed (lookup k r.store.containers)))
            × (out.1.store.images ≡ r.store.images)
            × (out.1.seq ≡ r.seq + 10))
  stop_pod_sandbox_lem sbid ne time = elim (Option-cases (lookup sbid r.store.sandboxes)) [
    | inl e ↦ inl (e, stop_pod_sandbox_missing sbid ne e)
    | inr (sb, e) ↦ rw (stop_pod_sandbox_found sbid sb ne time e) (
        inr (
          (λ gone. cc),
          refl,
          states sb e,
          (λ k. placed-exit_all clock sbid 0 k r.store.containers),
          refl,
          refl,
        ))
  ]
    where
      states :
          (sb : Sandbox)
          → lookup sbid r.store.sandboxes ≡ some sb
          → (k : String)
          → sandbox_state
              (lookup k (insert sbid (with_sandbox_state sandbox_notready sb) r.store.sandboxes))
            ≡ (if sbid == k
                then some sandbox_notready
                else sandbox_state (lookup k r.store.sandboxes))
      states sb e k =
          let (p, s, is_p, _, _, _, _, _) = sandbox_parts r.store sound.consistent sbid sb e in
          sandbox_state-insert k sbid sandbox_notready sb p r.store.sandboxes is_p
