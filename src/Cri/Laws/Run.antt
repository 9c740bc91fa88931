-- ===== src/Cri/Laws/Run.antt =====
-- `RunPodSandbox` of pkg/cri/cri.go, on every branch.
use runkube.Common.{
  ℕ, ◌+◌, ◌⊎◌, inl, inr, ◌==◌, if◌then◌else◌, Bool-cases, Option-cases, ◌≡◌, refl, ap, ◌∙◌, ◌≢◌,
  String, none, some, [], ◌∷◌, arith, eq_iff, eq_refl, lookup, insert, lookup-insert, insert-insert,
}
use runkube.Cri.Objects.{sandbox_ready, PodSandboxStatus, Externals}
use runkube.Cri.Model.{Sandbox, Store, new_sandbox, add_sandbox}
use runkube.Cri.Model.Lookup.{get_sandbox-eq-lookup}
use runkube.Cri.Runtime.{Runtime}
use runkube.Cri.Service.{invalid_argument, already_exists, ok, err, uniq_id, uniq_id-ne-empty}
use runkube.Cri.Consistent.{IsConsistent, put_sandbox-IsConsistent}
use runkube.Cri.Sandboxes.{
  RunPodSandboxRequest, get_metadata, new_pod_sandbox, new_pod_sandbox_status, make_ready,
  run_pod_sandbox, pod_sandbox_status,
}
use runkube.Cri.Transitions.{with_sandbox_state, make_ready_lem}
use runkube.Cri.Sound.{IsSound, HasTime, with_store, after_wait, await_lem, with_store-IsSound}
use runkube.Cri.Laws.States.{sandbox_state, sandbox_state-insert}

-- The identifier that `RunPodSandbox` makes.
abbrev pub new_id : Externals → (ℕ → ℕ) → RunPodSandboxRequest → String
new_id env clock req = uniq_id env (clock 0) ("sandbox" ∷ (get_metadata req.config).uid ∷ [])

-- The sandbox that it stores.
abbrev pub created_sandbox : Externals → (ℕ → ℕ) → RunPodSandboxRequest → Sandbox
created_sandbox env clock req =
    let np = new_pod_sandbox req (new_id env clock req) (clock 1) in
    new_sandbox np (new_pod_sandbox_status np)

abbrev pub started_store : Externals → (ℕ → ℕ) → RunPodSandboxRequest → Store → Store
started_store env clock req st = record st {
  sandboxes =
      insert (new_id env clock req)
        (with_sandbox_state sandbox_ready (created_sandbox env clock req)) st.sandboxes;
}

pub new_id-ne-empty :
    (env : Externals) (clock : ℕ → ℕ) (req : RunPodSandboxRequest) → new_id env clock req ≢ ""
new_id-ne-empty env clock req =
    uniq_id-ne-empty env (clock 0) "sandbox" (get_metadata req.config).uid []
      (λ e. ground (arith, eq_iff "sandbox" ""))

module _ (env : Externals) (clock : ℕ → ℕ) (r : Runtime) (sound : IsSound r) where
  pub run_pod_sandbox_new :
      (req : RunPodSandboxRequest)
      → (get_metadata req.config).uid ≢ ""
      → lookup (new_id env clock req) r.store.sandboxes ≡ none
      → HasTime r
      → run_pod_sandbox env clock req r
        ≡ (ok (new_id env clock req), after_wait (started_store env clock req r.store) r)
  unfolding run_pod_sandbox add_sandbox new_pod_sandbox new_pod_sandbox_status
  run_pod_sandbox_new req ne free time =
      let id = new_id env clock req in
      let sb = created_sandbox env clock req in
      let m = insert id sb r.store.sandboxes in
      let st : Store = record (r.store) { sandboxes = m } in
      let well : IsConsistent st =
        put_sandbox-IsConsistent r.store sound.consistent id sb
          (new_id-ne-empty env clock req, refl, refl, refl) in
      let there : lookup id m ≡ some sb =
        lookup-insert id id sb r.store.sandboxes ∙ rw (eq_refl id) in
      let runs : make_ready env id clock st ≡ some (started_store env clock req r.store) =
        make_ready_lem env clock st well id sb there
        ∙ ap (λ l. some (record (r.store) { sandboxes = l }))
            (insert-insert id sb (with_sandbox_state sandbox_ready sb) r.store.sandboxes) in
      ground (
        arith,
        eq_iff (get_metadata req.config).uid "",
        get_sandbox-eq-lookup env id r.store (new_id-ne-empty env clock req)
            sound.consistent.sandboxes,
        await_lem (with_store st r) clock (make_ready env id) (started_store env clock req r.store)
            (with_store-IsSound r st sound well).idle time runs,
      )

  status_after_run :
      (req : RunPodSandboxRequest)
      → let id = new_id env clock req in
        let r' = after_wait (started_store env clock req r.store) r in
        (s : PodSandboxStatus) × (pod_sandbox_status env id r' ≡ (ok (some s), r'))
        × (s.state ≡ sandbox_ready)
  unfolding pod_sandbox_status new_pod_sandbox new_pod_sandbox_status
  status_after_run req =
      let id = new_id env clock req in
      let sb = created_sandbox env clock req in
      let ready = with_sandbox_state sandbox_ready sb in
      let r' = after_wait (started_store env clock req r.store) r in
      let well : IsConsistent r'.store =
        put_sandbox-IsConsistent r.store sound.consistent id ready
          (new_id-ne-empty env clock req, refl, refl, refl) in
      let there : lookup id r'.store.sandboxes ≡ some ready =
        lookup-insert id id ready r.store.sandboxes ∙ rw (eq_refl id) in
      let nps = new_pod_sandbox_status (new_pod_sandbox req id (clock 1)) in
      (
        record nps { state = sandbox_ready },
        rw (
          get_sandbox-eq-lookup env id r'.store (new_id-ne-empty env clock req) well.sandboxes,
          there,
        ),
        refl,
      )

  pub run_pod_sandbox_no_uid :
      (req : RunPodSandboxRequest)
      → (get_metadata req.config).uid ≡ ""
      → run_pod_sandbox env clock req r ≡ (err invalid_argument, r)
  unfolding run_pod_sandbox
  run_pod_sandbox_no_uid req e = ground (arith, eq_iff (get_metadata req.config).uid "")

  pub run_pod_sandbox_taken :
      (req : RunPodSandboxRequest)
      → (get_metadata req.config).uid ≢ ""
      → lookup (new_id env clock req) r.store.sandboxes ≢ none
      → run_pod_sandbox env clock req r ≡ (err already_exists, r)
  unfolding run_pod_sandbox
  run_pod_sandbox_taken req ne taken = ground (
    arith,
    eq_iff (get_metadata req.config).uid "",
    get_sandbox-eq-lookup env (new_id env clock req) r.store (new_id-ne-empty env clock req)
        sound.consistent.sandboxes,
  )

  -- On a sound runtime with room for ten ticks, `RunPodSandbox` refuses an empty uid and an
  -- identifier in use, and then changes nothing. Otherwise it returns the identifier after ten
  -- ticks. By then the sandbox is READY, also for `PodSandboxStatus`, and the state of every other
  -- sandbox, the containers and the images are as before.
  pub run_pod_sandbox_lem :
      (req : RunPodSandboxRequest)
      → HasTime r
      → let out = run_pod_sandbox env clock req r in
        let id = new_id env clock req in
        (((get_metadata req.config).uid ≡ "") × (out ≡ (err invalid_argument, r)))
        ⊎ ((lookup id r.store.sandboxes ≢ none) × (out ≡ (err already_exists, r)))
        ⊎ ((lookup id r.store.sandboxes ≡ none)
            × (out.0 ≡ ok id)
            × ((s : PodSandboxStatus) × (pod_sandbox_status env id out.1 ≡ (ok (some s), out.1))
                × (s.state ≡ sandbox_ready))
            × ((k : String)
                → sandbox_state (lookup k out.1.store.sandboxes) ≡ (
                    if id == k
                    then some sandbox_ready
                    else sandbox_state (lookup k r.store.sandboxes)))
            × (out.1.store.containers ≡ r.store.containers)
            × (out.1.store.images ≡ r.store.images)
            × (out.1.seq ≡ r.seq + 10))
  run_pod_sandbox_lem req time = elim (Bool-cases ((get_metadata req.config).uid == "")) [
    | inl e ↦
        let none_given = (eq_iff (get_metadata req.config).uid "").0 e in
        inl (none_given, run_pod_sandbox_no_uid req none_given)
    | inr e ↦
        let given : (get_metadata req.config).uid ≢ "" =
          λ h. ground (arith, eq_iff (get_metadata req.config).uid "") in
        elim (Option-cases (lookup (new_id env clock req) r.store.sandboxes)) [
          | inr (sb, there) ↦
              let taken : lookup (new_id env clock req) r.store.sandboxes ≢ none = λ h. cc in
              inr (inl (taken, run_pod_sandbox_taken req given taken))
          | inl free ↦ rw (run_pod_sandbox_new req given free time) (
              inr (
                inr (
                  free,
                  refl,
                  status_after_run req,
                  (λ k.
                      sandbox_state-insert k (new_id env clock req) sandbox_ready
                        (created_sandbox env clock req)
                        (new_pod_sandbox req (new_id env clock req) (clock 1)) r.store.sandboxes
                        refl),
                  refl,
                  refl,
                  refl,
                )))
        ]
  ]
