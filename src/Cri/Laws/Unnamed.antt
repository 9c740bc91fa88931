-- ===== src/Cri/Laws/Unnamed.antt =====
-- Calls of pkg/cri/cri.go with an empty identifier or without an image: the filters of the getters
-- then let every object by.
use runkube.Common.{
  ℕ, ◌≡◌, refl, ◌≢◌, String, true, none, some, [], ◌∷◌, arith, eq_iff, subst, lookup, insert, Dict,
  lookup-insert, lookup-Entries,
}
use runkube.Cri.Objects.{sandbox_notready, Externals}
use runkube.Cri.Model.{
  passes_text, map_option, Sandbox, Image, Store, sandbox_matches, image_matches, get_sandbox,
  get_image, update_sandbox,
}
use runkube.Cri.Model.Lookup.{
  SandboxAgrees, SandboxesAgree, get_sandbox-eq-lookup, get_container-eq-lookup,
}
use runkube.Cri.Runtime.{Runtime}
use runkube.Cri.Service.{ok, panic}
use runkube.Cri.Consistent.{IsConsistent, SandboxAgrees-parts}
use runkube.Cri.Sandboxes.{make_notready, stop_sandbox, stop_pod_sandbox}
use runkube.Cri.Containers.{CreateContainerRequest, get_config, create_container}
use runkube.Cri.Transitions.{with_sandbox_state, exit_all, exit_containers_lem, list_containers_all}
use runkube.Cri.Laws.Create.{container_id, container_id-ne-empty}
use runkube.Cri.Sound.{IsSound, HasTime, after_wait, await_lem}

unnamed_passes : (sb : Sandbox) → passes_text "" (map_option (λ p. p.id) sb.p) ≡ true
unnamed_passes sb = ground arith

get_sandbox_unnamed :
    (env : Externals) (st : Store) (k : String) (sb : Sandbox) (rest : Dict Sandbox)
    → st.sandboxes ≡ (k, sb) ∷ rest
    → get_sandbox env "" st ≡ some sb
unfolding get_sandbox sandbox_matches
get_sandbox_unnamed env st k sb rest e = ground (arith, unnamed_passes sb)

get_image_unnamed :
    (st : Store) (k : String) (img : Image) (rest : Dict Image)
    → st.images ≡ (k, img) ∷ rest
    → get_image "" st ≡ some img
unfolding get_image image_matches
get_image_unnamed st k img rest e = ground arith

-- The first sandbox, NOTREADY, under the empty key; and the containers of the sandbox "".
abbrev misfiled : (ℕ → ℕ) → Sandbox → Store → Store
misfiled clock sb st = record st {
  sandboxes = insert "" (with_sandbox_state sandbox_notready sb) st.sandboxes;
  containers = exit_all clock 0 "" st.containers;
}

module _ (env : Externals) (clock : ℕ → ℕ) (r : Runtime) (sound : IsSound r) where
  stop_sandbox_unnamed :
      (k : String) (sb : Sandbox) (rest : Dict Sandbox)
      → r.store.sandboxes ≡ (k, sb) ∷ rest
      → stop_sandbox env "" clock r.store ≡ some (misfiled clock sb r.store)
  unfolding stop_sandbox make_notready update_sandbox
  stop_sandbox_unnamed k sb rest e =
      let well = sound.consistent in
      let first : SandboxesAgree ((k, sb) ∷ rest) = subst SandboxesAgree e well.sandboxes in
      let (p, s, is_p, is_s, _, _, _, _) = SandboxAgrees-parts k sb.p sb.s first.0 in
      let st : Store = record (r.store) {
        sandboxes = insert "" (with_sandbox_state sandbox_notready sb) r.store.sandboxes;
      } in
      ground (
        arith,
        get_sandbox_unnamed env r.store k sb rest e,
        list_containers_all env st,
        exit_containers_lem clock "" 0 st [] r.store.containers refl well.containers
            well.one_container,
      )

  stop_pod_sandbox_misfiles :
      (k : String) (sb : Sandbox) (rest : Dict Sandbox)
      → HasTime r
      → r.store.sandboxes ≡ (k, sb) ∷ rest
      → stop_pod_sandbox env clock "" r ≡ (ok tt, after_wait (misfiled clock sb r.store) r)
  unfolding stop_pod_sandbox
  stop_pod_sandbox_misfiles k sb rest time e = ground (
    arith,
    get_sandbox_unnamed env r.store k sb rest e,
    await_lem r clock (stop_sandbox env "") (misfiled clock sb r.store) sound.idle time
        (stop_sandbox_unnamed k sb rest e),
  )

  misfiled_there :
      (sb : Sandbox)
      → lookup "" (misfiled clock sb r.store).sandboxes
        ≡ some (with_sandbox_state sandbox_notready sb)
  misfiled_there sb = lookup-insert "" "" (with_sandbox_state sandbox_notready sb) r.store.sandboxes

  not-IsConsistent-misfiled : (sb : Sandbox) → ¬ IsConsistent (misfiled clock sb r.store)
  not-IsConsistent-misfiled sb well =
      let sb' = with_sandbox_state sandbox_notready sb in
      let a : SandboxAgrees "" sb'.p sb'.s =
        lookup-Entries _ "" sb' (misfiled clock sb r.store).sandboxes (misfiled_there sb)
          well.sandboxes in
      let (_, _, _, _, ne, _, _, _) = SandboxAgrees-parts "" sb'.p sb'.s a in ne refl

  -- On a sound runtime with room for ten ticks, `StopPodSandbox` with the empty identifier, while
  -- there is any sandbox, succeeds: it files a copy of the first sandbox under the empty key, so
  -- the maps are no longer well-formed.
  pub stop_pod_sandbox_unnamed :
      (k : String) (sb : Sandbox) (rest : Dict Sandbox)
      → HasTime r
      → r.store.sandboxes ≡ (k, sb) ∷ rest
      → let out = stop_pod_sandbox env clock "" r in
        (out.0 ≡ ok tt)
        × (lookup "" out.1.store.sandboxes ≡ some (with_sandbox_state sandbox_notready sb))
        × ¬ IsConsistent out.1.store
  stop_pod_sandbox_unnamed k sb rest time e =
      rw (stop_pod_sandbox_misfiles k sb rest time e)
        (refl, misfiled_there sb, not-IsConsistent-misfiled sb)

  -- On a sound runtime, `CreateContainer` of a request without an image, in a named sandbox that
  -- exists and with a new identifier, panics as soon as any image was pulled.
  pub create_container_no_image :
      (req : CreateContainerRequest) (k : String) (img : Image) (rest : Dict Image)
      → req.pod_sandbox_id ≢ ""
      → (get_config req).image ≡ none
      → lookup req.pod_sandbox_id r.store.sandboxes ≢ none
      → lookup (container_id env clock req) r.store.containers ≡ none
      → r.store.images ≡ (k, img) ∷ rest
      → create_container env clock req r ≡ (panic, r)
  unfolding create_container
  create_container_no_image req k img rest named absent there free pulled = ground (
    arith,
    eq_iff req.pod_sandbox_id "",
    get_sandbox-eq-lookup env req.pod_sandbox_id r.store named sound.consistent.sandboxes,
    get_image_unnamed r.store k img rest pulled,
    get_container-eq-lookup env (container_id env clock req) r.store
        (container_id-ne-empty env clock req) sound.consistent.containers,
  )
