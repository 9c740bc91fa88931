-- ===== src/Cri/Transitions.antt =====
-- What the enqueued callbacks of pkg/cri/cri.go do to well-formed maps.
use runkube.Common.{
  ℕ, suc, ◌≡◌, refl, sym, ap, ◌∙◌, String, Bool, false, Option, none, some, [], ◌∷◌, ◌++◌, arith,
  lookup, insert, values, select_all, Dict, lookup-Entries, Distinct, insert-Distinct,
  Distinct-before, insert-append_middle, ◌==◌, if◌then◌else◌, subst,
}
use mathlib.Core.List.{append_assoc}
use runkube.Cri.Objects.{
  PodSandboxState, sandbox_ready, sandbox_notready, ContainerState, container_running,
  container_exited, PodSandbox, PodSandboxStatus, ContainerStatus, Externals,
}
use runkube.Cri.Objects
use runkube.Cri.Model.{
  Sandbox, Container, Store, map_option, update_sandbox, update_container, container_matches,
  list_containers,
}
use runkube.Cri.Model.Lookup.{
  SandboxAgrees, ContainerAgrees, ContainersAgree, get_sandbox-eq-lookup, get_container-eq-lookup,
}
use runkube.Cri.Consistent.{IsConsistent, SandboxAgrees-parts, ContainerAgrees-parts}
use runkube.Cri.Sandboxes.{make_ready, exit_container, exit_containers, make_notready, stop_sandbox}
use runkube.Cri.Containers.{make_running, make_exited}

-- A sandbox in another state.
abbrev pub with_sandbox_state : PodSandboxState → Sandbox → Sandbox
with_sandbox_state to sb = record sb {
  p = map_option {A = PodSandbox} (λ p. record p { state = to }) sb.p;
  s = map_option {A = PodSandboxStatus} (λ s. record s { state = to }) sb.s;
}

abbrev pub to_state : ContainerState → Option Objects.Container → Option Objects.Container
to_state to = map_option {A = Objects.Container} λ p. record p { state = to }

abbrev pub running : ℕ → Container → Container
running now c = record c {
  p = to_state container_running c.p;
  s =
      map_option {A = ContainerStatus}
        (λ s. record s { state = container_running; started_at = now }) c.s;
}

abbrev pub exited : ℕ → Container → Container
exited now c = record c {
  p = to_state container_exited c.p;
  s =
      map_option {A = ContainerStatus}
        (λ s. record s { state = container_exited; finished_at = now }) c.s;
}

abbrev pub has_sandbox : String → Option Objects.Container → Bool
has_sandbox sbid none = false
has_sandbox sbid (some p) = p.pod_sandbox_id == sbid

-- Every container of the sandbox exits; the others stay.
unfoldable pub exit_all : (ℕ → ℕ) → ℕ → String → Dict Container → Dict Container
exit_all clock i sbid [] = []
exit_all clock i sbid ((k, c) ∷ m) =
    (k, (if has_sandbox sbid c.p then exited (clock i) c else c)) ∷ exit_all clock (suc i) sbid m

module _ (env : Externals) (clock : ℕ → ℕ) (st : Store) (ok : IsConsistent st) where
  pub make_ready_lem :
      (sbid : String) (sb : Sandbox)
      → lookup sbid st.sandboxes ≡ some sb
      → make_ready env sbid clock st
        ≡ some (record st {
          sandboxes = insert sbid (with_sandbox_state sandbox_ready sb) st.sandboxes;
        })
  unfolding make_ready update_sandbox
  make_ready_lem sbid sb e =
      let a : SandboxAgrees sbid sb.p sb.s = lookup-Entries _ sbid sb st.sandboxes e ok.sandboxes in
      let (p, s, is_p, is_s, ne, _, _, _) = SandboxAgrees-parts sbid sb.p sb.s a in
      ground (arith, get_sandbox-eq-lookup env sbid st ne ok.sandboxes)

  pub make_notready_lem :
      (sbid : String) (sb : Sandbox)
      → lookup sbid st.sandboxes ≡ some sb
      → make_notready env sbid st
        ≡ some (record st {
          sandboxes = insert sbid (with_sandbox_state sandbox_notready sb) st.sandboxes;
        })
  unfolding make_notready update_sandbox
  make_notready_lem sbid sb e =
      let a : SandboxAgrees sbid sb.p sb.s = lookup-Entries _ sbid sb st.sandboxes e ok.sandboxes in
      let (p, s, is_p, is_s, ne, _, _, _) = SandboxAgrees-parts sbid sb.p sb.s a in
      ground (arith, get_sandbox-eq-lookup env sbid st ne ok.sandboxes)

  pub make_running_lem :
      (scid : String) (c : Container)
      → lookup scid st.containers ≡ some c
      → make_running env scid clock st
        ≡ some (record st { containers = insert scid (running (clock 0) c) st.containers })
  unfolding make_running update_container
  make_running_lem scid c e =
      let a : ContainerAgrees scid c.p c.s =
        lookup-Entries _ scid c st.containers e ok.containers in
      let (p, s, is_p, is_s, ne, _, _, _) = ContainerAgrees-parts scid c.p c.s a in
      ground (arith, get_container-eq-lookup env scid st ne ok.containers)

  pub make_exited_lem :
      (scid : String) (c : Container)
      → lookup scid st.containers ≡ some c
      → make_exited env scid clock st
        ≡ some (record st { containers = insert scid (exited (clock 0) c) st.containers })
  unfolding make_exited update_container
  make_exited_lem scid c e =
      let a : ContainerAgrees scid c.p c.s =
        lookup-Entries _ scid c st.containers e ok.containers in
      let (p, s, is_p, is_s, ne, _, _, _) = ContainerAgrees-parts scid c.p c.s a in
      ground (arith, get_container-eq-lookup env scid st ne ok.containers)

-- `ListContainers(nil)` lists every container.
pub list_containers_all :
    (env : Externals) (st : Store) → list_containers env none st ≡ values st.containers
unfolding list_containers container_matches
list_containers_all env st = select_all (values st.containers)

module _ (clock : ℕ → ℕ) (sbid : String) where
  exit_container_middle :
      (i : ℕ) (st : Store) (k : String) (c : Container) (before after : Dict Container)
      → st.containers ≡ before ++ ((k, c) ∷ after)
      → ContainerAgrees k c.p c.s
      → lookup k before ≡ none
      → exit_container (clock i) sbid c st
        ≡ some (record st {
          containers =
              before ++ ((k, (if has_sandbox sbid c.p then exited (clock i) c else c)) ∷ after);
        })
  unfolding exit_container update_container
  exit_container_middle i st k c before after e a free =
      let (p, s, is_p, is_s, ne, same, _, _) = ContainerAgrees-parts k c.p c.s a in
      ground (arith, insert-append_middle k c (exited (clock i) c) before after free)

  -- The loop over a snapshot of the map updates each entry in place.
  pub exit_containers_lem :
      (i : ℕ) (st : Store) (before m : Dict Container)
      → st.containers ≡ before ++ m
      → ContainersAgree m
      → Distinct st.containers
      → exit_containers clock i sbid (values m) st
        ≡ some (record st { containers = before ++ exit_all clock i sbid m })
  unfolding exit_containers exit_all
  exit_containers_lem i st before [] e a d = ap some (λ j. record st { containers = e j })
  exit_containers_lem i st before ((k, c) ∷ m) e a d =
      let c' : Container = if has_sandbox sbid c.p then exited (clock i) c else c in
      let free : lookup k before ≡ none = Distinct-before k c before m (subst Distinct e d) in
      let st' : Store = record st { containers = before ++ ((k, c') ∷ m) } in
      let d' : Distinct st'.containers =
        subst Distinct (insert-append_middle k c c' before m free)
          (insert-Distinct k c' (before ++ ((k, c) ∷ m)) (subst Distinct e d)) in
      rw (exit_container_middle i st k c before m e a.0 free) (
        exit_containers_lem (suc i) st' (before ++ ((k, c') ∷ [])) m
          (sym (append_assoc before ((k, c') ∷ []) m)) a.1 d'
        ∙ ap (λ l. some (record st { containers = l }))
            (append_assoc before ((k, c') ∷ []) (exit_all clock (suc i) sbid m)))

-- What `StopPodSandbox` enqueues: the sandbox becomes NOTREADY and each of its containers exits.
pub stop_sandbox_lem :
    (env : Externals) (clock : ℕ → ℕ) (st : Store) (sbid : String) (sb : Sandbox)
    → IsConsistent st
    → lookup sbid st.sandboxes ≡ some sb
    → stop_sandbox env sbid clock st
      ≡ some (record st {
        sandboxes = insert sbid (with_sandbox_state sandbox_notready sb) st.sandboxes;
        containers = exit_all clock 0 sbid st.containers;
      })
unfolding stop_sandbox
stop_sandbox_lem env clock st sbid sb ok e =
    let st' : Store = record st {
      sandboxes = insert sbid (with_sandbox_state sandbox_notready sb) st.sandboxes;
    } in
    rw (make_notready_lem env clock st ok sbid sb e, list_containers_all env st')
      (exit_containers_lem clock sbid 0 st' [] st.containers refl ok.containers ok.one_container)
