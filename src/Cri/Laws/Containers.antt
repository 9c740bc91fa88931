-- ===== src/Cri/Laws/Containers.antt =====
-- `StartContainer`, `StopContainer` and `RemoveContainer` of pkg/cri/cri.go, on every branch.
use runkube.Common.{
  ℕ, ◌+◌, ◌≡◌, refl, ◌≢◌, ◌⊎◌, inl, inr, String, Option, none, some, arith, eq_iff, is_some,
  Option-cases, lookup, insert, remove, lookup-Entries, lookup-insert, ◌==◌, if◌then◌else◌, ◌∙◌,
}
use runkube.Cri.Objects.{
  ContainerState, container_running, container_exited, ContainerStatus, Externals,
}
use runkube.Cri.Objects
use runkube.Cri.Model.{Container, Store, remove_container}
use runkube.Cri.Model.Lookup.{get_container-eq-lookup}
use runkube.Cri.Runtime.{Runtime}
use runkube.Cri.Service.{not_found, Reply, ok, err}
use runkube.Cri.Consistent.{IsConsistent, ContainerAgrees-parts}
use runkube.Cri.Containers.{
  make_running, make_exited, start_container, stop_container, remove_container_handler,
}
use runkube.Cri.Transitions.{running, exited, make_running_lem, make_exited_lem}
use runkube.Cri.Exits.{placed}
use runkube.Cri.Sound.{IsSound, HasTime, with_store, after_wait, await_lem}

pub container_parts :
    (st : Store)
    → IsConsistent st
    → (scid : String) (c : Container) → lookup scid st.containers ≡ some c
    → (p : Objects.Container) × (s : ContainerStatus) × (c.p ≡ some p)
      × (c.s ≡ some s)
      × (scid ≢ "")
      × (p.id ≡ scid)
      × (s.id ≡ scid)
      × (s.state ≡ p.state)
container_parts st well scid c e =
    ContainerAgrees-parts scid c.p c.s (lookup-Entries _ scid c st.containers e well.containers)

-- A container that stays in its sandbox and goes to a state.
abbrev pub moved :
    ContainerState → Option (String × ContainerState) → Option (String × ContainerState)
moved to none = none
moved to (some (pod, state)) = some (pod, to)

-- What a call that moves a container to a state comes to.
abbrev pub Move : ContainerState → String → Runtime → Reply (Unit {0}) × Runtime → Type 0
Move to scid r out =
    ((lookup scid r.store.containers ≡ none) × (out ≡ (err not_found, r)))
    ⊎ ((lookup scid r.store.containers ≢ none)
        × (out.0 ≡ ok tt)
        × ((k : String)
            → placed (lookup k out.1.store.containers) ≡ (
                if scid == k
                then moved to (placed (lookup k r.store.containers))
                else placed (lookup k r.store.containers)))
        × (out.1.store.sandboxes ≡ r.store.sandboxes)
        × (out.1.store.images ≡ r.store.images)
        × (out.1.seq ≡ r.seq + 10))

abbrev pub put_container : String → Container → Store → Store
put_container scid c st = record st { containers = insert scid c st.containers }

module _ (env : Externals) (clock : ℕ → ℕ) (r : Runtime) (sound : IsSound r) where
  pub start_container_found :
      (scid : String) (c : Container)
      → scid ≢ ""
      → HasTime r
      → lookup scid r.store.containers ≡ some c
      → start_container env clock scid r
        ≡ (ok tt, after_wait (put_container scid (running (clock 0) c) r.store) r)
  unfolding start_container
  start_container_found scid c ne time e = ground (
    arith,
    get_container-eq-lookup env scid r.store ne sound.consistent.containers,
    await_lem r clock (make_running env scid) (put_container scid (running (clock 0) c) r.store)
        sound.idle time (make_running_lem env clock r.store sound.consistent scid c e),
  )

  pub stop_container_found :
      (scid : String) (c : Container)
      → scid ≢ ""
      → HasTime r
      → lookup scid r.store.containers ≡ some c
      → stop_container env clock scid r
        ≡ (ok tt, after_wait (put_container scid (exited (clock 0) c) r.store) r)
  unfolding stop_container
  stop_container_found scid c ne time e = ground (
    arith,
    get_container-eq-lookup env scid r.store ne sound.consistent.containers,
    await_lem r clock (make_exited env scid) (put_container scid (exited (clock 0) c) r.store)
        sound.idle time (make_exited_lem env clock r.store sound.consistent scid c e),
  )

  pub missing_container :
      (scid : String)
      → scid ≢ ""
      → lookup scid r.store.containers ≡ none
      → (start_container env clock scid r ≡ (err not_found, r))
        × (stop_container env clock scid r ≡ (err not_found, r))
        × (remove_container_handler env scid r ≡ (err not_found, r))
  unfolding start_container stop_container remove_container_handler
  missing_container scid ne e =
      let absent = get_container-eq-lookup env scid r.store ne sound.consistent.containers ∙ e in
      (ground arith, ground arith, ground arith)

  -- On a sound runtime with room for ten ticks, `StartContainer` of a nonempty unknown identifier
  -- is refused and changes nothing. With a known one it returns after ten ticks: the container is
  -- RUNNING, whatever its state was, and the place and state of every other container, the
  -- sandboxes and the images are as before (`Move`).
  pub start_container_lem :
      (scid : String)
      → scid ≢ ""
      → HasTime r
      → Move container_running scid r (start_container env clock scid r)
  start_container_lem scid ne time = elim (Option-cases (lookup scid r.store.containers)) [
    | inl e ↦ inl (e, (missing_container scid ne e).0)
    | inr (c, e) ↦
        let (p, s, is_p, _, _, _, _, _) = container_parts r.store sound.consistent scid c e in
        rw (start_container_found scid c ne time e) (
          inr (
            (λ h. cc),
            refl,
            (λ k. ground (
              arith,
              eq_iff scid k,
              lookup-insert scid k (running (clock 0) c) r.store.containers,
            )),
            refl,
            refl,
            refl,
          ))
  ]

  -- On a sound runtime with room for ten ticks, `StopContainer` of a nonempty unknown identifier is
  -- refused and changes nothing. With a known one it returns after ten ticks: the container is
  -- EXITED, whatever its state was, and the place and state of every other container, the sandboxes
  -- and the images are as before (`Move`).
  pub stop_container_lem :
      (scid : String)
      → scid ≢ ""
      → HasTime r
      → Move container_exited scid r (stop_container env clock scid r)
  stop_container_lem scid ne time = elim (Option-cases (lookup scid r.store.containers)) [
    | inl e ↦ inl (e, (missing_container scid ne e).1)
    | inr (c, e) ↦
        let (p, s, is_p, _, _, _, _, _) = container_parts r.store sound.consistent scid c e in
        rw (stop_container_found scid c ne time e) (
          inr (
            (λ h. cc),
            refl,
            (λ k. ground (
              arith,
              eq_iff scid k,
              lookup-insert scid k (exited (clock 0) c) r.store.containers,
            )),
            refl,
            refl,
            refl,
          ))
  ]

  -- On a sound runtime, `RemoveContainer` of a nonempty unknown identifier is refused and changes
  -- nothing. A known container is gone afterwards, in whatever state it was, and all else is as
  -- before.
  pub remove_container_lem :
      (scid : String)
      → scid ≢ ""
      → remove_container_handler env scid r ≡ (
          if is_some (lookup scid r.store.containers)
          then (
            ok tt,
            with_store (record (r.store) { containers = remove scid r.store.containers }) r,
          )
          else (err not_found, r))
  unfolding remove_container_handler remove_container
  remove_container_lem scid ne =
      ground (arith, get_container-eq-lookup env scid r.store ne sound.consistent.containers)
