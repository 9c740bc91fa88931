-- ===== src/Cri/Laws/Remove.antt =====
-- `RemovePodSandbox` of pkg/cri/cri.go, on every branch.
use runkube.Common.{
  ◌≡◌, refl, ◌≢◌, ◌⊎◌, inl, inr, String, Bool, true, false, Option, none, some, [], ◌∷◌, arith,
  eq_iff, Bool-cases, Option-cases, lookup, remove, values, Dict, Distinct, lookup-remove, ◌==◌,
  ◌||◌, if◌then◌else◌, ◌∙◌,
}
use runkube.Cri.Objects.{ContainerState, Externals}
use runkube.Cri.Objects
use runkube.Cri.Model.{Sandbox, Container, Store, remove_sandbox}
use runkube.Cri.Model.Lookup.{ContainersAgree, get_sandbox-eq-lookup}
use runkube.Cri.Runtime.{Runtime}
use runkube.Cri.Service.{invalid_argument, not_found, Reply, ok, err}
use runkube.Cri.Consistent.{IsHoused, AllHoused, ContainerAgrees-parts}
use runkube.Cri.Sandboxes.{has_containers, remove_pod_sandbox}
use runkube.Cri.Transitions.{has_sandbox, list_containers_all}
use runkube.Cri.Exits.{placed}
use runkube.Cri.Sound.{IsSound, with_store}

-- Whether a container of the map is in the sandbox.
abbrev pub is_used : String → Dict Container → Bool
is_used sbid [] = false
is_used sbid ((k, c) ∷ m) = has_sandbox sbid c.p || is_used sbid m

has_containers_lem :
    (sbid : String) (m : Dict Container)
    → ContainersAgree m
    → has_containers sbid (values m) ≡ some (is_used sbid m)
unfolding has_containers
has_containers_lem sbid [] a = refl
has_containers_lem sbid ((k, c) ∷ m) a =
    let (p, s, is_p, _, _, _, _, _) = ContainerAgrees-parts k c.p c.s a.0 in
    ground (arith, has_containers_lem sbid m a.1)

used_by :
    (sbid : String) (m : Dict Container)
    → ContainersAgree m
    → Distinct m
    → is_used sbid m ≡ true
    → (cid : String) × (state : ContainerState) × (placed (lookup cid m) ≡ some (sbid, state))
unfolding lookup
used_by sbid [] a d h = cc
used_by sbid ((k, c) ∷ m) a d h =
    let (p, s, is_p, _, _, _, _, _) = ContainerAgrees-parts k c.p c.s a.0 in
    elim (Bool-cases (p.pod_sandbox_id == sbid)) [
      | inl here ↦ (k, p.state, ground (arith, eq_iff k k, eq_iff p.pod_sandbox_id sbid))
      | inr elsewhere ↦
          let (cid, state, e) = used_by sbid m a.1 d.1 (ground arith) in
          (cid, state, ground (arith, eq_iff k cid))
    ]

unused :
    (sbid : String) (m : Dict Container)
    → is_used sbid m ≡ false
    → (cid : String) (state : ContainerState) → placed (lookup cid m) ≢ some (sbid, state)
unfolding lookup
unused sbid [] h cid state = λ e. cc
unused sbid ((k, c) ∷ m) h cid state =
    ground (arith, unused sbid m (ground arith) cid state, eq_iff sbid sbid)

pub unused-AllHoused :
    (sbid : String) (sandboxes : Dict Sandbox) (m : Dict Container)
    → is_used sbid m ≡ false
    → AllHoused sandboxes m
    → AllHoused (remove sbid sandboxes) m
unused-AllHoused sbid sandboxes [] h a = tt
unused-AllHoused sbid sandboxes ((k, c) ∷ m) h a =
    (go c.p (ground arith) a.0, unused-AllHoused sbid sandboxes m (ground arith) a.1)
  where
    go :
        (p : Option Objects.Container)
        → has_sandbox sbid p ≡ false
        → IsHoused sandboxes p
        → IsHoused (remove sbid sandboxes) p
    go none e h = h
    go (some p) e h = ground (
      arith,
      lookup-remove sbid p.pod_sandbox_id sandboxes,
      eq_iff sbid p.pod_sandbox_id,
      eq_iff p.pod_sandbox_id sbid,
    )

abbrev pub without_sandbox : String → Store → Store
without_sandbox sbid st = record st { sandboxes = remove sbid st.sandboxes }

-- What a removal by a nonempty identifier comes to.
abbrev pub Removal : String → Runtime → Reply (Unit {0}) × Runtime → Type 0
Removal sbid r out =
    ((lookup sbid r.store.sandboxes ≡ none) × (out ≡ (err not_found, r)))
    ⊎ (((cid : String) × (state : ContainerState) × (placed (lookup cid r.store.containers)
            ≡ some (sbid, state)))
        × (out ≡ (err invalid_argument, r)))
    ⊎ (((cid : String) (state : ContainerState)
          → placed (lookup cid r.store.containers) ≢ some (sbid, state))
        × (out.0 ≡ ok tt)
        × ((k : String)
            → lookup k out.1.store.sandboxes
              ≡ (if sbid == k then none else lookup k r.store.sandboxes))
        × (out.1.store.containers ≡ r.store.containers)
        × (out.1.store.images ≡ r.store.images))

module _ (env : Externals) (r : Runtime) (sound : IsSound r) where
  -- All branches of the handler in one equation.
  pub remove_pod_sandbox_cases :
      (sbid : String)
      → sbid ≢ ""
      → remove_pod_sandbox env sbid r ≡ elim (lookup sbid r.store.sandboxes) [
        | none ↦ (err not_found, r)
        | some sb ↦
            if is_used sbid r.store.containers
            then (err invalid_argument, r)
            else (ok tt, with_store (without_sandbox sbid r.store) r)
      ]
  unfolding remove_pod_sandbox remove_sandbox
  remove_pod_sandbox_cases sbid ne = ground (
    arith,
    eq_iff sbid "",
    get_sandbox-eq-lookup env sbid r.store ne sound.consistent.sandboxes,
    list_containers_all env r.store,
    has_containers_lem sbid r.store.containers sound.consistent.containers,
  )

  remove_named : (sbid : String) → sbid ≢ "" → Removal sbid r (remove_pod_sandbox env sbid r)
  remove_named sbid ne = elim (Option-cases (lookup sbid r.store.sandboxes)) [
    | inl gone ↦ inl (gone, remove_pod_sandbox_cases sbid ne ∙ rw gone)
    | inr (sb, there) ↦ elim (Bool-cases (is_used sbid r.store.containers)) [
      | inl used ↦ inr (
          inl (
            used_by sbid r.store.containers sound.consistent.containers
                sound.consistent.one_container used,
            remove_pod_sandbox_cases sbid ne ∙ rw (there, used),
          ))
      | inr free ↦
          let same : remove_pod_sandbox env sbid r
              ≡ (ok tt, with_store (without_sandbox sbid r.store) r) =
            remove_pod_sandbox_cases sbid ne ∙ rw (there, free) in
          rw same (
            inr (
              inr (
                unused sbid r.store.containers free,
                refl,
                (λ k. lookup-remove sbid k r.store.sandboxes),
                refl,
                refl,
              )))
    ]
  ]

  -- On a sound runtime, `RemovePodSandbox` refuses the empty identifier, an unknown sandbox, and
  -- one in which a container is left, and then changes nothing. Otherwise no container was in the
  -- sandbox, which is gone, and every other sandbox, the containers and the images are as before
  -- (`Removal`).
  pub remove_pod_sandbox_lem :
      (sbid : String)
      → ((sbid ≡ "") × (remove_pod_sandbox env sbid r ≡ (err invalid_argument, r)))
        ⊎ Removal sbid r (remove_pod_sandbox env sbid r)
  unfolding remove_pod_sandbox
  remove_pod_sandbox_lem sbid = elim (Bool-cases (sbid == "")) [
    | inl e ↦ inl ((eq_iff sbid "").0 e, ground arith)
    | inr e ↦ inr (remove_named sbid (λ h. ground (arith, eq_iff sbid "")))
  ]
