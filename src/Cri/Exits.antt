-- ===== src/Cri/Exits.antt =====
-- The containers of a stopped sandbox, entry by entry.
use runkube.Common.{
  ℕ, suc, ◌≡◌, refl, String, Option, none, some, [], ◌∷◌, arith, lookup, Dict, Distinct, ◌==◌,
  if◌then◌else◌,
}
use runkube.Cri.Objects.{ContainerState, container_exited}
use runkube.Cri.Model.{Sandbox, Container, Store}
use runkube.Cri.Model.Lookup.{ContainerAgrees, ContainersAgree}
use runkube.Cri.Consistent.{IsConsistent, AllHoused}
use runkube.Cri.Transitions.{has_sandbox, exited, exit_all}

-- A container's sandbox and state, as `ListContainers` reports them.
abbrev pub placed : Option Container → Option (String × ContainerState)
placed none = none
placed (some c) = elim c.p [ none ↦ none | some p ↦ some (p.pod_sandbox_id, p.state) ]

-- What stopping a sandbox does to that.
abbrev pub exit_placed :
    String → Option (String × ContainerState) → Option (String × ContainerState)
exit_placed sbid none = none
exit_placed sbid (some (pod, state)) = some (pod, (if pod == sbid then container_exited else state))

exited-Agrees :
    (now : ℕ) (sbid k : String) (c : Container)
    → ContainerAgrees k c.p c.s
    → let c' : Container = if has_sandbox sbid c.p then exited now c else c in
      ContainerAgrees k c'.p c'.s
exited-Agrees now sbid k c a = ground arith

module _ (clock : ℕ → ℕ) (sbid : String) where
  pub exit_all-Agree :
      (i : ℕ) (m : Dict Container) → ContainersAgree m → ContainersAgree (exit_all clock i sbid m)
  unfolding exit_all
  exit_all-Agree i [] h = tt
  exit_all-Agree i ((k, c) ∷ m) h =
      (exited-Agrees (clock i) sbid k c h.0, exit_all-Agree (suc i) m h.1)

  pub lookup-exit_all-none :
      (i : ℕ) (k : String) (m : Dict Container)
      → lookup k m ≡ none
      → lookup k (exit_all clock i sbid m) ≡ none
  unfolding exit_all lookup
  lookup-exit_all-none i k [] e = refl
  lookup-exit_all-none i k ((j, c) ∷ m) e = ground (arith, lookup-exit_all-none (suc i) k m)

  pub exit_all-Distinct :
      (i : ℕ) (m : Dict Container) → Distinct m → Distinct (exit_all clock i sbid m)
  unfolding exit_all
  exit_all-Distinct i [] d = tt
  exit_all-Distinct i ((k, c) ∷ m) d =
      (lookup-exit_all-none (suc i) k m d.0, exit_all-Distinct (suc i) m d.1)

  pub exit_all-AllHoused :
      (i : ℕ) (sandboxes : Dict Sandbox) (m : Dict Container)
      → AllHoused sandboxes m
      → AllHoused sandboxes (exit_all clock i sbid m)
  unfolding exit_all
  exit_all-AllHoused i sandboxes [] h = tt
  exit_all-AllHoused i sandboxes ((k, c) ∷ m) h =
      (ground arith, exit_all-AllHoused (suc i) sandboxes m h.1)

  -- Every container of the sandbox is EXITED, every other one is as it was.
  pub placed-exit_all :
      (i : ℕ) (k : String) (m : Dict Container)
      → placed (lookup k (exit_all clock i sbid m)) ≡ exit_placed sbid (placed (lookup k m))
  unfolding exit_all lookup
  placed-exit_all i k [] = refl
  placed-exit_all i k ((j, c) ∷ m) = ground (arith, placed-exit_all (suc i) k m)

  pub exit_all-IsConsistent :
      (st : Store)
      → IsConsistent st
      → IsConsistent (record st { containers = exit_all clock 0 sbid st.containers })
  exit_all-IsConsistent st ok = record {
    sandboxes = ok.sandboxes;
    containers = exit_all-Agree 0 st.containers ok.containers;
    images = ok.images;
    one_sandbox = ok.one_sandbox;
    one_container = exit_all-Distinct 0 st.containers ok.one_container;
    housed = exit_all-AllHoused 0 st.sandboxes st.containers ok.housed;
  }
