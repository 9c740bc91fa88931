-- ===== src/Cri/Laws/States.antt =====
-- A sandbox of well-formed maps, and the state that is reported of it.
use runkube.Common.{
  ◌≡◌, ◌≢◌, String, Option, none, some, arith, lookup, insert, Dict, lookup-insert, lookup-Entries,
  ◌==◌, if◌then◌else◌,
}
use runkube.Cri.Objects.{
  PodSandboxState, sandbox_ready, sandbox_notready, ContainerState, Externals,
}
use runkube.Cri.Objects
use runkube.Cri.Model.{Sandbox, Store}
use runkube.Cri.Consistent.{IsConsistent, SandboxAgrees-parts}
use runkube.Cri.Transitions.{with_sandbox_state}

-- The state that `ListPodSandbox` reports.
abbrev pub sandbox_state : Option Sandbox → Option PodSandboxState
sandbox_state none = none
sandbox_state (some sb) = elim sb.p [ none ↦ none | some p ↦ some p.state ]

pub sandbox_parts :
    (st : Store)
    → IsConsistent st
    → (sbid : String) (sb : Sandbox) → lookup sbid st.sandboxes ≡ some sb
    → (p : Objects.PodSandbox) × (s : Objects.PodSandboxStatus) × (sb.p ≡ some p)
      × (sb.s ≡ some s)
      × (sbid ≢ "")
      × (p.id ≡ sbid)
      × (s.id ≡ sbid)
      × (s.state ≡ p.state)
sandbox_parts st well sbid sb e =
    SandboxAgrees-parts sbid sb.p sb.s (lookup-Entries _ sbid sb st.sandboxes e well.sandboxes)

pub sandbox_state-insert :
    (k sbid : String) (to : PodSandboxState) (sb : Sandbox) (p : Objects.PodSandbox)
    (m : Dict Sandbox)
    → sb.p ≡ some p
    → sandbox_state (lookup k (insert sbid (with_sandbox_state to sb) m))
      ≡ (if sbid == k then some to else sandbox_state (lookup k m))
sandbox_state-insert k sbid to sb p m e =
    ground (arith, lookup-insert sbid k (with_sandbox_state to sb) m)
