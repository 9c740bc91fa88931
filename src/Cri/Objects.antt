-- ===== src/Cri/Objects.antt =====
-- The CRI messages that pkg/cri and pkg/cri/model read and write, with the fields they use. An
-- absent pointer is `none`; a message is a value, so `proto.Clone` is the identity here.
use runkube.Common.{ℕ, ◌≡◌, ◌↔◌, String, Bool, true, false, Option, none, some, arith, Dict}

-- Label sets and annotations.
abbrev pub Labels : Type 0
Labels = Dict String

pub data PodSandboxState : Type 0 where
  sandbox_ready sandbox_notready : PodSandboxState

pub data ContainerState : Type 0 where
  container_created container_running container_exited container_unknown : ContainerState

abbrev pub sandbox_state_eq : PodSandboxState → PodSandboxState → Bool
sandbox_state_eq sandbox_ready sandbox_ready = true
sandbox_state_eq sandbox_notready sandbox_notready = true
sandbox_state_eq _ _ = false

abbrev pub container_state_eq : ContainerState → ContainerState → Bool
container_state_eq container_created container_created = true
container_state_eq container_running container_running = true
container_state_eq container_exited container_exited = true
container_state_eq container_unknown container_unknown = true
container_state_eq _ _ = false

pub sandbox_state_eq_iff : (a b : PodSandboxState) → (sandbox_state_eq a b ≡ true) ↔ (a ≡ b)
sandbox_state_eq_iff a b = ground arith

pub record PodSandboxMetadata : Type 0 where
  pub name : String
  pub uid : String
  pub namespace : String
  pub attempt : ℕ

pub record PodSandbox : Type 0 where
  pub id : String
  pub metadata : PodSandboxMetadata
  pub state : PodSandboxState
  pub created_at : ℕ
  pub labels : Labels
  pub annotations : Labels
  pub runtime_handler : String

pub record PodSandboxStatus : Type 0 where
  pub id : String
  pub metadata : PodSandboxMetadata
  pub state : PodSandboxState
  pub created_at : ℕ
  pub labels : Labels
  pub annotations : Labels
  pub runtime_handler : String
  pub ip : String

pub record PodSandboxStats : Type 0 where
  pub id : String

pub record ContainerMetadata : Type 0 where
  pub name : String
  pub attempt : ℕ

pub record ImageSpec : Type 0 where
  pub image : String

pub record Container : Type 0 where
  pub id : String
  pub pod_sandbox_id : String
  pub metadata : Option ContainerMetadata
  pub image : Option ImageSpec
  pub image_ref : String
  pub state : ContainerState
  pub created_at : ℕ
  pub labels : Labels
  pub annotations : Labels
  pub image_id : String

pub record ContainerStatus : Type 0 where
  pub id : String
  pub metadata : Option ContainerMetadata
  pub state : ContainerState
  pub created_at : ℕ
  pub started_at : ℕ
  pub finished_at : ℕ
  pub image : Option ImageSpec
  pub image_ref : String
  pub labels : Labels
  pub annotations : Labels
  pub log_path : String

pub record ContainerStats : Type 0 where
  pub id : String

pub record PodSandboxFilter : Type 0 where
  pub id : String
  pub state : Option PodSandboxState
  pub label_selector : Option Labels

pub record ContainerFilter : Type 0 where
  pub id : String
  pub pod_sandbox_id : String
  pub state : Option ContainerState
  pub label_selector : Option Labels

pub record ImageFilter : Type 0 where
  pub image : Option ImageSpec

pub record PodSandboxStatsFilter : Type 0 where
  pub id : String

pub record ContainerStatsFilter : Type 0 where
  pub id : String
  pub pod_sandbox_id : String
  pub label_selector : Option Labels

-- `GetImage` of a possibly nil `ImageSpec`.
abbrev pub get_image_name : Option ImageSpec → String
get_image_name none = ""
get_image_name (some i) = i.image

-- What pkg/cri takes from libraries: the match of a label selector, from apimachinery, and the
-- format of a time that makes identifiers differ.
pub record Externals : Type 0 where
  pub selector_matches : Labels → Labels → Bool
  pub format_time : ℕ → String
