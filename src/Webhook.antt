-- ===== src/Webhook.antt =====
-- webhook.go: the built-in authorizer; pkg/webhook/webhook.go: the handlers around the webhooks.
use runkube.Common.{
  ℕ, suc, ◌+◌, ◌-◌, ◌≡◌, String, Bool, true, false, not, ◌&&◌, ◌||◌, Option, none, some, List, [],
  ◌∷◌, ◌++◌, contains, ◌==◌, if◌then◌else◌,
}
pub mod Decisions
pub mod Names
pub mod Handlers
pub mod Tests
use text.Mathlib.Text.{starts_with}
use Prim.Native.String.{slice, len}

pub record ResourceAttributes : Type 0 where
  pub verb : String
  pub group : String
  pub version : String
  pub resource : String
  pub subresource : String
  pub namespace : String
  pub name : String

pub record SubjectAccessReviewSpec : Type 0 where
  pub user : String
  pub groups : List String
  pub resource_attributes : Option ResourceAttributes

pub record SubjectAccessReviewStatus : Type 0 where
  pub allowed : Bool
  pub denied : Bool
  pub reason : String

-- The tests of the loop, and `allowed = !mismatched` after it.
unfoldable pub reads_authentication_config : ResourceAttributes → List Bool
reads_authentication_config r =
    (r.verb == "get" || (r.verb == "watch" || r.verb == "list"))
    ∷ (r.name == "extension-apiserver-authentication")
    ∷ (r.resource == "configmaps")
    ∷ (r.group == "")
    ∷ (r.subresource == "")
    ∷ []

unfoldable pub is_mismatched : List Bool → Bool
is_mismatched [] = false
is_mismatched (m ∷ rest) = not m || is_mismatched rest

unfoldable pub allows_resource : Option ResourceAttributes → Bool
unfolding reads_authentication_config is_mismatched
allows_resource none = false
allows_resource (some r) = not (is_mismatched (reads_authentication_config r))

unfoldable pub is_allowed : SubjectAccessReviewSpec → Bool
is_allowed spec =
    if spec.user == "system:apiserver"
    then contains spec.groups "system:masters"
    else if spec.user == "system:controller-manager-authnz"
        || spec.user == "system:scheduler-authnz"
    then allows_resource spec.resource_attributes
    else false

unfoldable pub builtin_authorizer : SubjectAccessReviewSpec → SubjectAccessReviewStatus
unfolding is_allowed
builtin_authorizer spec = record {
  allowed = is_allowed spec;
  denied = false;
  reason = "by-builtin";
}

-- `strings.CutPrefix`, with none for false.
unfoldable pub cut_prefix : String → String → Option String
cut_prefix s prefix = if starts_with s prefix then some (slice s (len prefix) (len s)) else none

pub record UserInfo : Type 0 where
  pub username : String
  pub groups : List String

-- The last two tests of `userInfoLogValue`, on what follows "system:".
unfoldable pub is_prefixed_member : List String → String → String → String → Bool
unfolding cut_prefix
is_prefixed_member groups p prefix group = elim (cut_prefix p prefix) [
  | none ↦ false
  | some n ↦ not (n == "") && contains groups group
]

unfoldable pub is_known_system : List String → String → Bool
unfolding is_prefixed_member
is_known_system groups p =
    (p == "apiserver" && contains groups "system:masters")
    || ((p == "kube-scheduler" || p == "kube-controller-manager")
        || (is_prefixed_member groups p "node:" "system:nodes"
            || is_prefixed_member groups p "serviceaccount:" "system:serviceaccounts"))

-- `userInfoLogValue`: the name where it is trusted, else none for the whole `String()`.
unfoldable pub user_info_log_value : UserInfo → Option String
unfolding cut_prefix is_known_system
user_info_log_value a = elim (cut_prefix a.username "system:") [
  | none ↦ none
  | some p ↦ if not (p == "") && is_known_system a.groups p then some a.username else none
]

pub data SarResult : Type 0 where
  sar_allowed sar_denied sar_no_opinion sar_invalid : SarResult

-- The second `switch` of `sarLogValue`.
unfoldable pub sar_result : SubjectAccessReviewStatus → SarResult
sar_result st =
    if st.denied && not st.allowed
    then sar_denied
    else if st.allowed && not st.denied
    then sar_allowed
    else if not st.allowed && not st.denied
    then sar_no_opinion
    else sar_invalid
