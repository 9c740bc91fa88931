-- ===== src/Webhook/Tests.antt =====
-- The theorems on the webhooks at concrete requests.
use runkube.Common.{
  String, ◌≢◌, ℕ, not, eqb, All, ◌⊎◌, ◌≡◌, refl, ◌↔◌, Bool, true, false, Option, none, some, List,
  [], ◌∷◌, if◌then◌else◌,
}
use runkube.Webhook.{
  SubjectAccessReviewStatus, UserInfo, SubjectAccessReviewSpec, reads_authentication_config,
  is_mismatched, allows_resource, is_allowed, builtin_authorizer, sar_allowed, sar_no_opinion,
  sar_result, cut_prefix, is_known_system, is_prefixed_member, user_info_log_value,
}
use runkube.Webhook.Names.{IsTrusted, user_info_log_value_lem}
use runkube.Webhook.Decisions.{IsAllowed, builtin_authorizer_lem}
use runkube.Webhook.Handlers.{
  ResponseWriter, text, api_status, serve_authorizer, new_response, review, write_header,
  write_status, encode, sent, panic, AdmissionRequest, AdmissionResponse, AdmissionReview,
  serve_admitter, audit_each, serve_auditor,
}
use runkube.Webhook.Handlers.Statuses.{
  serve_authorizer_lem, Passes, Stopped, serve_admitter_lem, serve_auditor_lem,
}

abbrev config_read : SubjectAccessReviewSpec
config_read = record {
  user = "system:scheduler-authnz";
  groups = [];
  resource_attributes = some (record {
    verb = "get";
    group = "";
    version = "v1";
    resource = "configmaps";
    subresource = "";
    namespace = "kube-system";
    name = "extension-apiserver-authentication";
  });
}

reads_config : (builtin_authorizer config_read).allowed ≡ true
unfolding builtin_authorizer is_allowed allows_resource is_mismatched reads_authentication_config
reads_config = refl

-- A node is named if it is in its group.
node_named :
    (user_info_log_value (record { username = "system:node:a"; groups = "system:nodes" ∷ [] })
      ≡ some "system:node:a")
    × (user_info_log_value (record { username = "system:node:a"; groups = [] }) ≡ none)
unfolding user_info_log_value cut_prefix is_known_system is_prefixed_member
node_named = (refl, refl)

builtin_authorizer_lem_example :
    let st = builtin_authorizer config_read in
    (st.denied ≡ false)
    × ((st.allowed ≡ true) ↔ IsAllowed config_read)
    × (sar_result st ≡ (if st.allowed then sar_allowed else sar_no_opinion))
builtin_authorizer_lem_example = builtin_authorizer_lem config_read

abbrev refuses_second : ℕ → Bool
refuses_second ev = not (eqb ev 2)

serve_auditor_lem_run :
    let out = serve_auditor refuses_second (some (1 ∷ 2 ∷ 3 ∷ [])) in
    (All (Passes refuses_second) (1 ∷ 2 ∷ 3 ∷ [])
      × (out ≡ (1 ∷ 2 ∷ 3 ∷ [], sent (write_header 200 new_response))))
    ⊎ ((seen : List ℕ) × Stopped refuses_second (1 ∷ 2 ∷ 3 ∷ []) seen
        × (out ≡ (seen, sent (write_status 400 new_response))))
serve_auditor_lem_run = serve_auditor_lem refuses_second (1 ∷ 2 ∷ 3 ∷ [])

audit_stops : (serve_auditor refuses_second (some (1 ∷ 2 ∷ 3 ∷ []))).0 ≡ 1 ∷ 2 ∷ []
unfolding serve_auditor audit_each
audit_stops = refl

-- An admitter that answers under its own UID, and one that fails.
abbrev own_uid : AdmissionRequest → Option AdmissionResponse
own_uid req = some (record { uid = "mine"; allowed = true })

abbrev pod_request : AdmissionRequest
pod_request = record { uid = "u1"; operation = "CREATE" }

abbrev asked : AdmissionReview
asked = record { request = some pod_request; response = none }

serve_admitter_lem_run :
    ((own_uid pod_request ≡ none) × (serve_admitter own_uid (some asked) ≡ panic))
    ⊎ ((response : AdmissionResponse) × (own_uid pod_request ≡ some response)
        × (serve_admitter own_uid (some asked)
            ≡ sent
                (encode (review (record { uid = "u1"; allowed = response.allowed })) new_response)))
serve_admitter_lem_run = serve_admitter_lem own_uid pod_request

abbrev node_user : UserInfo
node_user = record { username = "system:node:a"; groups = "system:nodes" ∷ [] }

node_user_shown : user_info_log_value node_user ≡ some "system:node:a"
unfolding user_info_log_value cut_prefix is_known_system is_prefixed_member
node_user_shown = refl

user_info_log_value_lem_run :
    ("system:node:a" ≡ node_user.username)
    × ((p : String) × (cut_prefix node_user.username "system:" ≡ some p)
        × (p ≢ "")
        × IsTrusted node_user.groups p)
user_info_log_value_lem_run = user_info_log_value_lem node_user "system:node:a" node_user_shown

abbrev fails_always : SubjectAccessReviewSpec → Option SubjectAccessReviewStatus
fails_always spec = none

serve_authorizer_lem_run :
    (w : ResponseWriter SubjectAccessReviewStatus) × (serve_authorizer fails_always
        (some config_read)
      ≡ sent w)
    × (((spec : SubjectAccessReviewSpec) × (st : SubjectAccessReviewStatus) × (some config_read
            ≡ some spec)
          × (fails_always spec ≡ some st)
          × (w.code ≡ some 200)
          × (w.is_json ≡ true)
          × (w.body ≡ review st))
        ⊎ ((some config_read ≡ none) × (w.code ≡ some 400) × (w.is_json ≡ false) × (w.body ≡ text))
        ⊎ ((spec : SubjectAccessReviewSpec) × (some config_read ≡ some spec)
            × (fails_always spec ≡ none)
            × (w.code ≡ some 500)
            × (w.is_json ≡ false)
            × (w.body ≡ api_status 500)))
serve_authorizer_lem_run = serve_authorizer_lem fails_always (some config_read)
