-- ===== src/Webhook/Handlers.antt =====
-- pkg/webhook/webhook.go: the handlers that decode a review, ask the webhook and encode its answer.
-- Bodies are decoded by Kubernetes, so a handler takes the decoded review, none where that fails.
use runkube.Common.{
  ℕ, ◌≡◌, String, Bool, true, false, Option, none, some, List, [], ◌∷◌, is_some, ◌==◌,
  if◌then◌else◌,
}
use runkube.Webhook.{SubjectAccessReviewSpec, SubjectAccessReviewStatus}
pub mod Statuses

-- What is written to a response: a plain text, a `metav1.Status` with its code, or a review.
pub data Body {ℓ} (A : Type ℓ) : Type ℓ where
  no_body : Body A
  text : Body A
  api_status : ℕ → Body A
  review : A → Body A

-- A response as net/http sends it: the first status is sent, with the headers that are set by then.
pub record ResponseWriter {ℓ} (A : Type ℓ) : Type ℓ where
  pub code : Option ℕ
  pub is_json : Bool
  pub body : Body A

module _ {ℓ} {A : Type ℓ} where
  abbrev pub new_response : ResponseWriter A
  new_response = record { code = none; is_json = false; body = no_body }

  -- `w.Header().Set("Content-Type", "application/json")`
  unfoldable pub set_json : ResponseWriter A → ResponseWriter A
  set_json w = if is_some w.code then w else record w { is_json = true }

  unfoldable pub write_header : ℕ → ResponseWriter A → ResponseWriter A
  write_header code w = if is_some w.code then w else record w { code = some code }

  unfoldable pub encode : Body A → ResponseWriter A → ResponseWriter A
  unfolding set_json write_header
  encode from w = record (write_header 200 (set_json w)) { body = from }

  unfoldable pub write_status : ℕ → ResponseWriter A → ResponseWriter A
  unfolding encode
  write_status status_code w = encode (api_status status_code) (write_header status_code w)

  -- `http.Error`
  unfoldable pub http_error : ℕ → ResponseWriter A → ResponseWriter A
  unfolding write_header
  http_error code w = record (write_header code w) { body = text }

-- An answer, or the panic of a nil dereference.
pub data Served {ℓ} (A : Type ℓ) : Type ℓ where
  sent : ResponseWriter A → Served A
  panic : Served A

unfoldable pub serve_authorizer :
    (SubjectAccessReviewSpec → Option SubjectAccessReviewStatus)
    → Option SubjectAccessReviewSpec
    → Served SubjectAccessReviewStatus
unfolding encode write_status http_error
serve_authorizer authorizer none = sent (http_error 400 new_response)
serve_authorizer authorizer (some spec) = elim (authorizer spec) [
  | none ↦ sent (write_status 500 new_response)
  | some status ↦ sent (encode (review status) new_response)
]

-- `Authenticator.ServeHTTP`, for any types of the specification and the status.
unfoldable pub serve_authenticator {ℓ κ} :
    {Spec : Type ℓ} {Status : Type κ} → (Spec → Option Status) → Option Spec → Served Status
unfolding encode write_status
serve_authenticator authenticator none = sent (write_status 400 new_response)
serve_authenticator authenticator (some spec) = elim (authenticator spec) [
  | none ↦ sent (write_status 400 new_response)
  | some status ↦ sent (encode (review status) new_response)
]

pub record AdmissionRequest : Type 0 where
  pub uid : String
  pub operation : String

pub record AdmissionResponse : Type 0 where
  pub uid : String
  pub allowed : Bool

-- The pointers of a review. The log of a failed admission reads `Response.Allowed`.
pub record AdmissionReview : Type 0 where
  pub request : Option AdmissionRequest
  pub response : Option AdmissionResponse

unfoldable pub serve_admitter :
    (AdmissionRequest → Option AdmissionResponse)
    → Option AdmissionReview
    → Served AdmissionResponse
unfolding encode write_status
serve_admitter admitter none = sent (write_status 400 new_response)
serve_admitter admitter (some adm_req) = elim adm_req.request [
  | none ↦ panic
  | some req ↦ elim (admitter req) [
    | none ↦ elim adm_req.response [
      | none ↦ panic
      | some response ↦ sent (write_status 500 new_response)
    ]
    | some response ↦ sent (encode (review (record response { uid = req.uid })) new_response)
  ]
]

-- The loop of `Auditor.ServeHTTP`: the events that the auditor was given, and whether one failed.
unfoldable pub audit_each {ℓ} : {Event : Type ℓ} → (Event → Bool) → List Event → List Event × Bool
audit_each auditor [] = ([], true)
audit_each auditor (ev ∷ rest) =
    let (seen, passed) = audit_each auditor rest in
    if auditor ev then (ev ∷ seen, passed) else (ev ∷ [], false)

unfoldable pub serve_auditor {ℓ} :
    {Event : Type ℓ} → (Event → Bool) → Option (List Event) → List Event × Served (Unit {0})
unfolding audit_each write_status write_header
serve_auditor auditor none = ([], sent (write_status 400 new_response))
serve_auditor auditor (some events) =
    let (seen, passed) = audit_each auditor events in
    if passed
    then (seen, sent (write_header 200 new_response))
    else (seen, sent (write_status 400 new_response))
