-- ===== src/Webhook/Handlers/Statuses.antt =====
-- The responses of the handlers of pkg/webhook/webhook.go.
use runkube.Common.{
  ◌≡◌, refl, ap, ◌⊎◌, inl, inr, Bool, true, false, Option, none, some, List, [], ◌∷◌, ◌++◌, arith,
  Bool-cases, Option-cases, All,
}
use runkube.Webhook.{SubjectAccessReviewSpec, SubjectAccessReviewStatus}
use runkube.Webhook.Handlers.{
  text, api_status, set_json, http_error, ResponseWriter, serve_authorizer, review, new_response,
  write_header, encode, write_status, sent, panic, AdmissionRequest, AdmissionResponse,
  AdmissionReview, serve_admitter, audit_each, serve_auditor,
}

-- The review that answers an admission request carries the request's UID, whatever the webhook put
-- there. A webhook that fails makes the handler panic when the review has no response of its own, as
-- one that asks for an admission has not.
pub serve_admitter_lem :
    (admitter : AdmissionRequest → Option AdmissionResponse) (req : AdmissionRequest)
    → let asked : AdmissionReview = record { request = some req; response = none } in
      ((admitter req ≡ none) × (serve_admitter admitter (some asked) ≡ panic))
      ⊎ ((response : AdmissionResponse) × (admitter req ≡ some response)
          × (serve_admitter admitter (some asked)
              ≡ sent (
                  encode
                    (review (record { uid = req.uid; allowed = response.allowed }))
                    new_response)))
unfolding serve_admitter
serve_admitter_lem admitter req = elim (Option-cases (admitter req)) [
  | inl fails ↦ inl (fails, ground arith)
  | inr (response, gives) ↦ inr (response, gives, ground arith)
]

abbrev pub Passes {ℓ} : {Event : Type ℓ} → (Event → Bool) → Event → Type 0
Passes auditor ev = auditor ev ≡ true

-- The events of a batch that was refused: those before the first that fails, and that one.
abbrev pub Stopped {ℓ} : {Event : Type ℓ} → (Event → Bool) → List Event → List Event → Type ℓ
Stopped {Event = Event} auditor events seen =
    (front : List Event) × (bad : Event) × (back : List Event) × (events ≡ front ++ bad ∷ back)
    × (seen ≡ front ++ bad ∷ [])
    × All (Passes auditor) front
    × (auditor bad ≡ false)

audit_each_lem :
    {Event : Type 0} (auditor : Event → Bool) (events : List Event)
    → ((audit_each auditor events ≡ (events, true)) × All (Passes auditor) events)
      ⊎ ((seen : List Event) × (audit_each auditor events ≡ (seen, false))
          × Stopped auditor events seen)
unfolding audit_each
audit_each_lem auditor [] = inl (refl, tt)
audit_each_lem auditor (ev ∷ rest) = elim (Bool-cases (auditor ev)) [
  | inr bad ↦ inr (ev ∷ [], rw bad refl, ([], ev, rest, refl, refl, tt, bad))
  | inl good ↦ elim (audit_each_lem auditor rest) [
    | inl (e, passes) ↦ inl (rw (good, e) refl, (good, passes))
    | inr (seen, e, (front, bad, back, split, cut, passes, fails)) ↦ inr (
      ev ∷ seen,
      rw (good, e) refl,
      (ev ∷ front, bad, back, ap (λ l. ev ∷ l) split, ap (λ l. ev ∷ l) cut, (good, passes), fails),
    )
  ]
]

-- The handler of audit batches answers 200 exactly when the auditor passes every event, each of which
-- it was given in order. Otherwise it answers 400, and the auditor was given the events up to the
-- first that it fails and none behind it.
pub serve_auditor_lem :
    {Event : Type 0} (auditor : Event → Bool) (events : List Event)
    → let out = serve_auditor auditor (some events) in
      (All (Passes auditor) events × (out ≡ (events, sent (write_header 200 new_response))))
      ⊎ ((seen : List Event) × Stopped auditor events seen
          × (out ≡ (seen, sent (write_status 400 new_response))))
unfolding serve_auditor
serve_auditor_lem auditor events = elim (audit_each_lem auditor events) [
  | inl (e, passes) ↦ inl (passes, rw e refl)
  | inr (seen, e, stopped) ↦ inr (seen, stopped, rw e refl)
]

-- What the handler of access reviews sends: 200 and the status, with the JSON content type, exactly
-- when the body decodes and the authorizer gives a status. An undecodable body gets 400 and a failing
-- authorizer 500, both without that content type, the latter although its body is JSON.
pub serve_authorizer_lem :
    (authorizer : SubjectAccessReviewSpec → Option SubjectAccessReviewStatus)
    (body : Option SubjectAccessReviewSpec)
    → (w : ResponseWriter SubjectAccessReviewStatus) × (serve_authorizer authorizer body ≡ sent w)
      × (((spec : SubjectAccessReviewSpec) × (st : SubjectAccessReviewStatus) × (body ≡ some spec)
            × (authorizer spec ≡ some st)
            × (w.code ≡ some 200)
            × (w.is_json ≡ true)
            × (w.body ≡ review st))
          ⊎ ((body ≡ none) × (w.code ≡ some 400) × (w.is_json ≡ false) × (w.body ≡ text))
          ⊎ ((spec : SubjectAccessReviewSpec) × (body ≡ some spec)
              × (authorizer spec ≡ none)
              × (w.code ≡ some 500)
              × (w.is_json ≡ false)
              × (w.body ≡ api_status 500)))
unfolding serve_authorizer encode set_json write_header write_status http_error
serve_authorizer_lem authorizer none = (_, refl, inr (inl (refl, refl, refl, refl)))
serve_authorizer_lem authorizer (some spec) = elim (Option-cases (authorizer spec)) [
  | inl fails ↦
      (write_status 500 new_response, ground arith, inr (inr (spec, refl, fails, refl, refl, refl)))
  | inr (st, gives) ↦
      (encode (review st) new_response, ground arith, inl (spec, st, refl, gives, refl, refl, refl))
]
