-- ===== src/Server/Tests.antt =====
-- The theorems on pkg/server at concrete requests.
use runkube.Common.{◌≡◌, refl, ◌≢◌, ◌⊎◌, String, false, none, some, List, [], ◌∷◌, arith}
use runkube.Server.{
  Request, Answer, status, panic, new_logging_response_writer, with_matching_host, with_logging,
}
use runkube.Server.Writer.{Op, header, body, flush_out, apply_all, apply_all_lem}
use runkube.Server.Hosts.{IsFor, with_matching_host_lem, with_logging_lem}

abbrev ops : List Op
ops = flush_out ∷ header 404 ∷ body 10 ∷ header 500 ∷ body 2 ∷ []

apply_all_lem_run :
    let l = apply_all ops (new_logging_response_writer false) in
    (l.status_code ≡ 404) × (l.sent ≡ 404 ∷ []) × (l.size ≡ 12)
apply_all_lem_run = apply_all_lem ops false (tt, ((omega arith), (tt, ((omega arith), (tt, tt)))))

abbrev handler : Request → Answer
handler req = status 200

abbrev api_request : Request
api_request = record { tls = some "api"; host = "api:443" }

abbrev plain_request : Request
plain_request = record { tls = none; host = "api" }

plain_refused : with_matching_host handler "api" plain_request ≡ status 502
unfolding with_matching_host
plain_refused = refl

with_matching_host_lem_example :
    let out = with_matching_host handler "api" api_request in
    ((◌≡◌ {A = String} "api" "") × (out ≡ status 500))
    ⊎ ((◌≢◌ {A = String} "api" "") × IsFor "api" api_request × (out ≡ status 200))
    ⊎ ((◌≢◌ {A = String} "api" "") × ¬ IsFor "api" api_request × (out ≡ status 502))
with_matching_host_lem_example = with_matching_host_lem handler "api" api_request

with_logging_lem_run :
    let out = with_logging (with_matching_host handler "api") plain_request in
    ((plain_request.tls ≡ none) × (out.0 ≡ panic))
    ⊎ ((plain_request.tls ≢ none) × (out.0 ≡ with_matching_host handler "api" plain_request))
with_logging_lem_run = with_logging_lem handler "api" plain_request
