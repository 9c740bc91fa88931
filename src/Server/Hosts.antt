-- ===== src/Server/Hosts.antt =====
-- Which requests `WithMatchingHost` of pkg/server/server.go lets by, and `WithLogging` around it.
use runkube.Common.{
  ◌≡◌, ◌≢◌, ◌⊎◌, inl, inr, String, ◌||◌, none, some, arith, eq_iff, Option-cases, Bool-cases, ◌==◌,
}
use Prim.Native.String.{◌++◌}
use runkube.Server.{Request, Answer, status, panic, with_matching_host, with_logging}

-- A request over TLS whose handshake and `Host` header name the server, without or with its port.
abbrev pub IsFor : String → Request → Type 0
IsFor n req = (req.tls ≡ some n) × ((req.host ≡ n) ⊎ (req.host ≡ n ++ ":443"))

-- With a name configured, a request for that name gets the handler's answer and every other one 502.
-- With none, every request gets 500.
pub with_matching_host_lem :
    (handler : Request → Answer) (n : String) (req : Request)
    → let out = with_matching_host handler n req in
      ((n ≡ "") × (out ≡ status 500))
      ⊎ ((n ≢ "") × IsFor n req × (out ≡ handler req))
      ⊎ ((n ≢ "") × ¬ IsFor n req × (out ≡ status 502))
unfolding with_matching_host
with_matching_host_lem handler n req = elim (Bool-cases (n == "")) [
  | inl e ↦ inl ((eq_iff n "").0 e, ground arith)
  | inr named ↦
      let given : n ≢ "" = λ h. ground (arith, eq_iff n "") in
      elim (Option-cases req.tls) [
        | inl e ↦ inr (inr (given, (λ f. cc), ground arith))
        | inr (server_name, e) ↦ elim (Bool-cases (server_name == n)) [
          | inr other ↦ inr (inr (given, (λ f. ground (arith, eq_iff server_name n)), ground arith))
          | inl same ↦ elim (Bool-cases (req.host == n || req.host == n ++ ":443")) [
            | inr other ↦ inr (
                inr (
                  given,
                  (λ f. ground (arith, eq_iff req.host n, eq_iff req.host (n ++ ":443"))),
                  ground arith,
                ))
            | inl hit ↦ inr (
                inl (
                  given,
                  (
                    (ground (arith, eq_iff server_name n)),
                    (elim (Bool-cases (req.host == n)) [
                      | inl bare ↦ inl ((eq_iff req.host n).0 bare)
                      | inr ported ↦ inr (ground (arith, eq_iff req.host (n ++ ":443")))
                    ]),
                  ),
                  ground arith,
                ))
          ]
        ]
      ]
]

-- Behind `WithLogging`, a request without TLS panics, whatever the handler answers, so the answer 502
-- of `WithMatchingHost` to it is not the end of it. A request over TLS gets the handler's answer.
pub with_logging_lem :
    (handler : Request → Answer) (n : String) (req : Request)
    → let out = with_logging (with_matching_host handler n) req in
      ((req.tls ≡ none) × (out.0 ≡ panic))
      ⊎ ((req.tls ≢ none) × (out.0 ≡ with_matching_host handler n req))
unfolding with_logging
with_logging_lem handler n req = elim (Option-cases req.tls) [
  | inl e ↦ inl (e, ground arith)
  | inr (server_name, e) ↦ inr ((λ h. cc), ground arith)
]
