-- ===== src/Frontend/Tests.antt =====
-- The theorems on pkg/frontend at concrete states.
use runkube.Common.{
  ◌≡◌, refl, String, true, false, none, some, [], ◌∷◌, arith, lookup, insert, if◌then◌else◌, Bool,
  not, ◌&&◌, ◌↔◌, ◌++◌,
}
use runkube.Frontend.{
  Url, join_host_port, backend_key, Backend, Frontend, new_frontend, new_backend, register_one,
  register, ProxyRequest, tunnel, add_conn, write_line, hand_over, serve_http,
}
use runkube.Frontend.Registry.{Registrations, register_lem}
use runkube.Frontend.Queues.{
  add_all, accept_all, accept_all-add_all, HasRoom, is_queued, is_for, connection, serve_http_lem,
}

abbrev api : Url
api = record { hostname = "api"; port = "" }

abbrev six : Url
six = record { hostname = "::1"; port = "443" }

abbrev plain : Url
plain = record { hostname = "api"; port = "80" }

keys_of :
    (backend_key api ≡ some "api:443")
    × (backend_key six ≡ some "[::1]:443")
    × (backend_key plain ≡ none)
unfolding backend_key join_host_port
keys_of = (refl, refl, refl)

-- The second registration of a name fails; the first stays.
twice : (register (api ∷ api ∷ six ∷ []) new_frontend).0 ≡ false
unfolding register register_one backend_key join_host_port lookup insert
twice = refl

register_lem_run :
    Registrations (api ∷ six ∷ []) new_frontend (register (api ∷ six ∷ []) new_frontend)
register_lem_run = register_lem (api ∷ six ∷ []) new_frontend

accept_all-add_all_example :
    accept_all 9 (add_all (1 ∷ 2 ∷ 3 ∷ 4 ∷ 5 ∷ 6 ∷ []) (new_backend "api:443" api))
    ≡ 1 ∷ 2 ∷ 3 ∷ 4 ∷ 5 ∷ []
accept_all-add_all_example =
    accept_all-add_all (1 ∷ 2 ∷ 3 ∷ 4 ∷ 5 ∷ 6 ∷ []) (new_backend "api:443" api) 9 (omega arith)
      (omega arith)

abbrev full_backend : Backend
full_backend = record (new_backend "api:443" api) { cs = 1 ∷ 2 ∷ 3 ∷ 4 ∷ 5 ∷ [] }

abbrev busy_frontend : Frontend
busy_frontend = record { backends = ("api:443", full_backend) ∷ [] }

abbrev connect : ProxyRequest
connect = record {
  is_connect = true;
  can_hijack = true;
  url = api;
  hijacked = some 9;
  close_succeeds = true;
}

-- A sixth connection is closed, and the client is told nothing.
sixth_is_closed : (serve_http connect busy_frontend).0 ≡ tunnel false true false
unfolding serve_http hand_over write_line add_conn backend_key join_host_port lookup
sixth_is_closed = refl

serve_http_lem_example :
    let out = serve_http connect busy_frontend in
    ((out.0 ≡ tunnel true false true) ↔ HasRoom connect busy_frontend)
    × ((queued closed connected : Bool)
        → out.0 ≡ tunnel queued closed connected
        → (connected ≡ queued) × (closed ≡ not queued))
    × ((k : String) (b : Backend)
        → lookup k busy_frontend.backends ≡ some b
        → lookup k out.1.backends
          ≡ some (
              if is_queued out.0 && is_for connect k
              then record b { cs = b.cs ++ connection connect }
              else b))
serve_http_lem_example = serve_http_lem connect busy_frontend
