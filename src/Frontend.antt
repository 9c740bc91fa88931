-- ===== src/Frontend.antt =====
-- pkg/frontend/server.go: the proxy that hands the connection of a CONNECT request to a backend.
use runkube.Common.{
  ℕ, suc, ◌≡◌, String, Bool, true, false, not, Option, none, some, List, [], ◌∷◌, ◌++◌, length, ltb,
  Dict, lookup, insert, ◌==◌, if◌then◌else◌, is_some,
}
use Prim.Native.String.{◌++◌ as append}
use text.Mathlib.Text.{find?}
pub mod Registry
pub mod Queues
pub mod Tests

-- A `*url.URL` as `Hostname()` and `Port()` read it.
pub record Url : Type 0 where
  pub hostname : String
  pub port : String

-- `net.JoinHostPort`: brackets around a host with a colon.
unfoldable pub join_host_port : String → String → String
join_host_port host port =
    if is_some (find? host ":")
    then append "[" (append host (append "]:" port))
    else append host (append ":" port)

-- The key, or none for a port other than 443.
unfoldable pub backend_key : Url → Option String
unfolding join_host_port
backend_key u =
    let p : String = if u.port == "" then "443" else u.port in
    if not (p == "443") then none else some (join_host_port u.hostname p)

-- Connections are numbered. `cs` is the channel of those that wait to be accepted.
pub record Backend : Type 0 where
  pub k : String
  pub o : Url
  pub cs : List ℕ
  pub closed : Bool

pub record Frontend : Type 0 where
  pub backends : Dict Backend

abbrev pub new_frontend : Frontend
new_frontend = record { backends = [] }

-- The capacity of `cs`.
abbrev pub capacity : ℕ
capacity = 5

abbrev pub new_backend : String → Url → Backend
new_backend k o = record { k = k; o = o; cs = []; closed = false }

-- Whether it returned nil, and the frontend.
unfoldable pub register_one : Url → Frontend → Bool × Frontend
unfolding backend_key
register_one o f = elim (backend_key o) [
  | none ↦ (false, f)
  | some bk ↦ elim (lookup bk f.backends) [
    | some b ↦ (false, f)
    | none ↦ (true, record f { backends = insert bk (new_backend bk o) f.backends })
  ]
]

-- `Register`: it stops at the first error, and keeps what was registered before.
unfoldable pub register : List Url → Frontend → Bool × Frontend
unfolding register_one
register [] f = (true, f)
register (o ∷ rest) f =
    let (registered, f') = register_one o f in
    let later : Bool × Frontend = register rest f' in if registered then later else (false, f')

-- `AddConn`. The `default` of its `select` is taken at once where `cs` has no room, so the timeout
-- never is.
unfoldable pub add_conn : ℕ → Backend → Bool × Backend
add_conn c b =
    if ltb (length b.cs) capacity then (true, record b { cs = b.cs ++ c ∷ [] }) else (false, b)

-- `Accept`: none while it waits.
unfoldable pub accept : Backend → Option (ℕ × Backend)
accept b = elim b.cs [ [] ↦ none | c ∷ rest ↦ some (c, record b { cs = rest }) ]

-- `Close`: whether it returned nil. It lets the listener and its queue be.
unfoldable pub close : Backend → Bool × Backend
close b = (not b.closed, record b { closed = true })

-- What `ServeHTTP` reads of the request and the writer, and what two calls on the connection give:
-- the connection that `Hijack` gives, if it does, and whether `Close` returns nil.
pub record ProxyRequest : Type 0 where
  pub is_connect : Bool
  pub can_hijack : Bool
  pub url : Url
  pub hijacked : Option ℕ
  pub close_succeeds : Bool

-- An HTTP error, or what was done with the hijacked connection: whether it was queued, whether `Close`
-- was called on it, and whether the line "200 Connected" was then written to it.
pub data Outcome : Type 0 where
  http_error : ℕ → Outcome
  tunnel : (queued closed connected : Bool) → Outcome

-- Whether a `Write` gets through on this side: it fails on a connection that is closed.
unfoldable pub write_line : (closed : Bool) → Bool
write_line closed = not closed

-- `ServeHTTP` from the call of `AddConn`. After a `Close` without an error it goes on to the `Write`.
unfoldable pub hand_over : ProxyRequest → ℕ → String → Backend → Frontend → Outcome × Frontend
unfolding add_conn write_line
hand_over r conn a b f =
    let (added, b') = add_conn conn b in
    let f' : Frontend = record f { backends = insert a b' f.backends } in
    if added
    then (tunnel true false (write_line false), f')
    else if r.close_succeeds
    then (tunnel false true (write_line true), f')
    else (tunnel false true false, f')

unfoldable pub serve_http : ProxyRequest → Frontend → Outcome × Frontend
unfolding backend_key hand_over
serve_http r f =
    if not r.is_connect
    then (http_error 405, f)
    else if not r.can_hijack
    then (http_error 500, f)
    else elim (backend_key r.url) [
      | none ↦ (http_error 400, f)
      | some a ↦ elim (lookup a f.backends) [
        | none ↦ (http_error 502, f)
        | some b ↦ elim r.hijacked [
          | none ↦ (http_error 500, f)
          | some conn ↦ hand_over r conn a b f
        ]
      ]
    ]
