-- ===== src/Frontend/Queues.antt =====
-- The queue of a backend of pkg/frontend/server.go: `AddConn` against `Accept`, and `ServeHTTP`.
use runkube.Common.{
  ℕ, zero, suc, ◌≤◌, ◌<◌, ◌≡◌, refl, inl, inr, ◌∙◌, String, true, false, not, none, some, List, [],
  ◌∷◌, ◌++◌, arith, Bool-cases, lookup, lookup-insert, length, length-append, length-take, take,
  take_front, take_all, append_nil, append-snoc, ltb, ◌==◌, if◌then◌else◌, ◌&&◌, ◌↔◌, ◌⊎◌, Bool,
  Option-cases, eq_iff,
}
use runkube.Frontend.{
  backend_key, Backend, Frontend, capacity, add_conn, accept, ProxyRequest, Outcome, http_error,
  tunnel, write_line, hand_over, serve_http,
}

-- `AddConn` of each of a list, with the errors dropped.
unfoldable pub add_all : List ℕ → Backend → Backend
add_all [] b = b
add_all (c ∷ conns) b = add_all conns (add_conn c b).1

-- `Accept` until it waits; no more than `n` times.
unfoldable pub accept_all : ℕ → Backend → List ℕ
accept_all zero b = []
accept_all (suc n) b = elim (accept b) [ none ↦ [] | some (c, b') ↦ c ∷ accept_all n b' ]

add_all-cs :
    (conns : List ℕ) (b : Backend)
    → length b.cs ≤ capacity
    → (add_all conns b).cs ≡ take capacity (b.cs ++ conns)
unfolding add_all add_conn
add_all-cs [] b few = rw (append_nil b.cs, take_all capacity b.cs few)
add_all-cs (c ∷ conns) b few = elim (Bool-cases (ltb (length b.cs) capacity)) [
  | inl room ↦ ground (
    arith,
    append-snoc b.cs c conns,
    length-append b.cs (c ∷ []),
    add_all-cs conns (record b { cs = b.cs ++ c ∷ [] })
        (omega (
          arith,
          length-append b.cs (c ∷ []),
          (let r : length b.cs < capacity = ground arith in r),
        )),
  )
  | inr full ↦ ground (
    arith,
    add_all-cs conns b few,
    take_front capacity b.cs conns (ground arith),
    take_front capacity b.cs (c ∷ conns) (ground arith),
  )
]

accept_all-cs : (n : ℕ) (cs : List ℕ) (b : Backend) → b.cs ≡ cs → accept_all n b ≡ take n cs
unfolding accept_all accept
accept_all-cs zero cs b e = refl
accept_all-cs (suc n) [] b e = ground arith
accept_all-cs (suc n) (c ∷ cs) b e = ground (arith, accept_all-cs n cs (record b { cs = cs }) refl)

-- Connections that are added to a backend where at most five wait are accepted in the order in
-- which they were added, behind those that waited: the first five of all, and no other, by a
-- listener that accepts at least five times.
pub accept_all-add_all :
    (conns : List ℕ) (b : Backend) (n : ℕ)
    → length b.cs ≤ capacity
    → capacity ≤ n
    → accept_all n (add_all conns b) ≡ take capacity (b.cs ++ conns)
accept_all-add_all conns b n few enough =
    accept_all-cs n (add_all conns b).cs (add_all conns b) refl
    ∙ rw (add_all-cs conns b few) (
        take_all n (take capacity (b.cs ++ conns))
          (omega (arith, length-take capacity (b.cs ++ conns))))

-- A CONNECT request for a registered server, on a writer that gives its connection.
abbrev pub CanServe : ProxyRequest → Frontend → String → Backend → ℕ → Type 0
CanServe r f a b conn =
    (r.is_connect ≡ true)
    × (r.can_hijack ≡ true)
    × (backend_key r.url ≡ some a)
    × (lookup a f.backends ≡ some b)
    × (r.hijacked ≡ some conn)

-- There is room at the server that the request is for.
abbrev pub HasRoom : ProxyRequest → Frontend → Type 0
HasRoom r f =
    (a : String) × (b : Backend) × (conn : ℕ) × (length b.cs < capacity) × CanServe r f a b conn

abbrev pub is_queued : Outcome → Bool
is_queued (http_error code) = false
is_queued (tunnel queued closed connected) = queued

abbrev pub is_for : ProxyRequest → String → Bool
is_for r k = elim (backend_key r.url) [ none ↦ false | some a ↦ a == k ]

abbrev pub connection : ProxyRequest → List ℕ
connection r = elim r.hijacked [ none ↦ [] | some conn ↦ conn ∷ [] ]

-- Either an error and the frontend as before, or a connection that is handed over.
abbrev Serving : ProxyRequest → Frontend → Outcome × Frontend → Type 0
Serving r f out =
    ((code : ℕ) × (out ≡ (http_error code, f)))
    ⊎ ((a : String) × (b : Backend) × (conn : ℕ) × (out ≡ hand_over r conn a b f)
        × CanServe r f a b conn)

serve_http-Serving : (r : ProxyRequest) (f : Frontend) → Serving r f (serve_http r f)
unfolding serve_http
serve_http-Serving r f = elim (Bool-cases r.is_connect) [
  | inr other ↦ inl (405, ground arith)
  | inl connects ↦ elim (Bool-cases r.can_hijack) [
    | inr fixed ↦ inl (500, ground arith)
    | inl free ↦ elim (Option-cases (backend_key r.url)) [
      | inl no_key ↦ inl (400, ground arith)
      | inr (a, is_a) ↦ elim (Option-cases (lookup a f.backends)) [
        | inl missing ↦ inl (502, ground arith)
        | inr (b, is_b) ↦ elim (Option-cases r.hijacked) [
          | inl fails ↦ inl (500, ground arith)
          | inr (conn, is_conn) ↦
              inr (a, b, conn, ground arith, (connects, free, is_a, is_b, is_conn))
        ]
      ]
    ]
  ]
]

serve_http_tunnel :
    (r : ProxyRequest) (f : Frontend) (a : String) (b : Backend) (conn : ℕ)
    → CanServe r f a b conn
    → serve_http r f ≡ hand_over r conn a b f
unfolding serve_http
serve_http_tunnel r f a b conn (m, h, e, there, hijack) = ground arith

hand_over_outcome :
    (r : ProxyRequest) (conn : ℕ) (a : String) (b : Backend) (f : Frontend)
    → (hand_over r conn a b f).0
      ≡ (if ltb (length b.cs) capacity then tunnel true false true else tunnel false true false)
unfolding hand_over add_conn write_line
hand_over_outcome r conn a b f = ground arith

hand_over_backends :
    (r : ProxyRequest) (conn : ℕ) (a : String) (b : Backend) (f : Frontend) (k : String)
    → lookup k (hand_over r conn a b f).1.backends ≡ (
        if a == k
        then some (if ltb (length b.cs) capacity then record b { cs = b.cs ++ conn ∷ [] } else b)
        else lookup k f.backends)
unfolding hand_over add_conn
hand_over_backends r conn a b f k = ground (arith, lookup-insert a k (add_conn conn b).1 f.backends)

queued-HasRoom :
    (r : ProxyRequest) (f : Frontend) → (serve_http r f).0 ≡ tunnel true false true → HasRoom r f
queued-HasRoom r f e = elim (serve_http-Serving r f) [
  | inl (code, same) ↦ absurd (cc)
  | inr (a, b, conn, same, (m, h, is_a, is_b, is_conn)) ↦
      let outcome = hand_over_outcome r conn a b f in
      (a, b, conn, ground arith, (m, h, is_a, is_b, is_conn))
]

HasRoom-queued :
    (r : ProxyRequest) (f : Frontend) → HasRoom r f → (serve_http r f).0 ≡ tunnel true false true
HasRoom-queued r f (a, b, conn, room, can) =
    let same = serve_http_tunnel r f a b conn can in
    let outcome = hand_over_outcome r conn a b f in ground arith

told_if_queued :
    (r : ProxyRequest) (f : Frontend) (queued closed connected : Bool)
    → (serve_http r f).0 ≡ tunnel queued closed connected
    → (connected ≡ queued) × (closed ≡ not queued)
told_if_queued r f queued closed connected e = elim (serve_http-Serving r f) [
  | inl (code, same) ↦ absurd (cc)
  | inr (a, b, conn, same, can) ↦
      let outcome = hand_over_outcome r conn a b f in (ground arith, ground arith)
]

queues_after :
    (r : ProxyRequest) (f : Frontend) (k : String) (b : Backend)
    → lookup k f.backends ≡ some b
    → lookup k (serve_http r f).1.backends
      ≡ some (
          if is_queued (serve_http r f).0 && is_for r k
          then record b { cs = b.cs ++ connection r }
          else b)
queues_after r f k b there = elim (serve_http-Serving r f) [
  | inl (code, same) ↦ ground arith
  | inr (a, b', conn, same, (m, h, is_a, is_b, is_conn)) ↦
      let outcome = hand_over_outcome r conn a b' f in
      let after = hand_over_backends r conn a b' f k in ground (arith, eq_iff a k)
]

-- For every request: its connection is queued exactly if it is a CONNECT request for a registered server
-- where fewer than five wait, on a writer that gives its connection. Where it is handed over at all,
-- the client gets "200 Connected" exactly if it is queued, and the connection is closed exactly if it
-- is not. The queue of its server has it at the end then; no other queue changes.
pub serve_http_lem :
    (r : ProxyRequest) (f : Frontend)
    → let out = serve_http r f in
      ((out.0 ≡ tunnel true false true) ↔ HasRoom r f)
      × ((queued closed connected : Bool)
          → out.0 ≡ tunnel queued closed connected
          → (connected ≡ queued) × (closed ≡ not queued))
      × ((k : String) (b : Backend)
          → lookup k f.backends ≡ some b
          → lookup k out.1.backends
            ≡ some (
                if is_queued out.0 && is_for r k
                then record b { cs = b.cs ++ connection r }
                else b))
serve_http_lem r f =
    ((queued-HasRoom r f, HasRoom-queued r f), told_if_queued r f, queues_after r f)
