-- ===== src/Server.antt =====
-- pkg/server/server.go: the response writer that counts, and the handlers that wrap another.
use runkube.Common.{
  ℕ, ◌+◌, ◌≡◌, String, Bool, true, false, not, ◌&&◌, ◌||◌, Option, none, some, List, [], ◌∷◌, eqb,
  ◌==◌, if◌then◌else◌,
}
use Prim.Native.String.{◌++◌}
pub mod Writer
pub mod Hosts
pub mod Tests

-- `loggingResponseWriter`. `sent` has the calls of `WriteHeader` on the writer below it, the last
-- first, and `flushed` counts those of `Flush`.
pub record LoggingResponseWriter : Type 0 where
  pub status_code : ℕ
  pub size : ℕ
  pub sent : List ℕ
  pub flushed : ℕ
  pub can_flush : Bool

unfoldable pub new_logging_response_writer : Bool → LoggingResponseWriter
new_logging_response_writer can_flush = record {
  status_code = 0;
  size = 0;
  sent = [];
  flushed = 0;
  can_flush = can_flush;
}

unfoldable pub written : LoggingResponseWriter → Bool
written l = not (eqb l.status_code 0)

unfoldable pub write_header : ℕ → LoggingResponseWriter → LoggingResponseWriter
unfolding written
write_header status l =
    if written l then l else record l { status_code = status; sent = status ∷ l.sent }

-- `if !l.Written()` of `Write` and of `Flush`.
unfoldable pub start_ok : LoggingResponseWriter → LoggingResponseWriter
unfolding written write_header
start_ok l = if written l then l else record (write_header 200 l) { status_code = 200 }

-- `Write`, where the writer below takes `n` bytes, with or without an error.
unfoldable pub write : ℕ → LoggingResponseWriter → LoggingResponseWriter
unfolding start_ok
write n l = let l' = start_ok l in record l' { size = l'.size + n }

unfoldable pub flush : LoggingResponseWriter → LoggingResponseWriter
unfolding start_ok
flush l = if l.can_flush then (let l' = start_ok l in record l' { flushed = l'.flushed + 1 }) else l

-- The parts of a request that the handlers read: `tls` is the server name of the handshake.
pub record Request : Type 0 where
  pub tls : Option String
  pub host : String

-- What a handler did: it answered with a status, or it panicked.
pub data Answer : Type 0 where
  status : ℕ → Answer
  panic : Answer

-- `WithMatchingHost`. `handler` is the answer of the wrapped handler.
unfoldable pub with_matching_host : (Request → Answer) → String → Request → Answer
with_matching_host handler n req = if n == "" then status 500 else elim req.tls [
  | none ↦ status 502
  | some server_name ↦
      if not (server_name == n)
      then status 502
      else if not (req.host == n || req.host == n ++ ":443")
      then status 502
      else handler req
]

pub data Level : Type 0 where
  debug info : Level

unfoldable pub level_of : ℕ → Level
level_of code = if eqb code 200 || eqb code 204 || eqb code 0 then debug else info

-- `WithLogging`: what was answered, and the level of the line that is logged. It reads the server
-- name of the handshake with no test for nil.
unfoldable pub with_logging : (Request → Answer) → Request → Answer × Option Level
unfolding level_of
with_logging handler req = elim (handler req) [
  | panic ↦ (panic, none)
  | status code ↦ elim req.tls [
    | none ↦ (panic, none)
    | some server_name ↦ (status code, some (level_of code))
  ]
]
