-- ===== src/Fdchan/Mux.antt =====
-- pkg/sandbox/fdchan/fdchan.go: the multiplexer. `sessionsMu` is held in each operation on the
-- sessions, so a history is a list of them, from any number of goroutines.
use runkube.Common.{
  ℕ, suc, ◌+◌, ◌%◌, ◌^◌, Bool, true, false, not, ◌&&◌, ◌||◌, Option, none, some, List, [], ◌∷◌,
  ◌++◌, length, ltb, eqb, if◌then◌else◌, is_some,
}
use runkube.Fdchan.{Payload, Message, Outcome, ok, err, Fault}
pub mod Laws
pub mod Histories
pub mod Ended
pub mod Replies

-- What a session's channel has got: a result, or that it was closed.
pub data Delivery : Type 0 where
  received : Payload → List ℕ → Delivery
  closed : Delivery

-- `sessions` is the map from sequence numbers to channels, which are numbered in the order in which
-- they are made; `results` has what was sent on them or that they were closed, the last first.
-- `held` is a request for which the channel `inboundRx` has no room: the loop waits for it.
pub record Mux : Type 0 where
  pub next_seq : ℕ
  pub sessions : List (ℕ × ℕ)
  pub inbound : List Message
  pub held : Option Message
  pub done : Bool
  pub next_channel : ℕ
  pub results : List (ℕ × Delivery)
  pub closed_files : List ℕ

abbrev pub new_mux : Mux
new_mux = record {
  next_seq = 0;
  sessions = [];
  inbound = [];
  held = none;
  done = false;
  next_channel = 0;
  results = [];
  closed_files = [];
}

-- The capacity of `inboundRx`.
abbrev inbound_size : ℕ
inbound_size = 128

unfoldable pub session_of : ℕ → List (ℕ × ℕ) → Option ℕ
session_of seq [] = none
session_of seq ((s, chan) ∷ rest) = if eqb s seq then some chan else session_of seq rest

unfoldable pub delete_session : ℕ → List (ℕ × ℕ) → List (ℕ × ℕ)
delete_session seq [] = []
delete_session seq ((s, chan) ∷ rest) =
    if eqb s seq then delete_session seq rest else (s, chan) ∷ delete_session seq rest

-- `Request` up to the write: a new number, a new channel, and the session.
unfoldable pub open_session : Mux → Mux
unfolding delete_session
open_session m =
    let seq : ℕ = (m.next_seq + 1) % 2 ^ 64 in
    record m {
      next_seq = seq;
      next_channel = suc m.next_channel;
      sessions = (seq, m.next_channel) ∷ delete_session seq m.sessions;
    }

-- The payload that `Request` writes.
unfoldable pub request_payload : ℕ → Message → Payload
request_payload seq msg = record {
  sequence = seq;
  is_response = false;
  annotations = msg.annotations;
  bytes = msg.bytes;
}

-- `Request` after a failed write.
unfoldable pub abandon : ℕ → Mux → Mux
unfolding delete_session
abandon seq m = record m { sessions = delete_session seq m.sessions }

unfoldable pub close_sessions : List (ℕ × ℕ) → List (ℕ × Delivery) → List (ℕ × Delivery)
close_sessions [] results = results
close_sessions ((s, chan) ∷ rest) results = close_sessions rest ((chan, closed) ∷ results)

unfoldable pub to_message : Payload → List ℕ → Message
to_message p files = record {
  bytes = p.bytes;
  files = files;
  annotations = p.annotations;
  seq = p.sequence;
}

-- One round of `readLoop` with what `readWire` gave.
unfoldable pub read_loop : Outcome (Payload × List ℕ) → Mux → Mux
unfolding session_of delete_session close_sessions to_message
read_loop (err e) m = record m {
  sessions = [];
  results = close_sessions m.sessions m.results;
  done = true;
}
read_loop (ok (p, files)) m =
    if p.is_response
    then elim (session_of p.sequence m.sessions) [
      | none ↦ record m { closed_files = files ++ m.closed_files }
      | some chan ↦ record m {
        sessions = delete_session p.sequence m.sessions;
        results = (chan, received p files) ∷ m.results;
      }
    ]
    else if ltb (length m.inbound) inbound_size
    then record m { inbound = m.inbound ++ to_message p files ∷ [] }
    else record m { held = some (to_message p files) }

-- The loop takes no round after its end, and none while it waits for room.
unfoldable pub loop_runs : Mux → Bool
loop_runs m = not m.done && not (is_some m.held)

-- A message is taken from `inboundRx`, and one that waited takes its place.
unfoldable pub take_inbound : Mux → Mux
take_inbound m = elim m.inbound [
  | [] ↦ m
  | _ ∷ rest ↦ elim m.held [
    | none ↦ record m { inbound = rest }
    | some late ↦ record m { inbound = rest ++ late ∷ []; held = none }
  ]
]

-- `receiveRequest`: none while it waits. `picks_done` is the choice of `select` where both are ready.
unfoldable pub receive_request : Bool → Mux → Option (Option Message × Mux)
unfolding take_inbound
receive_request picks_done m = elim m.inbound [
  | [] ↦ if m.done then some (none, m) else none
  | msg ∷ _ ↦ if m.done && picks_done then some (none, m) else some (some msg, take_inbound m)
]

pub data Input : Type 0 where
  request : Input
  write_fails : ℕ → Input
  frame : Outcome (Payload × List ℕ) → Input
  handle : Bool → Input

abbrev after_handle : Mux → Option (Option Message × Mux) → Mux
after_handle m none = m
after_handle m (some (msg, m')) = m'

unfoldable pub step : Input → Mux → Mux
unfolding open_session abandon read_loop loop_runs receive_request
step request m = open_session m
step (write_fails seq) m = abandon seq m
step (frame r) m = if loop_runs m then read_loop r m else m
step (handle picks_done) m = after_handle m (receive_request picks_done m)

unfoldable pub run_inputs : List Input → Mux → Mux
unfolding step
run_inputs [] m = m
run_inputs (i ∷ inputs) m = run_inputs inputs (step i m)

-- The payload that the responder of `HandleRequest` writes.
unfoldable pub response_to : Message → Message → Payload
response_to req reply = record {
  sequence = req.seq;
  is_response = true;
  annotations = reply.annotations;
  bytes = reply.bytes;
}
