-- ===== src/Fdchan/Tests.antt =====
-- Runs of pkg/sandbox/fdchan, and the theorems at concrete states.
use runkube.Common.{
  take_all, ℕ, zero, suc, sym, ap, ◌∙◌, ◌≤◌, ◌<◌, ◌≡◌, refl, subst, ◌≢◌, String, Bool, true, false,
  ◌&&◌, Option, none, some, List, [], ◌∷◌, length, take, drop, arith, eq_iff, eqb, ◌==◌,
  if◌then◌else◌,
}
use runkube.Fdchan.{
  Annotation, Payload, Message, integrity_violation, read_failed, unmarshal_failed, ok, err, ◌>>=◌,
  checked, is_registered, add_descriptor, find_descriptor, get_descriptor,
}
use runkube.Fdchan.Descriptors.{AnyAddition, add_descriptor_lem}
use runkube.Fdchan.Wire.{Platform, put_uint32, filled, write_wire, read_wire}
use runkube.Fdchan.Wire.Laws.{Flow, IsStream, write_wire-read_wire}
use runkube.Fdchan.Mux.{
  request_payload, response_to, to_message, receive_request, Delivery, received, closed, Mux,
  new_mux, session_of, delete_session, open_session, close_sessions, read_loop, loop_runs, Input,
  request, frame, step, run_inputs,
}
use runkube.Fdchan.Mux.Histories.{occurs, Holds, run_inputs-IsMatched}
use runkube.Fdchan.Mux.Replies.{reply_is_delivered}
use runkube.Fdchan.Mux.Ended.{read_loop_err, request_after_end}

abbrev empty_message : Message
empty_message = record { bytes = []; files = []; annotations = []; seq = 0 }

-- A file under a name is found again.
added_is_found :
    (elim (add_descriptor (some 5) "log" "output" empty_message) [
      | ok m ↦ get_descriptor "log" m
      | err e ↦ err e
    ])
    ≡ ok (5, "output")
unfolding add_descriptor is_registered get_descriptor find_descriptor
added_is_found = refl

add_descriptor_lem_example :
    AnyAddition
      (some 5)
      "log"
      "output"
      empty_message
      (add_descriptor (some 5) "log" "output" empty_message)
    × ((k : String) → get_descriptor k empty_message ≢ err integrity_violation)
add_descriptor_lem_example = add_descriptor_lem (some 5) "log" "output" empty_message refl

-- A concrete platform. Payloads with at most one annotation, "log" for "output", are three bytes and
-- their data; a control message is the list of its files; the connection holds one message.
abbrev log_annotation : Annotation
log_annotation = record { id = "log"; purpose = "output" }

abbrev flag_of : Bool → ℕ
flag_of r = if r then 1 else 0

abbrev coded : ℕ → Bool → List Annotation → List ℕ → Option (List ℕ)
coded n r [] content = some (n ∷ flag_of r ∷ 0 ∷ content)
coded n r (a ∷ []) content =
    if a.id == "log" && a.purpose == "output" then some (n ∷ flag_of r ∷ 1 ∷ content) else none
coded n r (a ∷ b ∷ rest) content = none

abbrev decoded : List ℕ → Option Payload
decoded (n ∷ flag ∷ count ∷ content) = some (record {
  sequence = n;
  is_response = eqb flag 1;
  annotations = if eqb count 1 then log_annotation ∷ [] else [];
  bytes = content;
})
decoded _ = none

abbrev one_message : Platform
one_message = record {
  Socket = List ℕ × List ℕ;
  marshal = λ p. coded p.sequence p.is_response p.annotations p.bytes;
  unmarshal = decoded;
  unix_rights = λ fds. fds;
  parse_control = λ oob. some (oob ∷ []);
  parse_rights = λ cmsg. some cmsg;
  write_msg = λ buf oob conn. elim conn.0 [ [] ↦ some (buf, oob) | _ ↦ none ];
  read_msg = λ n room conn. some (take n conn.0, take room conn.1, (drop n conn.0, []));
  read = λ n conn. some (take n conn.0, (drop n conn.0, []));
  cmsg_space = λ n. n;
}

-- A front part is as long as it is.
own_length :
    (n : ℕ) (xs : List ℕ)
    → (take n xs ≡ take (length (take n xs)) xs) × (drop n xs ≡ drop (length (take n xs)) xs)
own_length zero xs = (refl, refl)
own_length (suc n) [] = (refl, refl)
own_length (suc n) (x ∷ xs) = let (a, b) = own_length n xs in (ap (λ l. x ∷ l) a, b)

decodes :
    (n : ℕ) (r : Bool) (l : List Annotation) (content b : List ℕ)
    → coded n r l content ≡ some b
    → decoded b ≡ some (record { sequence = n; is_response = r; annotations = l; bytes = content })
decodes n true [] content b e = ground arith
decodes n false [] content b e = ground arith
decodes n true (a ∷ []) content b e = ground (arith, eq_iff a.id "log", eq_iff a.purpose "output")
decodes n false (a ∷ []) content b e = ground (arith, eq_iff a.id "log", eq_iff a.purpose "output")
decodes n r (a ∷ c ∷ l) content b e = cc

sends_all :
    (bytes oob : List ℕ) (s sent : List ℕ × List ℕ)
    → s.0 ≡ []
    → one_message.write_msg bytes oob s ≡ some sent
    → (n : ℕ) × (sent.0 ≡ take n bytes) × (sent.1 ≡ oob)
sends_all bytes oob ([], c) sent empty e =
    let is_sent : sent ≡ (bytes, oob) = cc in
    (
      length bytes,
      ap (λ (s : List ℕ × List ℕ). s.0) is_sent ∙ sym (take_all (length bytes) bytes (omega arith)),
      ap (λ (s : List ℕ × List ℕ). s.1) is_sent,
    )
sends_all bytes oob (x ∷ xs, c) sent empty e = absurd (cc)

receives_message :
    (k space : ℕ) (s after : List ℕ × List ℕ) (got oob : List ℕ)
    → one_message.read_msg k space s ≡ some (got, oob, after)
    → got ≢ []
    → length s.1 ≤ space
    → (got ≡ take (length got) s.0) × (oob ≡ s.1) × (after.0 ≡ drop (length got) s.0)
receives_message k space s after got oob e some_byte fits =
    let is_got : take k s.0 ≡ got = cc in
    let (a, b) = own_length k s.0 in
    (
      subst (λ l. l ≡ take (length l) s.0) is_got a,
      sym (cc) ∙ take_all space s.1 fits,
      subst (λ l. after.0 ≡ drop (length l) s.0) is_got (cc),
    )

receives_bytes :
    (k : ℕ) (s after : List ℕ × List ℕ) (got : List ℕ)
    → one_message.read k s ≡ some (got, after)
    → (got ≡ take (length got) s.0) × (after.0 ≡ drop (length got) s.0)
receives_bytes k s after got e =
    let is_got : take k s.0 ≡ got = cc in
    let (a, b) = own_length k s.0 in
    (
      subst (λ l. l ≡ take (length l) s.0) is_got a,
      subst (λ l. after.0 ≡ drop (length l) s.0) is_got (cc),
    )

abbrev one_message_flow : Flow one_message
one_message_flow = record { under_way = λ s. s.0; control = λ s. s.1 }

one_message-IsStream : IsStream one_message one_message_flow
one_message-IsStream = record {
  sends = sends_all;
  receives_msg = receives_message;
  receives = receives_bytes;
  decodes = λ p b e. decodes p.sequence p.is_response p.annotations p.bytes b e;
  grants = λ f fds. (f, fds, f ∷ fds, refl, refl, refl);
  room = λ fds few. omega arith;
}

abbrev ping : Payload
ping = record {
  sequence = 3;
  is_response = false;
  annotations = log_annotation ∷ [];
  bytes = 8 ∷ 9 ∷ [];
}

abbrev ping_sent : List ℕ × List ℕ
ping_sent = (0 ∷ 0 ∷ 0 ∷ 5 ∷ 3 ∷ 0 ∷ 1 ∷ 8 ∷ 9 ∷ [], 7 ∷ [])

-- What the frame of `ping` with the file 7 is.
ping_frame : write_wire one_message ping (7 ∷ []) ([], []) ≡ ok ping_sent
unfolding write_wire put_uint32
ping_frame = refl

abbrev ping_bytes : List ℕ
ping_bytes = 3 ∷ 0 ∷ 1 ∷ 8 ∷ 9 ∷ []

write_wire-read_wire_example :
    (ping_bytes ≡ take 5 ping_bytes)
    × (read_wire one_message ping_sent ≡ (
        checked (one_message.unmarshal (filled 5 ping_bytes)) unmarshal_failed >>= λ q.
        ok (q, 7 ∷ [], ([], []))))
    × (length ping_bytes ≡ length ping_bytes
        → (read_wire one_message ping_sent ≡ ok (ping, 7 ∷ [], ([], [])))
          × (◌≡◌ {A = List ℕ} [] []))
write_wire-read_wire_example =
    write_wire-read_wire one_message one_message_flow one_message-IsStream ping (7 ∷ []) ping_bytes
      (0 ∷ 0 ∷ 0 ∷ 5 ∷ []) (7 ∷ []) ping_bytes ([], []) ping_sent (ping_bytes, []) ([], []) refl
      (omega arith) refl (omega arith) ping_frame refl refl refl

-- Two requests; the second is answered, and then a read fails.
abbrev answer : Payload
answer = record { sequence = 2; is_response = true; annotations = []; bytes = 1 ∷ [] }

abbrev inputs : List Input
inputs = request ∷ request ∷ frame (ok (answer, [])) ∷ frame (err read_failed) ∷ []

inputs_run : (run_inputs inputs new_mux).results ≡ (0, closed) ∷ (1, received answer []) ∷ []
unfolding run_inputs step open_session delete_session read_loop loop_runs session_of close_sessions
inputs_run = refl

run_inputs-IsMatched_example :
    let m = run_inputs inputs new_mux in
    ((chan : ℕ) → occurs chan m.results ≤ 1)
    × ((chan : ℕ) (p : Payload) (files : List ℕ)
        → Holds chan (received p files) m.results
        → (p.sequence ≡ suc chan) × (p.is_response ≡ true) × (chan < m.next_channel))
    × ((seq chan : ℕ)
        → session_of seq m.sessions ≡ some chan
        → (seq ≡ suc chan) × (occurs chan m.results ≡ 0))
run_inputs-IsMatched_example = run_inputs-IsMatched inputs (omega arith)

abbrev waiting : Mux
waiting = record new_mux { next_seq = 1; next_channel = 1; sessions = (1, 0) ∷ [] }

read_loop_err_example :
    let m' = read_loop (err read_failed) waiting in
    (m'.done ≡ true)
    × (m'.sessions ≡ [])
    × ((seq chan : ℕ) → session_of seq waiting.sessions ≡ some chan → Holds chan closed m'.results)
    × ((chan : ℕ) (d : Delivery) → Holds chan d [] → Holds chan d m'.results)
read_loop_err_example = read_loop_err read_failed waiting

abbrev ended : Mux
ended = record new_mux { done = true }

request_after_end_example :
    (run_inputs (frame (ok (answer, [])) ∷ []) (open_session ended)).results ≡ []
request_after_end_example = request_after_end (frame (ok (answer, [])) ∷ []) ended refl

abbrev question : Message
question = record { bytes = 1 ∷ []; files = 7 ∷ []; annotations = log_annotation ∷ []; seq = 0 }

abbrev reply : Message
reply = record { bytes = 2 ∷ []; files = []; annotations = []; seq = 0 }

reply_is_delivered_example :
    let opened = open_session new_mux in
    let sent = request_payload opened.next_seq question in
    let arrived = read_loop (ok (sent, question.files)) new_mux in
    let asked = to_message sent question.files in
    let answered = read_loop (ok (response_to asked reply, [])) opened in
    (receive_request true arrived ≡ some (some asked, new_mux))
    × (asked.bytes ≡ 1 ∷ [])
    × (answered.results ≡ (0, received (response_to asked reply) []) ∷ [])
    × (session_of opened.next_seq answered.sessions ≡ none)
unfolding to_message request_payload
reply_is_delivered_example =
    reply_is_delivered new_mux new_mux question reply [] true refl refl refl
