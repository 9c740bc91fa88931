-- ===== src/Fdchan/Mux/Replies.antt =====
-- A request and its reply through the multiplexers of both sides of pkg/sandbox/fdchan/fdchan.go.
use runkube.Common.{
  ℕ, ◌+◌, ◌%◌, ◌^◌, ◌≡◌, refl, Bool, true, false, none, some, List, [], ◌∷◌, eqb_iff, arith,
}
use runkube.Fdchan.{Payload, Message, ok}
use runkube.Fdchan.Mux.{
  received, Mux, session_of, delete_session, open_session, read_loop, to_message, take_inbound,
  receive_request, request_payload, response_to,
}

-- A deleted session is gone.
session_of-delete_session :
    (seq : ℕ) (l : List (ℕ × ℕ)) → session_of seq (delete_session seq l) ≡ none
unfolding session_of delete_session
session_of-delete_session seq [] = refl
session_of-delete_session seq ((s, chan) ∷ l) =
    ground (arith, eqb_iff s seq, session_of-delete_session seq l)

-- What the loop does with the response of an open session.
read_loop_response :
    (p : Payload) (files : List ℕ) (m : Mux) (chan : ℕ)
    → p.is_response ≡ true
    → session_of p.sequence m.sessions ≡ some chan
    → ((read_loop (ok (p, files)) m).results ≡ (chan, received p files) ∷ m.results)
      × (session_of p.sequence (read_loop (ok (p, files)) m).sessions ≡ none)
unfolding read_loop
read_loop_response p files m chan e there =
    (ground arith, ground (arith, session_of-delete_session p.sequence m.sessions))

opened_session :
    (here : Mux)
    → session_of (open_session here).next_seq (open_session here).sessions ≡ some here.next_channel
unfolding open_session session_of
opened_session here = let seq : ℕ = (here.next_seq + 1) % 2 ^ 64 in ground (arith, eqb_iff seq seq)

arrived_request :
    (seq : ℕ) (msg : Message) (peer : Mux) (picks_done : Bool)
    → peer.inbound ≡ []
    → peer.held ≡ none
    → peer.done ≡ false
    → receive_request picks_done (read_loop (ok (request_payload seq msg, msg.files)) peer)
      ≡ some (some (to_message (request_payload seq msg) msg.files), peer)
unfolding read_loop receive_request take_inbound request_payload
arrived_request seq msg peer picks_done empty free running = ground arith

-- A request that is opened and read by the loop of a running peer with no message waiting is the
-- next message that the peer's handler gets, with the bytes that were sent. What its responder then
-- writes is delivered, when the requester's loop reads it, on the channel that was made for the
-- request, and the session is gone.
pub reply_is_delivered :
    (here peer : Mux) (msg reply : Message) (files : List ℕ) (picks_done : Bool)
    → peer.inbound ≡ []
    → peer.held ≡ none
    → peer.done ≡ false
    → let opened = open_session here in
      let sent = request_payload opened.next_seq msg in
      let arrived = read_loop (ok (sent, msg.files)) peer in
      let asked = to_message sent msg.files in
      let answered = read_loop (ok (response_to asked reply, files)) opened in
      (receive_request picks_done arrived ≡ some (some asked, peer))
      × (asked.bytes ≡ msg.bytes)
      × (answered.results
          ≡ (here.next_channel, received (response_to asked reply) files) ∷ here.results)
      × (session_of opened.next_seq answered.sessions ≡ none)
unfolding to_message request_payload response_to open_session
reply_is_delivered here peer msg reply files picks_done empty free running =
    let opened = open_session here in
    let asked = to_message (request_payload opened.next_seq msg) msg.files in
    let (delivered, gone) =
      read_loop_response (response_to asked reply) files opened here.next_channel refl
        (opened_session here) in
    (arrived_request opened.next_seq msg peer picks_done empty free running, refl, delivered, gone)
