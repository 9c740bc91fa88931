-- ===== src/Fdchan/Mux/Laws.antt =====
-- The sessions of the multiplexer of pkg/sandbox/fdchan/fdchan.go: who gets which response.
use runkube.Common.{
  ℕ, suc, ◌+◌, ◌%◌, ◌^◌, ◌<◌, ◌≡◌, refl, Bool, true, false, ◌||◌, none, some, List, [], ◌∷◌, length,
  ltb, eqb, eqb_iff, arith, Option-cases, Bool-cases, inl, inr,
}
use runkube.Fdchan.{Payload, Outcome, ok, err}
use runkube.Fdchan.Mux.{
  Delivery, received, closed, Mux, session_of, delete_session, open_session, close_sessions,
  read_loop, take_inbound, receive_request, handle, step,
}

-- A result answers the request that made the channel: it is a response with that request's number.
abbrev pub Answers : ℕ → Delivery → Type 0
Answers chan (received p files) = (p.sequence ≡ suc chan) × (p.is_response ≡ true)
Answers chan closed = Unit

-- No channel has two deliveries.
abbrev pub has_result : ℕ → List (ℕ × Delivery) → Bool
has_result chan [] = false
has_result chan ((c, d) ∷ rest) = eqb c chan || has_result chan rest

-- Each session has the channel that was made with it and no delivery yet, and no other session its
-- number.
abbrev pub SessionsSound : ℕ → List (ℕ × Delivery) → List (ℕ × ℕ) → Type 0
SessionsSound n results [] = Unit
SessionsSound n results ((seq, chan) ∷ rest) =
    (seq ≡ suc chan)
    × (chan < n)
    × (has_result chan results ≡ false)
    × (session_of seq rest ≡ none)
    × SessionsSound n results rest

abbrev pub ResultsSound : ℕ → List (ℕ × Delivery) → Type 0
ResultsSound n [] = Unit
ResultsSound n ((chan, d) ∷ rest) =
    (chan < n) × Answers chan d × (has_result chan rest ≡ false) × ResultsSound n rest

pub record IsMatched (m : Mux) : Type 0 where
  pub numbered : m.next_seq ≡ m.next_channel
  pub sessions : SessionsSound m.next_channel m.results m.sessions
  pub results : ResultsSound m.next_channel m.results

sessions-widen :
    (n : ℕ) (results : List (ℕ × Delivery)) (l : List (ℕ × ℕ))
    → SessionsSound n results l
    → SessionsSound (suc n) results l
sessions-widen n results [] h = tt
sessions-widen n results ((seq, chan) ∷ l) (a, b, c, d, e) =
    (a, omega arith, c, d, sessions-widen n results l e)

results-widen : (n : ℕ) (l : List (ℕ × Delivery)) → ResultsSound n l → ResultsSound (suc n) l
results-widen n [] h = tt
results-widen n ((chan, d) ∷ l) (a, b, c, e) = (omega arith, b, c, results-widen n l e)

-- A number that was not given yet has no session and no result.
fresh_session :
    (n : ℕ) (results : List (ℕ × Delivery)) (l : List (ℕ × ℕ))
    → SessionsSound n results l
    → (session_of (suc n) l ≡ none) × (delete_session (suc n) l ≡ l)
unfolding session_of delete_session
fresh_session n results [] h = (refl, refl)
fresh_session n results ((seq, chan) ∷ l) (a, b, c, d, e) =
    let (f, g) = fresh_session n results l e in
    (ground (arith, eqb_iff seq (suc n)), ground (arith, eqb_iff seq (suc n)))

fresh_result : (n : ℕ) (l : List (ℕ × Delivery)) → ResultsSound n l → has_result n l ≡ false
fresh_result n [] h = refl
fresh_result n ((chan, d) ∷ l) (a, b, c, e) = ground (arith, eqb_iff chan n, fresh_result n l e)

session_of-delete :
    (s seq : ℕ) (l : List (ℕ × ℕ))
    → session_of s l ≡ none
    → session_of s (delete_session seq l) ≡ none
unfolding session_of delete_session
session_of-delete s seq [] h = refl
session_of-delete s seq ((t, chan) ∷ l) h =
    ground (arith, eqb_iff t s, eqb_iff t seq, session_of-delete s seq l)

pub delete-Sound :
    (n seq : ℕ) (results : List (ℕ × Delivery)) (l : List (ℕ × ℕ))
    → SessionsSound n results l
    → SessionsSound n results (delete_session seq l)
unfolding delete_session
delete-Sound n seq results [] h = tt
delete-Sound n seq results ((t, chan) ∷ l) (a, b, c, d, e) =
    ground (arith, delete-Sound n seq results l e, session_of-delete t seq l d)

-- The session of a number, with what is known of its channel.
pub session-Sound :
    (n seq chan : ℕ) (results : List (ℕ × Delivery)) (l : List (ℕ × ℕ))
    → SessionsSound n results l
    → session_of seq l ≡ some chan
    → (seq ≡ suc chan) × (chan < n) × (has_result chan results ≡ false)
unfolding session_of
session-Sound n seq chan results [] h e = ground arith
session-Sound n seq chan results ((t, c) ∷ l) (a, b, f, d, rest) e = elim (Bool-cases (eqb t seq)) [
  | inl same ↦ ground (arith, eqb_iff t seq)
  | inr other ↦ session-Sound n seq chan results l rest (ground arith)
]

-- The sessions that are left are sound for the results with one on the channel that was removed.
deliver-Sound :
    (n chan : ℕ) (d : Delivery) (results : List (ℕ × Delivery)) (l : List (ℕ × ℕ))
    → SessionsSound n results l
    → SessionsSound n ((chan, d) ∷ results) (delete_session (suc chan) l)
unfolding delete_session
deliver-Sound n chan d results [] h = tt
deliver-Sound n chan d results ((t, c) ∷ l) (a, b, f, g, rest) = ground (
  arith,
  deliver-Sound n chan d results l rest,
  session_of-delete t (suc chan) l g,
  eqb_iff t (suc chan),
  eqb_iff chan c,
)

close_one-Sound :
    (n chan : ℕ) (d : Delivery) (results : List (ℕ × Delivery)) (l : List (ℕ × ℕ))
    → session_of (suc chan) l ≡ none
    → SessionsSound n results l
    → SessionsSound n ((chan, d) ∷ results) l
unfolding session_of
close_one-Sound n chan d results [] e h = tt
close_one-Sound n chan d results ((t, c) ∷ l) e (a, b, f, g, rest) = ground (
  arith,
  close_one-Sound n chan d results l (ground arith) rest,
  eqb_iff t (suc chan),
  eqb_iff chan c,
)

close-Sound :
    (n : ℕ) (results : List (ℕ × Delivery)) (l : List (ℕ × ℕ))
    → SessionsSound n results l
    → ResultsSound n results
    → ResultsSound n (close_sessions l results)
unfolding close_sessions
close-Sound n results [] s r = r
close-Sound n results ((t, c) ∷ l) (a, b, f, g, rest) r =
    let left : SessionsSound n ((c, closed) ∷ results) l =
      close_one-Sound n c closed results l (ground arith) rest in
    close-Sound n ((c, closed) ∷ results) l left (b, tt, f, r)

pub open_session-IsMatched :
    (m : Mux) → suc m.next_channel < 2 ^ 64 → IsMatched m → IsMatched (open_session m)
unfolding open_session
open_session-IsMatched m room h =
    let (none_open, kept) = fresh_session m.next_channel m.results m.sessions h.sessions in
    let seq : (m.next_seq + 1) % 2 ^ 64 ≡ suc m.next_channel = omega (arith, h.numbered) in
    record {
      numbered = seq;
      sessions = ground (
        arith,
        fresh_result m.next_channel m.results h.results,
        sessions-widen m.next_channel m.results m.sessions h.sessions,
      );
      results = results-widen m.next_channel m.results h.results;
    }

pub read_loop-IsMatched :
    (r : Outcome (Payload × List ℕ)) (m : Mux) → IsMatched m → IsMatched (read_loop r m)
unfolding read_loop
read_loop-IsMatched (err e) m h = record {
  numbered = h.numbered;
  sessions = tt;
  results = close-Sound m.next_channel m.results m.sessions h.sessions h.results;
}
read_loop-IsMatched (ok (p, files)) m h = elim (Bool-cases p.is_response) [
  | inl response ↦ elim (Option-cases (session_of p.sequence m.sessions)) [
    | inl unknown ↦
        rw (response, unknown)
          (record { numbered = h.numbered; sessions = h.sessions; results = h.results })
    | inr (chan, there) ↦
        (let (a, b, f) =
            session-Sound m.next_channel p.sequence chan m.results m.sessions h.sessions there in
          rw (response, there)
            (record {
              numbered = h.numbered;
              sessions = rw a (
                  deliver-Sound m.next_channel chan (received p files) m.results m.sessions
                    h.sessions);
              results = (b, (a, response), f, h.results);
            }))
  ]
  | inr asks ↦ elim (Bool-cases (ltb (length m.inbound) 128)) [
    | inl room ↦
        rw (asks, room)
          (record { numbered = h.numbered; sessions = h.sessions; results = h.results })
    | inr full ↦
        rw (asks, full)
          (record { numbered = h.numbered; sessions = h.sessions; results = h.results })
  ]
]

pub handle_keeps :
    (picks_done : Bool) (m : Mux)
    → ((step (handle picks_done) m).next_seq ≡ m.next_seq)
      × ((step (handle picks_done) m).sessions ≡ m.sessions)
      × ((step (handle picks_done) m).next_channel ≡ m.next_channel)
      × ((step (handle picks_done) m).results ≡ m.results)
unfolding step receive_request take_inbound
handle_keeps picks_done m = (ground arith, ground arith, ground arith, ground arith)

pub read_loop-next_channel :
    (r : Outcome (Payload × List ℕ)) (m : Mux) → (read_loop r m).next_channel ≡ m.next_channel
unfolding read_loop
read_loop-next_channel (err e) m = refl
read_loop-next_channel (ok (p, files)) m = ground arith
