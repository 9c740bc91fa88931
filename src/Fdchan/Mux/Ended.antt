-- ===== src/Fdchan/Mux/Ended.antt =====
-- The multiplexer of pkg/sandbox/fdchan/fdchan.go after the end of its loop.
use runkube.Common.{ℕ, ◌≡◌, refl, ◌∙◌, true, some, List, [], ◌∷◌, arith, inl, inr, eqb, Bool-cases}
use runkube.Fdchan.{err, Fault}
use runkube.Fdchan.Mux.{
  Delivery, closed, session_of, Mux, open_session, abandon, close_sessions, read_loop, loop_runs,
  take_inbound, receive_request, Input, request, write_fails, frame, handle, step, run_inputs,
}
use runkube.Fdchan.Mux.Histories.{Holds}

Holds-later :
    (chan c : ℕ) (d : Delivery) (l : List (ℕ × ℕ)) (results : List (ℕ × Delivery))
    → Holds chan d results
    → Holds chan d (close_sessions l results)
unfolding close_sessions
Holds-later chan c d [] results h = h
Holds-later chan c d ((t, e) ∷ l) results h = Holds-later chan c d l ((e, closed) ∷ results) (inr h)

closes_each :
    (seq chan : ℕ) (l : List (ℕ × ℕ)) (results : List (ℕ × Delivery))
    → session_of seq l ≡ some chan
    → Holds chan closed (close_sessions l results)
unfolding close_sessions session_of
closes_each seq chan [] results e = ground arith
closes_each seq chan ((t, c) ∷ l) results e = elim (Bool-cases (eqb t seq)) [
  | inl same ↦ Holds-later chan c closed l ((c, closed) ∷ results) (inl (ground arith, refl))
  | inr other ↦ closes_each seq chan l ((c, closed) ∷ results) (ground arith)
]

-- When a read fails the loop ends, every open session is closed and none is left, and what was
-- delivered before stays.
pub read_loop_err :
    (e : Fault) (m : Mux)
    → let m' = read_loop (err e) m in
      (m'.done ≡ true)
      × (m'.sessions ≡ [])
      × ((seq chan : ℕ) → session_of seq m.sessions ≡ some chan → Holds chan closed m'.results)
      × ((chan : ℕ) (d : Delivery) → Holds chan d m.results → Holds chan d m'.results)
unfolding read_loop
read_loop_err e m = (
  refl,
  refl,
  (λ seq chan there. closes_each seq chan m.sessions m.results there),
  (λ chan d there. Holds-later chan 0 d m.sessions m.results there),
)

step-ended :
    (i : Input) (m : Mux)
    → m.done ≡ true
    → ((step i m).done ≡ true) × ((step i m).results ≡ m.results)
unfolding step open_session abandon loop_runs receive_request take_inbound
step-ended request m e = (e, refl)
step-ended (write_fails seq) m e = (e, refl)
step-ended (frame r) m e = ground arith
step-ended (handle picks_done) m e = ground arith

run-ended :
    (inputs : List Input) (m : Mux) → m.done ≡ true → (run_inputs inputs m).results ≡ m.results
unfolding run_inputs
run-ended [] m e = refl
run-ended (i ∷ inputs) m e =
    let (still, same) = step-ended i m e in run-ended inputs (step i m) still ∙ same

-- Once the loop has ended, a request whose write succeeds waits forever: whatever follows, no result
-- and no end is ever delivered on any channel.
pub request_after_end :
    (inputs : List Input) (m : Mux)
    → m.done ≡ true
    → (run_inputs inputs (open_session m)).results ≡ m.results
unfolding open_session
request_after_end inputs m e = run-ended inputs (open_session m) e
