-- ===== src/Fdchan/Mux/Histories.antt =====
-- Histories of the multiplexer of pkg/sandbox/fdchan/fdchan.go.
use runkube.Common.{
  ℕ, suc, ◌+◌, ◌^◌, ◌≤◌, ◌<◌, ◌≡◌, refl, true, false, some, List, [], ◌∷◌, length, eqb, eqb_iff,
  if◌then◌else◌, arith, Bool-cases, inl, inr, ◌⊎◌, subst,
}
use runkube.Fdchan.{Payload}
use runkube.Fdchan.Mux.{
  Delivery, received, Mux, new_mux, session_of, abandon, loop_runs, Input, request, write_fails,
  frame, handle, step, run_inputs,
}
use runkube.Fdchan.Mux.Laws.{
  Answers, has_result, ResultsSound, IsMatched, delete-Sound, session-Sound, open_session-IsMatched,
  read_loop-IsMatched, handle_keeps, read_loop-next_channel,
}

step-IsMatched :
    (i : Input) (m : Mux)
    → suc m.next_channel < 2 ^ 64
    → IsMatched m
    → IsMatched (step i m) × ((step i m).next_channel ≤ suc m.next_channel)
unfolding step abandon
step-IsMatched request m room h = (open_session-IsMatched m room h, omega arith)
step-IsMatched (write_fails seq) m room h = (
  record {
    numbered = h.numbered;
    sessions = delete-Sound m.next_channel seq m.results m.sessions h.sessions;
    results = h.results;
  },
  omega arith,
)
step-IsMatched (frame r) m room h = elim (Bool-cases (loop_runs m)) [
  | inl runs ↦ rw runs (read_loop-IsMatched r m h, omega (arith, read_loop-next_channel r m))
  | inr waits ↦ rw waits (h, omega arith)
]
step-IsMatched (handle picks_done) m room h =
    let (a, b, c, d) = handle_keeps picks_done m in
    (
      record {
        numbered = rw (a, c) h.numbered;
        sessions = rw (b, c, d) h.sessions;
        results = rw (c, d) h.results;
      },
      omega (arith, c),
    )

run-IsMatched :
    (inputs : List Input) (m : Mux)
    → m.next_channel + length inputs < 2 ^ 64
    → IsMatched m
    → IsMatched (run_inputs inputs m)
unfolding run_inputs
run-IsMatched [] m room h = h
run-IsMatched (i ∷ inputs) m room h =
    let (h', few) = step-IsMatched i m (omega arith) h in
    run-IsMatched inputs (step i m) (omega arith) h'

abbrev pub occurs : ℕ → List (ℕ × Delivery) → ℕ
occurs chan [] = 0
occurs chan ((c, d) ∷ rest) = if eqb c chan then suc (occurs chan rest) else occurs chan rest

abbrev pub Holds : ℕ → Delivery → List (ℕ × Delivery) → Type 0
Holds chan d [] = ⊥
Holds chan d ((c, e) ∷ rest) = ((c ≡ chan) × (e ≡ d)) ⊎ Holds chan d rest

result-Answers :
    (n chan : ℕ) (d : Delivery) (l : List (ℕ × Delivery))
    → ResultsSound n l
    → Holds chan d l
    → Answers chan d × (chan < n)
result-Answers n chan d [] _ absurd = elim absurd [ ]
result-Answers n chan d ((c, e) ∷ l) (a, b, f, rest) (inl (x, y)) =
    (subst (λ e. Answers chan e) y (subst (λ c. Answers c e) x b), omega arith)
result-Answers n chan d ((c, e) ∷ l) (a, b, f, rest) (inr h) = result-Answers n chan d l rest h

none_occurs : (chan : ℕ) (l : List (ℕ × Delivery)) → has_result chan l ≡ false → occurs chan l ≡ 0
none_occurs chan [] h = refl
none_occurs chan ((c, d) ∷ l) h = ground (arith, none_occurs chan l)

occurs_once : (n chan : ℕ) (l : List (ℕ × Delivery)) → ResultsSound n l → occurs chan l ≤ 1
occurs_once n chan [] h = omega arith
occurs_once n chan ((c, d) ∷ l) (a, b, f, rest) =
    ground (arith, occurs_once n chan l rest, none_occurs c l f, eqb_iff c chan)

-- In every history of a new multiplexer, of fewer than 2 ^ 64 steps: a channel has at most one
-- delivery, and a result on it is a response with the number of the request that made the channel.
-- While a session is open nothing was delivered on its channel.
pub run_inputs-IsMatched :
    (inputs : List Input)
    → length inputs < 2 ^ 64
    → let m = run_inputs inputs new_mux in
      ((chan : ℕ) → occurs chan m.results ≤ 1)
      × ((chan : ℕ) (p : Payload) (files : List ℕ)
          → Holds chan (received p files) m.results
          → (p.sequence ≡ suc chan) × (p.is_response ≡ true) × (chan < m.next_channel))
      × ((seq chan : ℕ)
          → session_of seq m.sessions ≡ some chan
          → (seq ≡ suc chan) × (occurs chan m.results ≡ 0))
run_inputs-IsMatched inputs room =
    let m = run_inputs inputs new_mux in
    let h =
      run-IsMatched inputs new_mux (omega arith)
        (record { numbered = refl; sessions = tt; results = tt }) in
    (
      (λ chan. occurs_once m.next_channel chan m.results h.results),
      (λ chan p files there.
          let ((a, b), c) =
            result-Answers m.next_channel chan (received p files) m.results h.results there in
          (a, b, c)),
      (λ seq chan there.
          let (a, b, c) =
            session-Sound m.next_channel seq chan m.results m.sessions h.sessions there in
          (a, none_occurs chan m.results c)),
    )
