-- ===== src/Sandbox/Run/Commands.antt =====
-- The requests of the parent that `run` of pkg/sandbox/sandbox.go answers before the set-up.
use runkube.Common.{
  ◌≡◌, refl, sym, subst, ap, ◌⊎◌, ◌↔◌, inl, inr, true, List, [], ◌∷◌, ◌++◌, arith, eq_iff,
  Bool-cases, All, ◌==◌,
}
use runkube.Sandbox.Run.{Command, serve_commands}

-- A ping or a request for the listener, that was answered.
abbrev pub IsEarlier : Command → Type 0
IsEarlier req = ((req.name ≡ "ping") ⊎ (req.name ≡ "proxy-listener")) × (req.answered ≡ true)

-- The requests start with such ones and then an answered "complete".
abbrev pub Completes : List Command → Type 0
Completes reqs =
    (front : List Command) × (last : Command) × (back : List Command) × (reqs
      ≡ front ++ last ∷ back)
    × All IsEarlier front
    × (last.name ≡ "complete")
    × (last.answered ≡ true)

completes : (reqs : List Command) → (serve_commands reqs).1 ≡ true → Completes reqs
unfolding serve_commands
completes [] e = ground arith
completes (req ∷ rest) e = elim (Bool-cases (req.name == "ping")) [
  | inl ping ↦
      later (inl ((eq_iff req.name "ping").0 ping)) (ground arith) (completes rest (ground arith))
  | inr other ↦ elim (Bool-cases (req.name == "proxy-listener")) [
    | inl proxy ↦
        later (inr ((eq_iff req.name "proxy-listener").0 proxy)) (ground arith)
          (completes rest (ground arith))
    | inr third ↦
        ([], req, rest, refl, tt, ground (arith, eq_iff req.name "complete"), ground arith)
  ]
]
  where
    later :
        ((req.name ≡ "ping") ⊎ (req.name ≡ "proxy-listener"))
        → req.answered ≡ true
        → Completes rest
        → Completes (req ∷ rest)
    later which answered (front, last, back, split, early, name, done) =
        (req ∷ front, last, back, ap (λ l. req ∷ l) split, ((which, answered), early), name, done)

is_served :
    (front : List Command) (last : Command) (back : List Command)
    → All IsEarlier front
    → last.name ≡ "complete"
    → last.answered ≡ true
    → (serve_commands (front ++ last ∷ back)).1 ≡ true
unfolding serve_commands
is_served [] last back early name done = rw (name, done) refl
is_served (req ∷ front) last back ((inl ping, answered), early) name done =
    rw (ping, answered) (is_served front last back early name done)
is_served (req ∷ front) last back ((inr proxy, answered), early) name done =
    rw (proxy, answered) (is_served front last back early name done)

-- The loop ends well, so that the set-up begins, exactly when the parent sends pings and requests for
-- the listener and then "complete", and each of these can be answered. No other request, no request
-- behind an unanswered one, and no end of the connection lets the set-up begin.
pub serve_commands_lem : (reqs : List Command) → ((serve_commands reqs).1 ≡ true) ↔ Completes reqs
serve_commands_lem reqs = (
  completes reqs,
  (λ (front, last, back, split, early, name, done).
      subst (λ l. (serve_commands l).1 ≡ true) (sym split)
        (is_served front last back early name done)),
)
