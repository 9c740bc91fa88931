-- ===== src/Cri/Runtime/Wait.antt =====
-- How long `Enqueue` blocks, and what has run when it returns.
use runkube.Common.{
  ℕ, zero, suc, ◌+◌, ◌%◌, ◌≤◌, ◌<◌, ◌≡◌, refl, ◌⊎◌, inl, inr, ◌≢◌, false, some, List, [], ◌∷◌, All,
  max, arith,
}
use runkube.Cri.Model.{Store}
use runkube.Cri.Runtime.{
  u64_mod, Callback, Event, Runtime, done, is_closed, run_events, tick, wait, schedule, enqueue,
}

abbrev pub AllBelow : ℕ → List ℕ → Type 0
AllBelow n = All (λ c. c < n)

pub is_closed_below : (c n : ℕ) (ds : List ℕ) → n ≤ c → AllBelow n ds → is_closed c ds ≡ false
unfolding is_closed
is_closed_below c n [] le h = refl
is_closed_below c n (d ∷ ds) le h = ground (arith, is_closed_below c n ds le h.1)

-- Nothing is queued, the ticker runs, and the next channel is not closed yet.
pub record IsIdle (r : Runtime) : Type 0 where
  pub ticking : r.tick_rate ≢ 0
  pub quiet : r.events ≡ []
  pub fresh : AllBelow r.next_channel r.closed

module _ (clock : ℕ → ℕ) where
  -- A tick before the event's time only counts.
  tick_early :
      (r : Runtime) (ev : Event)
      → r.events ≡ ev ∷ []
      → r.seq + 1 < u64_mod
      → r.seq + 1 < ev.sequence
      → tick clock r ≡ done (record r { seq = r.seq + 1; events = ev ∷ [] })
  unfolding tick run_events
  tick_early r ev one small early = ground arith

  -- The tick that reaches the event's time takes it off the queue and runs it.
  tick_due :
      (r : Runtime) (ev : Event) (st : Store)
      → r.events ≡ ev ∷ []
      → r.seq + 1 < u64_mod
      → ev.sequence ≤ r.seq + 1
      → ev.callback clock r.store ≡ some st
      → tick clock r
        ≡ done
            (record r { store = st; seq = r.seq + 1; events = []; closed = ev.channel ∷ r.closed })
  unfolding tick run_events
  tick_due r ev st one small due runs = ground arith

  wait_one :
      (n fuel : ℕ) (r : Runtime) (ev : Event) (st : Store)
      → r.events ≡ ev ∷ []
      → r.tick_rate ≢ 0
      → is_closed ev.channel r.closed ≡ false
      → r.seq + suc n < u64_mod
      → ev.sequence ≤ r.seq + suc n
      → (n ≡ 0) ⊎ (r.seq + n < ev.sequence)
      → suc n < fuel
      → ev.callback clock r.store ≡ some st
      → wait clock fuel ev.channel r
        ≡ done (record r {
          store = st;
          seq = r.seq + suc n;
          events = [];
          closed = ev.channel ∷ r.closed;
        })
  unfolding wait is_closed
  wait_one zero (suc (suc fuel)) r ev st one ticking shut small last early enough runs =
      ground (arith, tick_due r ev st one (omega arith) (omega arith) runs)
  wait_one (suc n) (suc fuel) r ev st one ticking shut small last early enough runs =
      let r' : Runtime = record r { seq = r.seq + 1; events = ev ∷ [] } in
      ground (
        arith,
        tick_early r ev one (omega arith) (omega arith),
        wait_one n fuel r' ev st refl ticking shut (omega arith) (omega arith) (inr (omega arith))
            (omega arith) runs,
      )
  wait_one _ _ r ev st one ticking shut small last early enough runs = absurd (omega arith)

  wait_new :
      (n delay fuel : ℕ) (callback : Callback) (r : Runtime) (st : Store)
      → IsIdle r
      → r.seq + suc n < u64_mod
      → delay ≤ suc n
      → (n ≡ 0) ⊎ (n < delay)
      → suc n < fuel
      → callback clock r.store ≡ some st
      → wait clock fuel r.next_channel (schedule delay callback r)
        ≡ done (record r {
          store = st;
          seq = r.seq + suc n;
          events = [];
          next_channel = suc r.next_channel;
          closed = r.next_channel ∷ r.closed;
        })
  unfolding schedule
  wait_new n delay fuel callback r st idle small last early enough runs =
      let ev : Event = record {
        sequence = (r.seq + delay) % u64_mod;
        callback = callback;
        channel = r.next_channel;
      } in
      wait_one n fuel (schedule delay callback r) ev st (rw idle.quiet) idle.ticking
        (is_closed_below r.next_channel r.next_channel r.closed (omega arith) idle.fresh) small
        (omega arith) (ground arith) enough runs

  -- `Enqueue` on an idle runtime whose tick counter has room for the delay, of a callback that does
  -- not panic, returns after exactly `delay` ticks (one tick for a delay of 0), with its callback
  -- run once on the maps and the queue empty again.
  pub enqueue_returns :
      (delay : ℕ) (callback : Callback) (r : Runtime) (st : Store)
      → IsIdle r
      → r.seq + max 1 delay < u64_mod
      → callback clock r.store ≡ some st
      → enqueue clock delay callback r
        ≡ done (record r {
          store = st;
          seq = r.seq + max 1 delay;
          events = [];
          next_channel = suc r.next_channel;
          closed = r.next_channel ∷ r.closed;
        })
  unfolding enqueue
  enqueue_returns zero callback r st idle small runs =
      wait_new 0 0 2 callback r st idle (omega arith) (omega arith) (inl refl) (omega arith) runs
  enqueue_returns (suc d) callback r st idle small runs =
      let e : max 1 (suc d) ≡ suc d = omega arith in
      rw e (
        wait_new d (suc d) (suc d + 2) callback r st idle (omega arith) (omega arith)
          (inr (omega arith)) (omega arith) runs)
