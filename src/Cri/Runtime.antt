-- ===== src/Cri/Runtime.antt =====
-- pkg/cri/model/model.go: the discrete event queue. `Enqueue` blocks until its event has run, so a
-- call is the ticks that pass until its channel is closed.
use runkube.Common.{
  ℕ, zero, suc, ◌+◌, ◌%◌, ◌^◌, Bool, true, false, not, ◌||◌, Option, none, some, List, [], ◌∷◌,
  ◌++◌, select, leb, eqb, if◌then◌else◌,
}
use runkube.Cri.Model.{Store, empty_store}
pub mod Wait

-- The values of a uint64.
abbrev pub u64_mod : ℕ
u64_mod = 2 ^ 64

-- A callback reads the clock, once for each argument of the function, and updates the maps. `none`
-- is a panic.
abbrev pub Callback : Type 0
Callback = (ℕ → ℕ) → Store → Option Store

-- `done` is the channel that is closed after the callback.
pub record Event : Type 0 where
  pub sequence : ℕ
  pub callback : Callback
  pub channel : ℕ

-- Channels are numbered in the order in which they are made; `closed` lists the closed ones.
pub record Runtime : Type 0 where
  pub store : Store
  pub tick_rate : ℕ
  pub seq : ℕ
  pub events : List Event
  pub next_channel : ℕ
  pub closed : List ℕ

-- `blocked` is a call that does not return.
pub data Run {ℓ} (A : Type ℓ) : Type ℓ where
  done : A → Run A
  panicked blocked : Run A

infixl 5 ◌>>=◌
abbrev pub ◌>>=◌ {ℓ κ} : {A : Type ℓ} {B : Type κ} → Run A → (A → Run B) → Run B
done a >>= k = k a
panicked >>= k = panicked
blocked >>= k = blocked

unfoldable pub new_runtime : ℕ → Runtime
new_runtime tick_rate = record {
  store = empty_store;
  tick_rate = tick_rate;
  seq = 0;
  events = [];
  next_channel = 0;
  closed = [];
}

unfoldable pub is_closed : ℕ → List ℕ → Bool
is_closed c [] = false
is_closed c (d ∷ ds) = eqb d c || is_closed c ds

unfoldable pub is_due : ℕ → Event → Bool
is_due now ev = leb ev.sequence now

unfoldable pub run_events : (ℕ → ℕ) → List Event → Runtime → Run Runtime
run_events clock [] r = done r
run_events clock (ev ∷ evs) r = elim (ev.callback clock r.store) [
  | none ↦ panicked
  | some st ↦ run_events clock evs (record r { store = st; closed = ev.channel ∷ r.closed })
]

-- One round of `runSimulation`.
unfoldable pub tick : (ℕ → ℕ) → Runtime → Run Runtime
unfolding is_due
tick clock r =
    let seq : ℕ = (r.seq + 1) % u64_mod in
    run_events clock (select (is_due seq) r.events)
      (record r { seq = seq; events = select (λ ev. not (is_due seq ev)) r.events })

-- `<-done`, with a tick for each round of fuel. Nothing ticks where the rate is 0.
unfoldable pub wait : (ℕ → ℕ) → ℕ → ℕ → Runtime → Run Runtime
wait clock zero channel r = blocked
wait clock (suc fuel) channel r =
    let later : Run Runtime = tick clock r >>= wait clock fuel channel in
    if is_closed channel r.closed then done r else if eqb r.tick_rate 0 then blocked else later

unfoldable pub schedule : ℕ → Callback → Runtime → Runtime
schedule delay_ticks callback r = record r {
  events = r.events ++ ev ∷ [];
  next_channel = suc r.next_channel;
}
  where
    ev : Event
    ev = record {
      sequence = (r.seq + delay_ticks) % u64_mod;
      callback = callback;
      channel = r.next_channel;
    }

-- The fuel is enough: `enqueue_returns` in Wait.
unfoldable pub enqueue : (ℕ → ℕ) → ℕ → Callback → Runtime → Run Runtime
unfolding schedule
enqueue clock delay_ticks callback r =
    wait clock (delay_ticks + 2) r.next_channel (schedule delay_ticks callback r)
