-- ===== src/Cri/Sound.antt =====
-- The state between two calls, and a call of `Enqueue` from it.
use runkube.Common.{ℕ, suc, ◌+◌, ◌<◌, ◌≡◌, refl, ◌≢◌, some, List, [], ◌∷◌, arith}
use runkube.Cri.Model.{Store}
use runkube.Cri.Runtime.{u64_mod, Callback, Runtime, new_runtime}
use runkube.Cri.Runtime.Wait.{AllBelow, IsIdle, enqueue_returns}
use runkube.Cri.Consistent.{IsConsistent, empty_store-IsConsistent}
use runkube.Cri.Service.{ok, await}

-- Nothing is queued, the ticker runs, and the maps are well-formed.
pub record IsSound (r : Runtime) : Type 0 where
  pub idle : IsIdle r
  pub consistent : IsConsistent r.store

pub new_runtime-IsSound : (tick_rate : ℕ) → tick_rate ≢ 0 → IsSound (new_runtime tick_rate)
unfolding new_runtime
new_runtime-IsSound tick_rate ne = record {
  idle = record { ticking = ne; quiet = refl; fresh = tt };
  consistent = empty_store-IsConsistent;
}

-- A change of the maps alone.
abbrev pub with_store : Store → Runtime → Runtime
with_store st r = record r { store = st }

-- Ten ticks later, with other maps.
abbrev pub after_wait : Store → Runtime → Runtime
after_wait st r = record r {
  store = st;
  seq = r.seq + 10;
  events = [];
  next_channel = suc r.next_channel;
  closed = r.next_channel ∷ r.closed;
}

-- There is room for ten more ticks below the bound of the counter.
abbrev pub HasTime : Runtime → Type 0
HasTime r = r.seq + 10 < u64_mod

AllBelow-suc : (n : ℕ) (l : List ℕ) → AllBelow n l → AllBelow (suc n) l
AllBelow-suc n [] h = tt
AllBelow-suc n (x ∷ l) h = (omega arith, AllBelow-suc n l h.1)

module _ (r : Runtime) where
  pub with_store-IsSound : (st : Store) → IsSound r → IsConsistent st → IsSound (with_store st r)
  with_store-IsSound st s c = record {
    idle = record { ticking = s.idle.ticking; quiet = s.idle.quiet; fresh = s.idle.fresh };
    consistent = c;
  }

  pub after_wait-IsSound : (st : Store) → IsSound r → IsConsistent st → IsSound (after_wait st r)
  after_wait-IsSound st s c = record {
    idle = record {
      ticking = s.idle.ticking;
      quiet = refl;
      fresh = (omega arith, AllBelow-suc r.next_channel r.closed s.idle.fresh);
    };
    consistent = c;
  }

  pub await_lem :
      (clock : ℕ → ℕ) (callback : Callback) (st : Store)
      → IsIdle r
      → HasTime r
      → callback clock r.store ≡ some st
      → await clock 10 callback r ≡ (ok tt, after_wait st r)
  unfolding await
  await_lem clock callback st idle small runs =
      rw (enqueue_returns clock 10 callback r st idle small runs)
