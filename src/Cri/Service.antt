-- ===== src/Cri/Service.antt =====
-- pkg/cri/cri.go: the state and the replies of `BuiltinCRIRuntime`. Every handler of this model
-- holds `b.mu` from its first read to its reply, also while `Enqueue` blocks, so handlers do not
-- overlap: each is a function from the runtime before to its reply and the runtime after.
use runkube.Common.{
  ℕ, String, Bool, true, false, Option, none, some, List, [], ◌∷◌, join, join-ne-empty, ◌++◌, ◌≢◌,
}
use runkube.Cri.Objects.{Externals}
use runkube.Cri.Model.{Store}
use runkube.Cri.Runtime.{Callback, Runtime, Run, done, panicked, blocked, enqueue}

-- The status codes; `cancelled` stands for `ctx.Err()`. The messages are left out.
pub data Code : Type 0 where
  invalid_argument not_found already_exists cancelled : Code

pub data Reply {ℓ} (A : Type ℓ) : Type ℓ where
  ok : A → Reply A
  err : Code → Reply A
  -- A nil dereference, in the handler or in its callback.
  panic : Reply A
  -- The handler does not return.
  hang : Reply A

abbrev pub Handler : Type 0 → Type 0
Handler A = Runtime → Reply A × Runtime

-- The first reply other than `ok` ends the handler.
abbrev pub continue {ℓ} :
    {A : Type 0} {B : Type ℓ}
    → Reply A
    → Runtime
    → (A → Runtime → Reply B × Runtime)
    → Reply B × Runtime
continue (ok a) r k = k a r
continue (err c) r k = (err c, r)
continue panic r k = (panic, r)
continue hang r k = (hang, r)

infixl 5 ◌>>=◌ ◌>>◌
abbrev pub ◌>>=◌ : {A B : Type 0} → Handler A → (A → Handler B) → Handler B
◌>>=◌ m k r = let (reply, r') = m r in continue reply r' k

abbrev pub ◌>>◌ : {B : Type 0} → Handler (Unit {0}) → Handler B → Handler B
m >> k = m >>= λ _. k

abbrev pub pure : {A : Type 0} → A → Handler A
pure a r = (ok a, r)

-- `if !test { return code }`
abbrev pub require : Bool → Code → Handler (Unit {0})
require true c r = (ok tt, r)
require false c r = (err c, r)

-- `v, ok := …; if !ok { return code }`
abbrev pub found : {A : Type 0} → Option A → Code → Handler A
found none c r = (err c, r)
found (some a) c r = (ok a, r)

-- A value that a nil dereference may keep from being computed.
abbrev pub deref : {A : Type 0} → Option A → Handler A
deref none r = (panic, r)
deref (some a) r = (ok a, r)

-- A read of the maps.
abbrev pub query : {A : Type 0} → (Store → A) → Handler A
query f r = (ok (f r.store), r)

-- An update of the maps.
abbrev pub modify : (Store → Store) → Handler (Unit {0})
modify f r = (ok tt, record r { store = f r.store })

abbrev finish : Runtime → Run Runtime → Reply (Unit {0}) × Runtime
finish r (done r') = (ok tt, r')
finish r panicked = (panic, r)
finish r blocked = (hang, r)

-- `b.runtime.Enqueue(delay, callback)`
unfoldable pub await : (ℕ → ℕ) → ℕ → Callback → Handler (Unit {0})
await clock delay callback r = finish r (enqueue clock delay callback r)

-- The reading of the clock is the first of the handler's.
unfoldable pub uniq_id : Externals → ℕ → List String → String
uniq_id env now parts = join (parts ++ env.format_time now ∷ []) "-"

pub uniq_id-ne-empty :
    (env : Externals) (now : ℕ) (x y : String) (rest : List String)
    → x ≢ ""
    → uniq_id env now (x ∷ y ∷ rest) ≢ ""
unfolding uniq_id
uniq_id-ne-empty env now x y rest ne = join-ne-empty x y (rest ++ env.format_time now ∷ []) "-" ne
