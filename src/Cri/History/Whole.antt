-- ===== src/Cri/History/Whole.antt =====
-- Whole histories.
use runkube.Common.{ℕ, ◌+◌, ◌*◌, ◌<◌, ◌≡◌, refl, true, List, [], ◌∷◌, arith, All, length}
use runkube.Cri.Objects.{Externals}
use runkube.Cri.Runtime.{u64_mod, Runtime}
use runkube.Cri.Sound.{IsSound, HasTime}
use runkube.Cri.History.{
  Call, run_pod, stop_pod, remove_pod, create, start, stop, drop, pull, evict, elapse, serve,
  serve_all, IsNamed, IsServed,
}
use runkube.Cri.History.Served.{
  run_pod_sandbox-IsServed, stop_pod_sandbox-IsServed, start_container-IsServed,
  stop_container-IsServed, pull_image-IsServed,
}
use runkube.Cri.History.Edited.{
  remove_pod_sandbox-IsServed, create_container-IsServed, remove_container-IsServed,
  remove_image-IsServed, elapse-IsServed,
}

module _ (env : Externals) where
  serve-IsServed :
      (clock : ℕ → ℕ) (call : Call) (r : Runtime)
      → IsSound r
      → HasTime r
      → IsNamed call
      → IsServed r (serve env clock call r)
  unfolding serve
  serve-IsServed clock (run_pod req) r s t n = run_pod_sandbox-IsServed r s env clock t req
  serve-IsServed clock (stop_pod sbid) r s t n = stop_pod_sandbox-IsServed r s env clock t sbid n
  serve-IsServed clock (remove_pod sbid) r s t n = remove_pod_sandbox-IsServed r s env sbid
  serve-IsServed clock (create req) r s t (image, given, named) =
      create_container-IsServed r s env clock req image given named
  serve-IsServed clock (start scid) r s t n = start_container-IsServed r s env clock t scid n
  serve-IsServed clock (stop scid) r s t n = stop_container-IsServed r s env clock t scid n
  serve-IsServed clock (drop scid) r s t n = remove_container-IsServed r s env scid
  serve-IsServed clock (pull picks_done image) r s t n =
      pull_image-IsServed r s env clock t picks_done image n
  serve-IsServed clock (evict image) r s t n = remove_image-IsServed r s image
  serve-IsServed clock elapse r s t n = elapse-IsServed r s clock t

  -- From a sound runtime, however the calls and the ticks between them follow on each other, as
  -- long as the tick counter has room for ten ticks a call and each call names what it is about:
  -- every call is answered, none panics or blocks forever, and the runtime is sound afterwards. So
  -- each entry agrees with its key, `Container` and `ContainerStatus` with each other on the state,
  -- and every container is in a sandbox that exists.
  pub serve_all-IsSound :
      (calls : List ((ℕ → ℕ) × Call)) (r : Runtime)
      → IsSound r
      → r.seq + 10 * length calls < u64_mod
      → All (λ c. IsNamed c.1) calls
      → ((serve_all env calls r).0 ≡ true) × IsSound (serve_all env calls r).1
  unfolding serve_all
  serve_all-IsSound [] r s t n = (refl, s)
  serve_all-IsSound ((clock, call) ∷ calls) r s t n =
      let (answered, s', later) = serve-IsServed clock call r s (omega arith) n.0 in
      let (rest, s'') = serve_all-IsSound calls (serve env clock call r).1 s' (omega arith) n.1 in
      (rw (answered, rest), s'')
