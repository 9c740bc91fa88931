-- ===== src/Sandbox/Run/Endings.antt =====
-- How `run` of pkg/sandbox/sandbox.go ends.
use runkube.Common.{
  ◌≡◌, refl, sym, ap, ◌≢◌, ◌⊎◌, inl, inr, String, none, some, List, [], ◌∷◌, ◌++◌, arith,
  Option-cases, subst,
}
use runkube.Sandbox.{Call, exec, mount, System, Failure, Progress, Config, root_dir, try_calls}
use runkube.Sandbox.Run.{
  Ending, executed, returned, set_up, start_command, after_mount, run, fs_root,
}
use runkube.Sandbox.Run.Complete.{set_up_calls, set_up-calls}
use runkube.Sandbox.Run.Setup.{IsClean, IsCutAt, Chained, IsChained, set_up-IsChained}

-- The call that starts the command.
abbrev pub command_call : Config → Call
command_call c = exec c.command (c.env ++ "HTTPS_PROXY=127.0.0.1:8443" ∷ [])

-- What the end of a run says of the calls that were made, the last first.
abbrev pub EndsAs : System → Config → Ending × List Call → Type 0
EndsAs system c out =
    let whole = set_up_calls system c in
    ((out.0 ≡ executed)
      × (out.1 ≡ command_call c ∷ whole)
      × (system.answer whole (command_call c) ≡ none)
      × IsClean system whole)
    ⊎ ((f : Failure) × (out.0 ≡ returned f)
        × (IsCutAt system f.cause out.1
            ⊎ ((c.command ≡ []) × (out.1 ≡ whole) × IsClean system whole)
            ⊎ ((out.1 ≡ command_call c ∷ whole)
                × (system.answer whole (command_call c) ≡ some f.cause)
                × IsClean system whole)))

command_cases : (l : List String) → (l ≡ []) ⊎ (l ≢ [])
command_cases [] = inl refl
command_cases (x ∷ xs) = inr (λ e. cc)

module _ (system : System) (c : Config) where
  start_failed :
      (s : Progress) (f : Failure)
      → s.last_error ≡ some f
      → start_command system c s ≡ (returned f, s.trace)
  unfolding start_command
  start_failed s f e = ground arith

  start_none :
      (s : Progress)
      → s.last_error ≡ none
      → c.command ≡ []
      → start_command system c s
        ≡ (returned (record { tag = "config.Command"; cause = "not set" }), s.trace)
  unfolding start_command
  start_none s e n = ground arith

  start_ok :
      (s : Progress)
      → s.last_error ≡ none
      → c.command ≢ []
      → system.answer s.trace (command_call c) ≡ none
      → start_command system c s ≡ (executed, command_call c ∷ s.trace)
  unfolding start_command try_calls
  start_ok s e n h = ground arith

  start_bad :
      (s : Progress) (cause : String)
      → s.last_error ≡ none
      → c.command ≢ []
      → system.answer s.trace (command_call c) ≡ some cause
      → start_command system c s
        ≡ (returned (record { tag = "unix.Exec"; cause = cause }), command_call c ∷ s.trace)
  unfolding start_command try_calls
  start_bad s cause e n h = ground arith

  start_command_lem :
      (s : Progress)
      → IsChained system s
      → (s.last_error ≡ none → s.trace ≡ set_up_calls system c)
      → EndsAs system c (start_command system c s)
  start_command_lem s h complete = elim (Option-cases s.last_error) [
    | inr (f, e) ↦
        subst (EndsAs system c) (sym (start_failed s f e))
          (inr (f, refl, inl (subst (λ o. Chained system o s.trace) e h)))
    | inl e ↦
        let whole = complete e in
        let clean : IsClean system (set_up_calls system c) =
          subst (IsClean system) whole (subst (λ o. Chained system o s.trace) e h) in
        elim (command_cases c.command) [
          | inl n ↦
              subst (EndsAs system c) (sym (start_none s e n))
                (inr (_, refl, inr (inl (n, whole, clean))))
          | inr given ↦ elim (Option-cases (system.answer s.trace (command_call c))) [
            | inl good ↦ subst (EndsAs system c) (sym (start_ok s e given good)) (
                inl (
                  refl,
                  ap (λ t. command_call c ∷ t) whole,
                  subst (λ t. system.answer t (command_call c) ≡ none) whole good,
                  clean,
                ))
            | inr (cause, bad) ↦ subst (EndsAs system c) (sym (start_bad s cause e given bad)) (
                inr (
                  _,
                  refl,
                  inr (
                      inr (
                        ap (λ t. command_call c ∷ t) whole,
                        subst (λ t. system.answer t (command_call c) ≡ some cause) whole bad,
                        clean,
                      )),
                ))
          ]
        ]
  ]

  abbrev mounted : Progress
  mounted = record { last_error = none; trace = mount fs_root "tmpfs" root_dir ∷ [] }

  abbrev first_mount : Call
  first_mount = mount fs_root "tmpfs" root_dir

  try_good :
      system.answer [] first_mount ≡ none
      → try_calls system (first_mount ∷ []) [] ≡ (none, first_mount ∷ [])
  unfolding try_calls
  try_good e = ground arith

  try_bad :
      (cause : String)
      → system.answer [] first_mount ≡ some cause
      → try_calls system (first_mount ∷ []) [] ≡ (some cause, first_mount ∷ [])
  unfolding try_calls
  try_bad cause e = ground arith

  run_good :
      system.answer [] first_mount ≡ none
      → run system c ≡ start_command system c (set_up system c mounted)
  unfolding run after_mount
  run_good e = ap (after_mount system c) (try_good e)

  run_bad :
      (cause : String)
      → system.answer [] first_mount ≡ some cause
      → run system c ≡ (returned (record { tag = "mount tmpfs"; cause = cause }), first_mount ∷ [])
  unfolding run after_mount
  run_bad cause e = ap (after_mount system c) (try_bad cause e)

  -- The set-up ends in one of these ways, by the calls that were made. The command took the place of
  -- the process, as the last call, behind all calls of the set-up in their order (`set_up_calls`: the
  -- host name, the mounts, the payload, the files in /etc, the network link and the change of root),
  -- which all succeeded. Or the error that is returned is that of the last call, behind calls that
  -- all succeeded, in the set-up or at the start of the command behind the whole set-up. Or the whole
  -- set-up succeeded and there is no command. So nothing runs behind a step that failed, and the
  -- command starts only in a sandbox that is set up.
  pub run_lem : EndsAs system c (run system c)
  run_lem = elim (Option-cases (system.answer [] first_mount)) [
    | inr (cause, bad) ↦
        subst (EndsAs system c) (sym (run_bad cause bad)) (inr (_, refl, inl (bad, refl, tt)))
    | inl good ↦ subst (EndsAs system c) (sym (run_good good)) (
        start_command_lem (set_up system c mounted)
          (set_up-IsChained system c mounted (good, refl, tt)) (set_up-calls system c mounted refl))
  ]
