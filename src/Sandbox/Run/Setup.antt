-- ===== src/Sandbox/Run/Setup.antt =====
-- No step of the set-up of pkg/sandbox/sandbox.go runs behind one that failed.
use runkube.Common.{
  ℕ, ◌≡◌, refl, sym, ◌∙◌, inl, inr, String, Bool, true, false, Option, none, some, List, [], ◌∷◌,
  arith, Bool-cases, Option-cases, ◌==◌, if◌then◌else◌, All, subst,
}
use runkube.Sandbox.{
  FsType, Call, exec, stat, System, Failure, Progress, Payload, Config, try_calls, attempt,
  set_hostname, link_up, pivot, write, mount_at, bind, place,
}
use runkube.Sandbox.Run.{set_up}

-- The call that replaces the process.
abbrev pub is_exec : Call → Bool
is_exec (exec command env) = true
is_exec _ = false

module _ (system : System) where
  -- Each of the calls succeeded, and none of them was the command.
  abbrev pub IsClean : List Call → Type 0
  IsClean [] = Unit
  IsClean (c ∷ trace) = (system.answer trace c ≡ none) × (is_exec c ≡ false) × IsClean trace

  -- The last call failed, with that cause, behind calls that succeeded.
  abbrev pub IsCutAt : String → List Call → Type 0
  IsCutAt cause [] = ⊥
  IsCutAt cause (c ∷ trace) =
      (system.answer trace c ≡ some cause) × (is_exec c ≡ false) × IsClean trace

  abbrev pub Chained : Option Failure → List Call → Type 0
  Chained none trace = IsClean trace
  Chained (some f) trace = IsCutAt f.cause trace

  abbrev pub IsChained : Progress → Type 0
  IsChained s = Chained s.last_error s.trace

  abbrev Tried : Option String × List Call → Type 0
  Tried (none, trace) = IsClean trace
  Tried (some e, trace) = IsCutAt e trace

  abbrev PlainCall : Call → Type 0
  PlainCall c = is_exec c ≡ false

  try_calls-Tried :
      (calls trace : List Call)
      → All PlainCall calls
      → IsClean trace
      → Tried (try_calls system calls trace)
  unfolding try_calls
  try_calls-Tried [] trace plain h = h
  try_calls-Tried (c ∷ calls) trace plain h = elim (Option-cases (system.answer trace c)) [
    | inl good ↦
        let same : try_calls system (c ∷ calls) trace ≡ try_calls system calls (c ∷ trace) =
          ground arith in
        subst Tried (sym same) (try_calls-Tried calls (c ∷ trace) plain.1 (good, plain.0, h))
    | inr (e, bad) ↦
        let same : try_calls system (c ∷ calls) trace ≡ (some e, c ∷ trace) = ground arith in
        subst Tried (sym same) (bad, plain.0, h)
  ]

  abbrev recorded : String → Option String × List Call → Progress
  recorded tag (none, trace) = record { last_error = none; trace = trace }
  recorded tag (some e, trace) = record {
    last_error = some (record { tag = tag; cause = e });
    trace = trace;
  }

  attempt_eq :
      (tag : String) (calls : List Call) (s : Progress)
      → attempt system tag calls s
        ≡ elim s.last_error [ some f ↦ s | none ↦ recorded tag (try_calls system calls s.trace) ]
  unfolding attempt
  attempt_eq tag calls s = elim (Option-cases s.last_error) [
    | inr (f, e) ↦ ground arith
    | inl e ↦ elim (Option-cases (try_calls system calls s.trace).0) [
      | inl ok_so_far ↦ ground arith
      | inr (cause, bad) ↦ ground arith
    ]
  ]

  recorded-IsChained :
      (tag : String) (out : Option String × List Call) → Tried out → IsChained (recorded tag out)
  recorded-IsChained tag (none, trace) h = h
  recorded-IsChained tag (some e, trace) h = h

  attempt-IsChained :
      (tag : String) (calls : List Call) (s : Progress)
      → All PlainCall calls
      → IsChained s
      → IsChained (attempt system tag calls s)
  attempt-IsChained tag calls s plain h = elim (Option-cases s.last_error) [
    | inr (f, e) ↦
        let same : attempt system tag calls s ≡ s = ground (arith, attempt_eq tag calls s) in
        subst IsChained (sym same) h
    | inl e ↦
        let same : attempt system tag calls s ≡ recorded tag (try_calls system calls s.trace) =
          attempt_eq tag calls s ∙ rw e in
        let clean : IsClean s.trace = subst (λ o. Chained o s.trace) e h in
        subst IsChained (sym same) (
          recorded-IsChained tag (try_calls system calls s.trace)
            (try_calls-Tried calls s.trace plain clean))
  ]

  write-IsChained :
      (dest c : String) (mode : ℕ) (s : Progress)
      → IsChained s
      → IsChained (write system dest c mode s)
  unfolding write
  write-IsChained dest c mode s h = attempt-IsChained "write" _ s (refl, (refl, (refl, tt))) h

  mount_at-IsChained :
      (f : FsType) (src dest : String) (s : Progress)
      → IsChained s
      → IsChained (mount_at system f src dest s)
  unfolding mount_at
  mount_at-IsChained f src dest s h = attempt-IsChained "mount" _ s (refl, (refl, tt)) h

  bind-IsChained :
      (f : FsType) (target source : String) (s : Progress)
      → IsChained s
      → IsChained (bind system f target source s)
  unfolding bind
  bind-IsChained f target source s h =
      let s1 = attempt system "bind" (stat source ∷ []) s in
      let h1 : IsChained s1 = attempt-IsChained "bind" (stat source ∷ []) s (refl, tt) h in
      elim (Bool-cases (system.is_dir s1.trace source)) [
        | inl folder ↦
            rw folder (
              attempt-IsChained "bind" _ _ (refl, tt) (attempt-IsChained "bind" _ s1 (refl, tt) h1))
        | inr file ↦ rw file (
            attempt-IsChained "bind" _ _ (refl, tt)
              (attempt-IsChained "write" _ s1 (refl, (refl, (refl, tt))) h1))
      ]

  place_nil : (f : FsType) (s : Progress) → place system f [] s ≡ s
  unfolding place
  place_nil f s = refl

  place_eq :
      (f : FsType) (p : Payload) (ps : List Payload) (s : Progress)
      → place system f (p ∷ ps) s ≡ (
          if p.source_type == "bind"
          then place system f ps (bind system f p.target p.source_value s)
          else if p.source_type == "write"
          then place system f ps (write system p.target p.source_value p.file_mode s)
          else place system f ps s)
  unfolding place
  place_eq f p ps s = refl

  place-IsChained :
      (f : FsType) (ps : List Payload) (s : Progress)
      → IsChained s
      → IsChained (place system f ps s)
  place-IsChained f [] s h = subst IsChained (sym (place_nil f s)) h
  place-IsChained f (p ∷ ps) s h =
      subst IsChained (sym (place_eq f p ps s)) (elim (Bool-cases (p.source_type == "bind")) [
        | inl binds ↦ rw binds (
            place-IsChained f ps (bind system f p.target p.source_value s)
              (bind-IsChained f p.target p.source_value s h))
        | inr other ↦ elim (Bool-cases (p.source_type == "write")) [
          | inl writes ↦
              rw (other, writes)
                (place-IsChained f ps (write system p.target p.source_value p.file_mode s)
                  (write-IsChained p.target p.source_value p.file_mode s h))
          | inr skips ↦ rw (other, skips) (place-IsChained f ps s h)
        ]
      ])

  set_hostname-IsChained :
      (c : Config) (s : Progress) → IsChained s → IsChained (set_hostname system c s)
  unfolding set_hostname
  set_hostname-IsChained c s h = attempt-IsChained "unix.Sethostname" _ s (refl, tt) h

  pivot-link_up-IsChained :
      (c : Config) (s : Progress) → IsChained s → IsChained (pivot system (link_up system c "lo" s))
  unfolding pivot link_up
  pivot-link_up-IsChained c s h =
      attempt-IsChained "pivot" _ _ (refl, (refl, (refl, (refl, tt))))
        (attempt-IsChained "linkUp" _ s (refl, (refl, (refl, tt))) h)

  pub set_up-IsChained : (c : Config) (s : Progress) → IsChained s → IsChained (set_up system c s)
  unfolding set_up
  set_up-IsChained c s h = pivot-link_up-IsChained c _ (
      write-IsChained _ _ _ _ (
        write-IsChained _ _ _ _ (
          write-IsChained _ _ _ _ (
            write-IsChained _ _ _ _ (
              write-IsChained _ _ _ _ (
                write-IsChained _ _ _ _ (
                  place-IsChained _ c.payload _ (
                    mount_at-IsChained _ _ _ _ (
                      mount_at-IsChained _ _ _ _ (
                        mount_at-IsChained _ _ _ _ (
                          mount_at-IsChained _ _ _ _
                            (mount_at-IsChained _ _ _ _ (set_hostname-IsChained c s h)))))))))))))
