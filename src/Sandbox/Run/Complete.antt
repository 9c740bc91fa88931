-- ===== src/Sandbox/Run/Complete.antt =====
-- The calls of a set-up of pkg/sandbox/sandbox.go that meets no error, in their order.
use runkube.Common.{
  ℕ, ◌≡◌, refl, ap, ◌∙◌, inl, inr, String, none, List, [], ◌∷◌, arith, Bool-cases, Option-cases,
  ◌==◌, if◌then◌else◌,
}
use Prim.Native.String.{◌++◌ as append}
use runkube.Sandbox.{
  FsType, Call, sethostname, link_by_name, link_set_up, chdir, unmount, mkdir_all, write_string,
  stat, pivot_root, addr_add, open_file, mount, System, Progress, Payload, Config, root_dir,
  try_calls, attempt, set_hostname, link_up, pivot, file_mode_of, has_suffix, write, mount_at, bind,
  place,
}
use runkube.Sandbox.Run.{
  fs_proc, fs_cgroup2, fs_dev, fs_dev_pts, fs_tmpfs, fs_bind_ro, fs_root, set_up,
}

-- Calls in their order, behind those that were made, the last first.
abbrev pub onto : List Call → List Call → List Call
onto [] trace = trace
onto (c ∷ calls) trace = onto calls (c ∷ trace)

module _ (system : System) where
  -- A file is written: its directory, the file, and the text with a line end.
  abbrev pub file_calls : String → String → ℕ → List Call
  file_calls dest c mode =
      let p = system.join root_dir dest in
      mkdir_all (system.dir p)
      ∷ open_file p (file_mode_of system mode)
      ∷ write_string (if has_suffix c "\n" then c else append c "\n")
      ∷ []

  abbrev pub mount_calls : FsType → String → String → List Call
  mount_calls f src dest =
      mkdir_all (system.join root_dir dest) ∷ mount f src (system.join root_dir dest) ∷ []

  -- The target of a bind: a directory or an empty file, as the source is.
  abbrev pub target_calls : String → String → List Call → List Call
  target_calls target source trace =
      if system.is_dir trace source
      then mkdir_all (system.join root_dir target) ∷ []
      else file_calls target "" 493

  abbrev pub mounted_over : FsType → String → String → List Call → List Call
  mounted_over f target source trace =
      mount (record f { fstype = "" }) source (system.join root_dir target)
      ∷ onto (target_calls target source trace) trace

  abbrev pub bound : FsType → String → String → List Call → List Call
  bound f target source trace = mounted_over f target source (stat source ∷ trace)

  abbrev pub placed : FsType → List Payload → List Call → List Call
  placed f [] trace = trace
  placed f (p ∷ rest) trace = placed f rest (
      if p.source_type == "bind"
      then bound f p.target p.source_value trace
      else if p.source_type == "write"
      then onto (file_calls p.target p.source_value p.file_mode) trace
      else trace)

  -- The host name and the file systems.
  abbrev pub mounted_calls : Config → List Call → List Call
  mounted_calls c trace = onto (mount_calls fs_tmpfs "tmpfs" "tmp") (
      onto (mount_calls fs_dev_pts "devpts" "dev/pts") (
        onto (mount_calls fs_dev "dev" "dev") (
          onto (mount_calls fs_cgroup2 "cgroup2" "sys/fs/cgroup")
            (onto (mount_calls fs_proc "proc" "proc") (sethostname c.hostname ∷ trace)))))

  -- The files in /etc.
  abbrev pub etc_calls : Config → List Call → List Call
  etc_calls c trace =
      onto (file_calls "/etc/os-release" "ID=sandbox\\nNAME=sandbox\\nVERSION=1" 493) (
        onto (file_calls "/etc/resolv.conf" "nameserver 127.0.0.1" 493) (
          onto (file_calls "/etc/machine-id" c.machine_id 493) (
            onto (file_calls "/etc/hostname" c.hostname 493) (
              onto (file_calls "/etc/group" "" 493)
                (onto (file_calls "/etc/passwd" "" 493) trace)))))

  -- All calls of a set-up, the last first: the root is mounted first, and the process enters it last.
  abbrev pub set_up_calls : Config → List Call
  set_up_calls c =
      let files =
        etc_calls c
          (placed fs_bind_ro c.payload (mounted_calls c (mount fs_root "tmpfs" root_dir ∷ []))) in
      chdir "/"
      ∷ unmount "."
      ∷ pivot_root
      ∷ chdir root_dir
      ∷ addr_add "lo" c.ip_address
      ∷ link_set_up "lo"
      ∷ link_by_name "lo"
      ∷ files

  -- Without an error behind it, a step met none, and made these calls.
  abbrev pub Makes : (Progress → Progress) → (List Call → List Call) → Type 0
  Makes f g =
      (s : Progress) → (f s).last_error ≡ none → (s.last_error ≡ none) × ((f s).trace ≡ g s.trace)

  try_calls-none :
      (calls trace : List Call)
      → (try_calls system calls trace).0 ≡ none
      → (try_calls system calls trace).1 ≡ onto calls trace
  unfolding try_calls
  try_calls-none [] trace e = refl
  try_calls-none (c ∷ calls) trace e = elim (Option-cases (system.answer trace c)) [
    | inr (cause, bad) ↦ absurd (ground arith)
    | inl good ↦ ground (arith, try_calls-none calls (c ∷ trace))
  ]

  attempt-Makes : (tag : String) (calls : List Call) → Makes (attempt system tag calls) (onto calls)
  unfolding attempt
  attempt-Makes tag calls s e = elim (Option-cases s.last_error) [
    | inr (f, bad) ↦ absurd (ground arith)
    | inl good ↦ elim (Option-cases (try_calls system calls s.trace).0) [
      | inr (cause, bad) ↦ absurd (ground arith)
      | inl done ↦ (good, ground (arith, try_calls-none calls s.trace done))
    ]
  ]

  write-Makes :
      (dest c : String) (mode : ℕ)
      → Makes (write system dest c mode) (onto (file_calls dest c mode))
  unfolding write
  write-Makes dest c mode = attempt-Makes "write" (file_calls dest c mode)

  mount_at-Makes :
      (f : FsType) (src dest : String)
      → Makes (mount_at system f src dest) (onto (mount_calls f src dest))
  unfolding mount_at
  mount_at-Makes f src dest = attempt-Makes "mount" (mount_calls f src dest)

  bind-Makes :
      (f : FsType) (target source : String)
      → Makes (bind system f target source) (bound f target source)
  unfolding bind
  bind-Makes f target source s e =
      let all = mounted_over f target source in
      let s1 = attempt system "bind" (stat source ∷ []) s in
      let path = system.join root_dir target in
      let last = mount (record f { fstype = "" }) source path ∷ [] in
      elim (Bool-cases (system.is_dir s1.trace source)) [
        | inl folder ↦
            let (e2, t2) =
              attempt-Makes "bind" last (attempt system "bind" (mkdir_all path ∷ []) s1)
                (rw folder at e) in
            let (e1, t1) = attempt-Makes "bind" (mkdir_all path ∷ []) s1 e2 in
            let (e0, t0) = attempt-Makes "bind" (stat source ∷ []) s e1 in
            let made : (bind system f target source s).trace ≡ all s1.trace =
              rw folder (t2 ∙ ap (onto last) t1) in
            (e0, made ∙ ap all t0)
        | inr file ↦
            let (e2, t2) =
              attempt-Makes "bind" last (write system target "" 493 s1) (rw file at e) in
            let (e1, t1) = write-Makes target "" 493 s1 e2 in
            let (e0, t0) = attempt-Makes "bind" (stat source ∷ []) s e1 in
            let made : (bind system f target source s).trace ≡ all s1.trace =
              rw file (t2 ∙ ap (onto last) t1) in
            (e0, made ∙ ap all t0)
      ]

  place-Makes : (f : FsType) (ps : List Payload) → Makes (place system f ps) (placed f ps)
  unfolding place
  place-Makes f [] s e = (e, refl)
  place-Makes f (p ∷ ps) s e = elim (Bool-cases (p.source_type == "bind")) [
    | inl binds ↦
        let (e1, t1) = place-Makes f ps (bind system f p.target p.source_value s) (rw binds at e) in
        let (e0, t0) = bind-Makes f p.target p.source_value s e1 in
        (e0, rw binds (t1 ∙ ap (placed f ps) t0))
    | inr other ↦ elim (Bool-cases (p.source_type == "write")) [
      | inl writes ↦
          let (e1, t1) =
            place-Makes f ps (write system p.target p.source_value p.file_mode s)
              (rw (other, writes) at e) in
          let (e0, t0) = write-Makes p.target p.source_value p.file_mode s e1 in
          (e0, rw (other, writes) (t1 ∙ ap (placed f ps) t0))
      | inr skips ↦
          let (e0, t0) = place-Makes f ps s (rw (other, skips) at e) in (e0, rw (other, skips) t0)
    ]
  ]

  set_hostname-Makes :
      (c : Config) → Makes (set_hostname system c) (onto (sethostname c.hostname ∷ []))
  unfolding set_hostname
  set_hostname-Makes c = attempt-Makes "unix.Sethostname" (sethostname c.hostname ∷ [])

  mounts-Makes :
      (c : Config)
      → Makes
          (λ s. mount_at system fs_tmpfs "tmpfs" "tmp" (
            mount_at system fs_dev_pts "devpts" "dev/pts" (
              mount_at system fs_dev "dev" "dev" (
                mount_at system fs_cgroup2 "cgroup2" "sys/fs/cgroup"
                  (mount_at system fs_proc "proc" "proc" (set_hostname system c s))))))
          (mounted_calls c)
  mounts-Makes c s e =
      let (e5, t5) = mount_at-Makes fs_tmpfs "tmpfs" "tmp" _ e in
      let (e4, t4) = mount_at-Makes fs_dev_pts "devpts" "dev/pts" _ e5 in
      let (e3, t3) = mount_at-Makes fs_dev "dev" "dev" _ e4 in
      let (e2, t2) = mount_at-Makes fs_cgroup2 "cgroup2" "sys/fs/cgroup" _ e3 in
      let (e1, t1) = mount_at-Makes fs_proc "proc" "proc" _ e2 in
      let (e0, t0) = set_hostname-Makes c s e1 in (e0, ground (arith, t5, t4, t3, t2, t1, t0))

  etc-Makes :
      (c : Config)
      → Makes
          (λ s. write system "/etc/os-release" "ID=sandbox\\nNAME=sandbox\\nVERSION=1" 493 (
            write system "/etc/resolv.conf" "nameserver 127.0.0.1" 493 (
              write system "/etc/machine-id" c.machine_id 493 (
                write system "/etc/hostname" c.hostname 493
                  (write system "/etc/group" "" 493 (write system "/etc/passwd" "" 493 s))))))
          (etc_calls c)
  etc-Makes c s e =
      let (e5, t5) =
        write-Makes "/etc/os-release" "ID=sandbox\\nNAME=sandbox\\nVERSION=1" 493 _ e in
      let (e4, t4) = write-Makes "/etc/resolv.conf" "nameserver 127.0.0.1" 493 _ e5 in
      let (e3, t3) = write-Makes "/etc/machine-id" c.machine_id 493 _ e4 in
      let (e2, t2) = write-Makes "/etc/hostname" c.hostname 493 _ e3 in
      let (e1, t1) = write-Makes "/etc/group" "" 493 _ e2 in
      let (e0, t0) = write-Makes "/etc/passwd" "" 493 s e1 in
      (
        e0,
        t5
            ∙ ap (onto (file_calls "/etc/os-release" "ID=sandbox\\nNAME=sandbox\\nVERSION=1" 493)) (
                t4
                ∙ ap (onto (file_calls "/etc/resolv.conf" "nameserver 127.0.0.1" 493)) (
                    t3
                    ∙ ap (onto (file_calls "/etc/machine-id" c.machine_id 493)) (
                        t2
                        ∙ ap (onto (file_calls "/etc/hostname" c.hostname 493))
                            (t1 ∙ ap (onto (file_calls "/etc/group" "" 493)) t0)))),
      )

  enter_calls : Config → List Call → List Call
  enter_calls c trace =
      onto (chdir root_dir ∷ pivot_root ∷ unmount "." ∷ chdir "/" ∷ [])
        (onto (link_by_name "lo" ∷ link_set_up "lo" ∷ addr_add "lo" c.ip_address ∷ []) trace)

  enter-Makes : (c : Config) → Makes (λ s. pivot system (link_up system c "lo" s)) (enter_calls c)
  unfolding pivot link_up enter_calls
  enter-Makes c s e =
      let (e1, t1) = attempt-Makes "pivot" _ _ e in
      let (e0, t0) = attempt-Makes "linkUp" _ s e1 in
      (e0, t1 ∙ ap (onto (chdir root_dir ∷ pivot_root ∷ unmount "." ∷ chdir "/" ∷ [])) t0)

  -- A set-up that ends without an error, behind the first mount, has made all calls.
  pub set_up-calls :
      (c : Config) (s : Progress)
      → s.trace ≡ mount fs_root "tmpfs" root_dir ∷ []
      → (set_up system c s).last_error ≡ none
      → (set_up system c s).trace ≡ set_up_calls c
  unfolding set_up enter_calls
  set_up-calls c s start e =
      let (e3, t3) = enter-Makes c _ e in
      let (e2, t2) = etc-Makes c _ e3 in
      let (e1, t1) = place-Makes fs_bind_ro c.payload _ e2 in
      let (e0, t0) = mounts-Makes c s e1 in
      t3
      ∙ ap (enter_calls c) (
          t2
          ∙ ap (etc_calls c)
              (t1 ∙ ap (placed fs_bind_ro c.payload) (t0 ∙ ap (mounted_calls c) start)))
