-- ===== src/Sandbox/Run.antt =====
-- pkg/sandbox/sandbox.go: the file systems of `run`, its requests from the parent and its steps.
use runkube.Common.{
  ℕ, ◌+◌, ◌≡◌, String, Bool, true, false, Option, none, some, List, [], ◌∷◌, ◌++◌, ◌==◌,
  if◌then◌else◌,
}
use runkube.Sandbox.{
  FsType, Call, exec, mount, System, Failure, Progress, Payload, Config, root_dir, try_calls,
  set_hostname, link_up, pivot, write, mount_at, place,
}
pub mod Setup
pub mod Complete
pub mod Endings
pub mod Commands

-- MS_RDONLY 1, MS_NOSUID 2, MS_NODEV 4, MS_NOEXEC 8, MS_BIND 4096, MS_RELATIME 2097152.
abbrev pub fs_proc : FsType
fs_proc = record { fstype = "proc"; flags = 4 + 8 + 2 + 2097152; opts = "" }

abbrev pub fs_cgroup2 : FsType
fs_cgroup2 = record {
  fstype = "cgroup2";
  flags = 4 + 8 + 2 + 2097152;
  opts = "memory_recursiveprot";
}

abbrev pub fs_tmpfs : FsType
fs_tmpfs = record { fstype = "tmpfs"; flags = 4 + 8 + 2 + 2097152; opts = "" }

abbrev pub fs_dev_pts : FsType
fs_dev_pts = record { fstype = "devpts"; flags = 8 + 2 + 2097152; opts = "" }

abbrev pub fs_dev : FsType
fs_dev = record { fstype = "tmpfs"; flags = 8 + 2 + 2097152; opts = "" }

abbrev pub fs_bind_ro : FsType
fs_bind_ro = record { fstype = ""; flags = 2 + 4096 + 1 + 2097152; opts = "" }

abbrev pub fs_root : FsType
fs_root = record { fstype = "tmpfs"; flags = 0; opts = "" }

-- A request of the parent, with whether the answer could be sent, and for "proxy-listener" whether
-- the listener was opened and its answer sent.
pub record Command : Type 0 where
  pub name : String
  pub answered : Bool

-- The answers that were given, and whether the loop ended with "complete". It fails at the end of the
-- list, where `HandleRequest` does.
unfoldable pub serve_commands : List Command → List String × Bool
serve_commands [] = ([], false)
serve_commands (req ∷ rest) =
    let later : List String × Bool = serve_commands rest in
    if req.name == "ping"
    then (if req.answered then ("pong" ∷ later.0, later.1) else ([], false))
    else if req.name == "proxy-listener"
    then (if req.answered then ("proxy-listener-fd" ∷ later.0, later.1) else ([], false))
    else if req.name == "complete"
    then (if req.answered then ("completed" ∷ [], true) else ([], false))
    else ([], false)

-- How the set-up ends: the command took the place of the process, or an error was returned.
pub data Ending : Type 0 where
  executed : Ending
  returned : Failure → Ending

module _ (system : System) where
  -- The steps of `run` behind the first mount.
  unfoldable pub set_up : Config → Progress → Progress
  set_up c s =
      let s1 : Progress = mount_at system fs_proc "proc" "proc" (set_hostname system c s) in
      let s2 : Progress = mount_at system fs_cgroup2 "cgroup2" "sys/fs/cgroup" s1 in
      let s3 : Progress = mount_at system fs_dev "dev" "dev" s2 in
      let s4 : Progress = mount_at system fs_dev_pts "devpts" "dev/pts" s3 in
      let s5 : Progress = mount_at system fs_tmpfs "tmpfs" "tmp" s4 in
      let s6 : Progress = place system fs_bind_ro c.payload s5 in
      let s7 : Progress = write system "/etc/passwd" "" 493 s6 in
      let s8 : Progress = write system "/etc/group" "" 493 s7 in
      let s9 : Progress = write system "/etc/hostname" c.hostname 493 s8 in
      let s10 : Progress = write system "/etc/machine-id" c.machine_id 493 s9 in
      let s11 : Progress = write system "/etc/resolv.conf" "nameserver 127.0.0.1" 493 s10 in
      let s12 : Progress =
        write system "/etc/os-release" "ID=sandbox\\nNAME=sandbox\\nVERSION=1" 493 s11 in
      pivot system (link_up system c "lo" s12)

  -- The end of `run`: the command, if there is one and nothing has failed.
  unfoldable pub start_command : Config → Progress → Ending × List Call
  unfolding try_calls
  start_command c s = elim s.last_error [
    | some f ↦ (returned f, s.trace)
    | none ↦ elim c.command [
      | [] ↦ (returned (record { tag = "config.Command"; cause = "not set" }), s.trace)
      | _ ∷ _ ↦
          let (failed, trace) =
            try_calls system (exec c.command (c.env ++ "HTTPS_PROXY=127.0.0.1:8443" ∷ []) ∷ [])
              s.trace in
          elim failed [
            | none ↦ (executed, trace)
            | some e ↦ (returned (record { tag = "unix.Exec"; cause = e }), trace)
          ]
    ]
  ]

  unfoldable pub after_mount : Config → Option String × List Call → Ending × List Call
  after_mount c (some e, trace) = (returned (record { tag = "mount tmpfs"; cause = e }), trace)
  after_mount c (none, trace) =
      start_command c (set_up c (record { last_error = none; trace = trace }))

  -- `run` behind the loop.
  unfoldable pub run : Config → Ending × List Call
  unfolding after_mount
  run c = after_mount c (try_calls system (mount fs_root "tmpfs" root_dir ∷ []) [])
