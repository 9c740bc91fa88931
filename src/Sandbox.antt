-- ===== src/Sandbox.antt =====
-- pkg/sandbox/sandbox.go: the set-up of a sandbox from the inside, `run`.
use runkube.Common.{
  ℕ, zero, suc, ◌+◌, ◌-◌, ◌*◌, ◌%◌, ◌≡◌, String, Bool, true, false, not, ◌&&◌, Option, none, some,
  List, [], ◌∷◌, ◌++◌, eqb, leb, ◌==◌, if◌then◌else◌,
}
use Prim.Native.String.{◌++◌ as append, slice, len}
pub mod Run
pub mod Tests

pub record FsType : Type 0 where
  pub fstype : String
  pub flags : ℕ
  pub opts : String

-- The calls to the system that the set-up makes.
pub data Call : Type 0 where
  sethostname link_by_name link_set_up chdir unmount mkdir_all write_string stat : String → Call
  pivot_root : Call
  addr_add : String → String → Call
  open_file : String → ℕ → Call
  mount : FsType → String → String → Call
  exec : List String → List String → Call

-- What the system answers to a call after the earlier ones, the last first: none, or an error. And
-- the functions of the package filepath.
pub record System : Type 0 where
  pub answer : List Call → Call → Option String
  pub is_dir : List Call → String → Bool
  pub join : String → String → String
  pub dir : String → String

-- An error: where it was met, and what the system answered. The texts around it are left out.
pub record Failure : Type 0 where
  pub tag : String
  pub cause : String

-- `lastError`, and the calls that were made, the last first.
pub record Progress : Type 0 where
  pub last_error : Option Failure
  pub trace : List Call

pub record Payload : Type 0 where
  pub target : String
  pub file_mode : ℕ
  pub source_type : String
  pub source_value : String

pub record Config : Type 0 where
  pub hostname : String
  pub machine_id : String
  pub ip_address : String
  pub command : List String
  pub env : List String
  pub payload : List Payload

-- `rootDir()`
abbrev root_dir : String
root_dir = "/tmp"

-- `strings.HasSuffix`
unfoldable pub has_suffix : String → String → Bool
has_suffix s t = leb (len t) (len s) && (slice s (len s - len t) (len s) == t)

module _ (system : System) where
  -- Calls in a row, up to the first that fails.
  unfoldable pub try_calls : List Call → List Call → Option String × List Call
  try_calls [] trace = (none, trace)
  try_calls (c ∷ calls) trace =
      let rest : Option String × List Call = try_calls calls (c ∷ trace) in
      elim (system.answer trace c) [ none ↦ rest | some e ↦ (some e, c ∷ trace) ]

  -- The shape of each step: nothing after an earlier error, else its calls, and `lastError`.
  unfoldable pub attempt : String → List Call → Progress → Progress
  unfolding try_calls
  attempt tag calls s = elim s.last_error [
    | some f ↦ s
    | none ↦
        let (failed, trace) = try_calls calls s.trace in
        elim failed [
          | none ↦ record { last_error = none; trace = trace }
          | some e ↦ record { last_error = some (record { tag = tag; cause = e }); trace = trace }
        ]
  ]

  unfoldable pub set_hostname : Config → Progress → Progress
  set_hostname c = attempt "unix.Sethostname" (sethostname c.hostname ∷ [])

  unfoldable pub link_up : Config → String → Progress → Progress
  link_up c l = attempt "linkUp" (link_by_name l ∷ link_set_up l ∷ addr_add l c.ip_address ∷ [])

  unfoldable pub pivot : Progress → Progress
  pivot = attempt "pivot" (chdir root_dir ∷ pivot_root ∷ unmount "." ∷ chdir "/" ∷ [])

  -- A mode without permission bits means 0755.
  unfoldable pub file_mode_of : ℕ → ℕ
  file_mode_of mode = if eqb (mode % 512) 0 then 493 else mode

  unfoldable pub write : String → String → ℕ → Progress → Progress
  unfolding has_suffix file_mode_of
  write dest c mode =
      let p = system.join root_dir dest in
      let content : String = if has_suffix c "\n" then c else append c "\n" in
      attempt "write"
        (mkdir_all (system.dir p) ∷ open_file p (file_mode_of mode) ∷ write_string content ∷ [])

  unfoldable pub mount_at : FsType → String → String → Progress → Progress
  mount_at f src dest =
      let actual_dest = system.join root_dir dest in
      attempt "mount" (mkdir_all actual_dest ∷ mount f src actual_dest ∷ [])

  -- The target is made as the source is: a directory or a file.
  unfoldable pub bind : FsType → String → String → Progress → Progress
  unfolding write
  bind f target source s =
      let target_path = system.join root_dir target in
      let s1 : Progress = attempt "bind" (stat source ∷ []) s in
      let s2 : Progress =
        if system.is_dir s1.trace source
        then attempt "bind" (mkdir_all target_path ∷ []) s1
        else write target "" 493 s1 in
      attempt "bind" (mount (record f { fstype = "" }) source target_path ∷ []) s2

  -- The loop over the payload.
  unfoldable pub place : FsType → List Payload → Progress → Progress
  unfolding bind write
  place f [] s = s
  place f (p ∷ rest) s =
      if p.source_type == "bind"
      then place f rest (bind f p.target p.source_value s)
      else if p.source_type == "write"
      then place f rest (write p.target p.source_value p.file_mode s)
      else place f rest s
