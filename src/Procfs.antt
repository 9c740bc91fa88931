-- ===== src/Procfs.antt =====
-- pkg/sandbox/procfs/procfs.go: a loopback of /proc in which some files have other content.
use runkube.Common.{
  ℕ, suc, ◌+◌, ◌-◌, ◌≡◌, String, Bool, true, false, Option, none, some, List, [], ◌∷◌, length, take,
  drop, min, leb, Dict, lookup, ◌==◌, if◌then◌else◌,
}
use Prim.Native.String.{◌++◌}
pub mod Reads
pub mod Nodes
pub mod Tests

-- The error numbers that the file makes itself, and those of the real /proc.
pub data Errno : Type 0 where
  eio einval : Errno
  from_proc : ℕ → Errno

pub data Result {ℓ} (A : Type ℓ) : Type ℓ where
  ok : A → Result A
  errno : Errno → Result A

-- A content handler fails or gives bytes.
abbrev pub Overrides : Type 0
Overrides = Dict (Option (List ℕ))

-- An open file: with its own content, read past the page cache, or a handle of the real /proc.
pub data Handle : Type 0 where
  static : List ℕ → Handle
  real : ℕ → Handle

-- What the real /proc answers for the node, and the caller of the request if there is one: its
-- process number in decimal.
pub record Context : Type 0 where
  pub getattr : Result ℕ
  pub open_real : Result ℕ
  pub readlink : Result String
  pub caller : Option String

-- `Getattr`, of which only the size changes. `overrides` is none where the options have none.
unfoldable pub getattr_node : Option Overrides → String → Context → Result ℕ
getattr_node overrides path ctx = elim ctx.getattr [
  | errno e ↦ errno e
  | ok size ↦ elim overrides [
    | none ↦ ok size
    | some m ↦ elim (lookup path m) [
      | none ↦ ok size
      | some none ↦ errno eio
      | some (some content) ↦ ok (length content)
    ]
  ]
]

unfoldable pub open_node : Option Overrides → String → Context → Result Handle
open_node overrides path ctx = elim overrides [
  | none ↦ opened ctx.open_real
  | some m ↦ elim (lookup path m) [
    | none ↦ opened ctx.open_real
    | some none ↦ errno eio
    | some (some content) ↦ ok (static content)
  ]
]
  where
    opened : Result ℕ → Result Handle
    opened (ok h) = ok (real h)
    opened (errno e) = errno e

unfoldable pub readlink_node : String → Context → Result String
readlink_node path ctx =
    if path == "self"
    then elim ctx.caller [ none ↦ errno einval | some pid ↦ ok pid ]
    else if path == "thread-self"
    then elim ctx.caller [ none ↦ errno einval | some pid ↦ ok ("self/task/" ++ pid) ]
    else ctx.readlink

-- `staticFileHandle.Read` into a buffer of `n` bytes.
unfoldable pub read_static : List ℕ → ℕ → ℕ → List ℕ
read_static content n off =
    if leb (length content) off
    then []
    else (let end : ℕ = min (off + n) (length content) in take (end - off) (drop off content))
