-- ===== src/Disk.antt =====
-- The calls of package os by which pki.go, controlplane.go, plugins.go and pkg/ref/ref.go keep files:
-- `ReadFile`, `WriteFile` and `MkdirAll`.
use runkube.Common.{
  ◌≡◌, String, Bool, true, false, Option, none, lookup, insert, Dict, is_some, if◌then◌else◌,
}
pub mod Laws

-- The files by their paths, and for which paths each call fails. A write that fails is one whose file
-- cannot be opened. `unmakeable p`: the directory of `p` cannot be made.
pub record Disk {ℓ} (B : Type ℓ) : Type ℓ where
  pub files : Dict B
  pub unreadable : String → Bool
  pub unwritable : String → Bool
  pub unmakeable : String → Bool

module _ {ℓ} {B : Type ℓ} where
  -- `none` for any error.
  unfoldable pub read_file : String → Disk B → Option B
  read_file p d = if d.unreadable p then none else lookup p d.files

  -- Whether the write went well, and the disk.
  unfoldable pub write_file : String → B → Disk B → Bool × Disk B
  write_file p b d =
      if d.unwritable p then (false, d) else (true, record d { files = insert p b d.files })

  -- There is a file at the path.
  abbrev pub HasFile : Disk B → String → Type 0
  HasFile d p = is_some (lookup p d.files) ≡ true
