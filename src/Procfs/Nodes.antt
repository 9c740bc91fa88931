-- ===== src/Procfs/Nodes.antt =====
-- What a file of pkg/sandbox/procfs/procfs.go shows of itself and what it gives to read.
use runkube.Common.{
  ℕ, suc, ◌≡◌, ◌⊎◌, inl, inr, ◌∙◌, String, none, some, List, length, arith, Option-cases, lookup,
}
use runkube.Procfs.{eio, ok, errno, Overrides, static, Context, getattr_node, open_node}
use runkube.Procfs.Reads.{read_all, read_all_lem}

-- Where the real /proc shows the attributes of a path: opening an overridden file gives a file of
-- exactly the size that `Getattr` shows, and reading it to its end gives that content; where the
-- handler fails, both calls fail with EIO. Every other file is the one of the real /proc.
pub open_node_lem :
    (m : Overrides) (path : String) (ctx : Context) (size n : ℕ)
    → ctx.getattr ≡ ok size
    → ((lookup path m ≡ none)
        × (getattr_node (some m) path ctx ≡ ok size)
        × (open_node (some m) path ctx ≡ open_node none path ctx))
      ⊎ ((lookup path m ≡ some none)
          × (getattr_node (some m) path ctx ≡ errno eio)
          × (open_node (some m) path ctx ≡ errno eio))
      ⊎ ((content : List ℕ) × (lookup path m ≡ some (some content))
          × (open_node (some m) path ctx ≡ ok (static content))
          × (getattr_node (some m) path ctx ≡ ok (length content))
          × (read_all (suc (length content)) content (suc n) 0 ≡ content))
unfolding getattr_node open_node
open_node_lem m path ctx size n e = elim (Option-cases (lookup path m)) [
  | inl absent ↦ inl (absent, ground arith, ground arith)
  | inr (handler, there) ↦ elim (Option-cases handler) [
    | inl fails ↦ inr (inl (there ∙ rw fails, ground arith, ground arith))
    | inr (content, gives) ↦
        inr (inr (content, there ∙ rw gives, ground arith, ground arith, read_all_lem content n))
  ]
]
