-- ===== src/Procfs/Tests.antt =====
-- The theorems on pkg/sandbox/procfs at a concrete file.
use runkube.Common.{ℕ, suc, ◌≡◌, refl, ◌⊎◌, none, some, List, [], ◌∷◌, length, lookup}
use runkube.Procfs.{
  eio, ok, errno, Overrides, static, Context, getattr_node, open_node, readlink_node, read_static,
}
use runkube.Procfs.Reads.{read_all, read_all_lem}
use runkube.Procfs.Nodes.{open_node_lem}

abbrev cpuinfo : List ℕ
cpuinfo = 1 ∷ 2 ∷ 3 ∷ 4 ∷ 5 ∷ []

abbrev overrides : Overrides
overrides = ("cpuinfo", some cpuinfo) ∷ []

abbrev context : Context
context = record { getattr = ok 0; open_real = ok 3; readlink = ok "x"; caller = some "12" }

-- A read in the middle, one that ends at the end, and one past it.
reads :
    (read_static cpuinfo 2 1 ≡ 2 ∷ 3 ∷ [])
    × (read_static cpuinfo 4 3 ≡ 4 ∷ 5 ∷ [])
    × (read_static cpuinfo 4 5 ≡ [])
unfolding read_static
reads = (refl, refl, refl)

self_link : readlink_node "thread-self" context ≡ ok "self/task/12"
unfolding readlink_node
self_link = refl

read_all_lem_example : read_all 6 cpuinfo 2 0 ≡ cpuinfo
read_all_lem_example = read_all_lem cpuinfo 1

open_node_lem_run :
    ((lookup "cpuinfo" overrides ≡ none)
      × (getattr_node (some overrides) "cpuinfo" context ≡ ok 0)
      × (open_node (some overrides) "cpuinfo" context ≡ open_node none "cpuinfo" context))
    ⊎ ((lookup "cpuinfo" overrides ≡ some none)
        × (getattr_node (some overrides) "cpuinfo" context ≡ errno eio)
        × (open_node (some overrides) "cpuinfo" context ≡ errno eio))
    ⊎ ((content : List ℕ) × (lookup "cpuinfo" overrides ≡ some (some content))
        × (open_node (some overrides) "cpuinfo" context ≡ ok (static content))
        × (getattr_node (some overrides) "cpuinfo" context ≡ ok (length content))
        × (read_all (suc (length content)) content 2 0 ≡ content))
open_node_lem_run = open_node_lem overrides "cpuinfo" context 0 1 refl
