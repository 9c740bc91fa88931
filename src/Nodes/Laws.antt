-- ===== src/Nodes/Laws.antt =====
-- pkg/nodes: what the kubelet of a node is told of, and where it is.
use runkube.Common.{
  ◌≡◌, refl, String, Bool, true, false, some, In, here, there, Option-cases, arith, inl, inr,
}
use text.Mathlib.Text.{starts_with}
use runkube.Disk.{Disk, read_file}
use runkube.Ref.Laws.Text.{has_tab, visible, write_config_lem}
use runkube.Nodes.{
  Node, node_config_ref, container_runtime_endpoint, kubelet_config, kubelet, make_kubelet_config,
  init_node,
}

-- What is documented of `RemoveAll`: files that do not stand at the path or below it are as before.
abbrev pub KeepsOthers : {B : Type 0} → (String → Disk B → Bool × Disk B) → Type 0
KeepsOthers {B} remove_all =
    (path p : String) (d : Disk B)
    → starts_with p path ≡ false
    → read_file p (remove_all path d).1 ≡ read_file p d

module _ {B : Type 0} (of_text : String → B) (remove_all : String → Disk B → Bool × Disk B) where
  -- If `Init` of a node succeeds, the configuration that its kubelet is told of is there: the text of the
  -- source without its tabs, which YAML does not allow, and otherwise as it is but for white space. The
  -- file must be readable and must not stand below the endpoint.
  pub init_node-kubelet :
      (n : Node) (d : Disk B)
      → KeepsOthers remove_all
      → starts_with (node_config_ref n "kubelet-config") container_runtime_endpoint ≡ false
      → (init_node of_text remove_all n d).0 ≡ true
      → d.unreadable (node_config_ref n "kubelet-config") ≡ false
      → (m : String) × (read_file
            (node_config_ref n "kubelet-config")
            (init_node of_text remove_all n d).1
          ≡ some (of_text m))
        × (has_tab m ≡ false)
        × (visible m ≡ visible kubelet_config)
        × In (node_config_ref n "kubelet-config") (kubelet n).cmd_args
  unfolding init_node make_kubelet_config kubelet
  init_node-kubelet n d keeps apart done open_p =
      elim (Option-cases (make_kubelet_config of_text n d).0) [
        | inr (e, failed) ↦ absurd (ground arith)
        | inl written ↦
            let (m, at_path, ends, no_tab, same) =
              write_config_lem of_text (node_config_ref n "kubelet-config") kubelet_config d written
                open_p in
            (
              m,
              ground (
                arith,
                keeps container_runtime_endpoint (node_config_ref n "kubelet-config")
                    (make_kubelet_config of_text n d).1 apart,
                at_path,
              ),
              no_tab,
              same,
              there (there (here refl)),
            )
      ]
