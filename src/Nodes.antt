-- ===== src/Nodes.antt =====
-- pkg/nodes/nodes.go and cmd.go: the node in its sandbox, and which part of it a command line runs.
use runkube.Common.{
  String, ◌≡◌, Bool, true, false, not, ◌||◌, Option, none, some, List, [], ◌∷◌, ◌==◌, if◌then◌else◌,
  concat, join_path,
}
use text.Mathlib.Text.{starts_with}
use runkube.Disk.{Disk}
use runkube.Ref.{WriteError, write_config}
use runkube.Sandbox
use runkube.Sandbox.{Payload}
use runkube.ControlPlane.{Config, kube_config_ref}
use runkube.ControlPlane.Processes.{Process}
pub mod Laws

pub record Node : Type 0 where
  pub name : String
  pub machine_id : String
  pub root : String
  pub kubeconfig : String
  pub kubelet_binary : String
  pub address : String

unfoldable pub node_config_ref : Node → String → String
node_config_ref n s = join_path (n.root ∷ "etc/kubernetes" ∷ s ∷ [])

abbrev pub container_runtime_endpoint : String
container_runtime_endpoint = "/run/containerd/containerd.sock"

abbrev pub node_address : String
node_address = "10.0.0.1"

-- The text in `makeKubeletConfig`.
unfoldable pub kubelet_config : String
unfolding concat
kubelet_config = concat (
    "\n" ∷ "kind: KubeletConfiguration\n" ∷ "apiVersion: \"kubelet.config.k8s.io/v1beta1\"\n"
    ∷ "featureGates:\n" ∷ "\tAllAlpha: true\n" ∷ "\tAllBeta: true\n"
    ∷ "\tKubeletInUserNamespace: true\n" ∷ "logging:\n" ∷ "\tformat: \"json\"\n"
    ∷ "\tverbosity: 0\n" ∷ "staticPodPath: \"\"\n" ∷ "readOnlyPort: 0\n"
    ∷ "healthzBindAddress: \"127.0.0.1\"\n" ∷ "volumePluginDir: \"\"\n" ∷ "failSwapOn: false\n"
    ∷ "nodeStatusMaxImages: 0\n" ∷ "protectKernelDefaults: false\n"
    ∷ "streamingConnectionIdleTimeout: \"1m\"\n" ∷ "enableProfilingHandler: false\n"
    ∷ "enableDebugFlagsHandler: false\n" ∷ "enableDebuggingHandlers: false\n"
    ∷ "enableSystemLogHandler: false\n" ∷ "enableSystemLogQuery: false\n"
    ∷ "serverTLSBootstrap: false\n" ∷ "rotateCertificates: false\n"
    ∷ "containerLogMaxSize: \"-1\"\n" ∷ "cgroupDriver: cgroupfs\n" ∷ "cgroupsPerQOS: false\n"
    ∷ "clusterDNS: [ \"10.0.0.1\" ]\n" ∷ "enforceNodeAllocatable: [ \"none\" ]\n"
    ∷ "authentication:\n" ∷ "  anonymous:\n" ∷ "    enabled: true\n" ∷ "\twebhook:\n"
    ∷ "\t\tenabled: true\n" ∷ "authorization:\n" ∷ "\tmode: Webhook\n" ∷ [])

unfoldable pub kubelet : Node → Process
unfolding node_config_ref
kubelet n = record {
  tag = "kubelet";
  cmd_args =
      "kubelet"
      ∷ "--config"
      ∷ node_config_ref n "kubelet-config"
      ∷ "--kubeconfig"
      ∷ "/etc/kubernetes/kubelet.kubeconfig"
      ∷ "--node-ip"
      ∷ node_address
      ∷ [];
}

-- `CRIServer`, for the path of the running binary.
unfoldable pub cri_server : String → Process
cri_server self = record { tag = "criserver"; cmd_args = self ∷ "criserver" ∷ [] }

-- The formation of `Run`.
unfoldable pub node_formation : String → Node → List Process
unfolding kubelet cri_server
node_formation self n = kubelet n ∷ cri_server self ∷ []

module _ {B : Type 0} (of_text : String → B) where
  unfoldable pub make_kubelet_config : Node → Disk B → Option WriteError × Disk B
  unfolding kubelet_config node_config_ref
  make_kubelet_config n d =
      write_config of_text (node_config_ref n "kubelet-config") kubelet_config d

  -- `Init`, with `RemoveAll` of the endpoint: whether it succeeds, and the disk.
  unfoldable pub init_node :
      (remove_all : String → Disk B → Bool × Disk B) → Node → Disk B → Bool × Disk B
  unfolding make_kubelet_config
  init_node remove_all n d =
      let (failed, d') = make_kubelet_config n d in
      elim failed [ some e ↦ (false, d') | none ↦ remove_all container_runtime_endpoint d' ]

abbrev bind_of : String → String → Payload
bind_of target source = record {
  target = target;
  file_mode = 0;
  source_type = "bind";
  source_value = source;
}

abbrev write_of : String → String → Payload
write_of target text = record {
  target = target;
  file_mode = 0;
  source_type = "write";
  source_value = text;
}

-- `sandboxConfig`
unfoldable pub sandbox_config : String → Node → Sandbox.Config
sandbox_config self n = record {
  hostname = n.name;
  machine_id = n.machine_id;
  ip_address = node_address;
  command = "/usr/bin/breakbulk" ∷ "run" ∷ [];
  env = "HOME=/root" ∷ "PATH=/sbin:/usr/sbin:/usr/local/bin:/usr/bin:/bin" ∷ [];
  payload =
      bind_of "/etc/kubernetes/kubelet.kubeconfig" n.kubeconfig
      ∷ bind_of "/usr/bin/breakbulk" self
      ∷ bind_of "/usr/bin/kubelet" n.kubelet_binary
      ∷ record (write_of "/usr/bin/mount" "#!/usr/bin/breakbulk mount\n") { file_mode = 493 }
      ∷ bind_of "/dev/null" "/dev/null"
      ∷ write_of "/sys/devices/system/cpu/online" "0-0"
      ∷ write_of "/sys/devices/system/node/node0/cpulist" "0-0"
      ∷ write_of "/sys/devices/system/node/node0/meminfo" "Node 0 MemTotal:       1 kB"
      ∷ write_of "/sys/devices/system/node/node0/distance" "100"
      ∷ write_of "/sys/devices/system/node/node0/cpu0/topology/core_id" "0"
      ∷ write_of "/sys/devices/system/node/node0/cpu0/topology/physical_package_id" "0"
      ∷ [];
}

-- The node that `RunNode` of the control plane makes: `kubelet_path` is the answer of `LookPath`,
-- without which it panics, and `machine_id_of` the hexadecimal text of a hash of the name.
unfoldable pub node_of :
    (kubelet_path : Option String) (machine_id_of : String → String) → Config → String → Option Node
node_of none machine_id_of c name = none
node_of (some path) machine_id_of c name = some record {
  name = name;
  machine_id = machine_id_of name;
  root = "";
  kubeconfig = kube_config_ref c name;
  kubelet_binary = path;
  address = "10.0.0.1";
}

-- What `Main` of cmd.go does with a node: `helper` is the exit with 0 that stands for `mount`.
pub data NodeAction : Type 0 where
  helper unknown_command : NodeAction
  run_sandbox init_and_run exec_kubelet run_cri_server : Node → NodeAction

command_or_sandbox : List String → String
command_or_sandbox [] = "sandbox"
command_or_sandbox (cmd ∷ rest) = if cmd == "" then "sandbox" else cmd

unfoldable pub node_command : Node → String → NodeAction
node_command n cmd =
    if cmd == "sandbox"
    then run_sandbox n
    else if cmd == "run"
    then init_and_run n
    else if cmd == "kubelet"
    then exec_kubelet n
    else if cmd == "criserver"
    then run_cri_server n
    else unknown_command

-- `Main`, for the arguments behind the name of the program. `node_flags` gives the node of the flags
-- and the arguments that are none; its error is dropped.
unfoldable pub nodes_main :
    (node_flags : List String → Node × List String) → List String → NodeAction
unfolding node_command command_or_sandbox
nodes_main node_flags [] = let (n, rest) = node_flags [] in node_command n (command_or_sandbox rest)
nodes_main node_flags (first ∷ args) =
    let (n, rest) = node_flags (first ∷ args) in
    if first == "mount" then helper else node_command n (command_or_sandbox rest)
