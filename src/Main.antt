-- ===== src/Main.antt =====
-- tools/runkube/main.go
use runkube.Common.{
  String, Bool, true, false, Option, none, some, List, [], ◌∷◌, ◌==◌, if◌then◌else◌,
}
use runkube.Pki.{Crypto}
use runkube.ControlPlane.{Config, World}
use runkube.ControlPlane.Processes.{
  Process, api_server_process, etcd_process, controller_process, scheduler_process,
}
use runkube.Sandbox
use runkube.Flags.{Platform, parse}
use runkube.Nodes.{Node, NodeAction, helper, unknown_command, exec_kubelet, nodes_main}
pub mod Laws
pub mod Tests

-- What the program does with the settings. `fail` is the exit with 1.
pub data Action : Type 0 where
  init_and_run run_kms_plugin run_jwt_signer run_webhook fail : Action
  exec : Process → Action
  run_node : String → Action
  kubectl curl etcdctl : List String → Action

module _ {x : Crypto} (w : World x) where
  node_argument : List String → Action
  node_argument (name ∷ []) = run_node name
  node_argument [] = fail
  node_argument (name ∷ other ∷ rest) = fail

  unfoldable pub run_command : Config → String → List String → Action
  unfolding node_argument
  run_command c cmd rest =
      if cmd == "run"
      then init_and_run
      else if cmd == "apiserver"
      then exec (api_server_process w c)
      else if cmd == "etcd"
      then exec (etcd_process w c)
      else if cmd == "controller"
      then exec (controller_process w c)
      else if cmd == "scheduler"
      then exec (scheduler_process w c)
      else if cmd == "kms"
      then run_kms_plugin
      else if cmd == "jwtsigner"
      then run_jwt_signer
      else if cmd == "webhook"
      then run_webhook
      else if cmd == "node"
      then node_argument rest
      else if cmd == "kubectl"
      then kubectl (cmd ∷ rest)
      else if cmd == "curl"
      then curl rest
      else if cmd == "etcdctl"
      then etcdctl (cmd ∷ rest)
      else fail

  unfoldable pub dispatch : Config → List String → Action
  unfolding run_command
  dispatch c [] = init_and_run
  dispatch c (cmd ∷ rest) = run_command c cmd rest

  unfoldable pub with_settings : Option (Config × List String) → Option (Config × Action)
  unfolding dispatch
  with_settings none = none
  with_settings (some (c, rest)) = some (c, dispatch c rest)

  -- The settings and what is done with them. `none`: the flags or the settings end the program.
  unfoldable pub control_plane_main : Platform → List String → Option (Config × Action)
  unfolding with_settings
  control_plane_main platform args = with_settings (parse platform args)

-- Whether a part of the node ends the program: the helper and an unknown command always do, the
-- kubelet takes the place of the process, and the others do so on an error.
unfoldable pub ends_program : (NodeAction → Bool) → NodeAction → Bool
ends_program failed helper = true
ends_program failed unknown_command = true
ends_program failed a = failed a

-- What a start of the program does. `sandboxed`: the set-up of a sandbox, or an exit where the settings
-- cannot be read; either ends the program, since the set-up never returns without an error.
-- `unsandboxed`: the part of the node that is run, and the part of the control plane.
pub data Course : Type 0 where
  sandboxed : Option Sandbox.Config → Course
  unsandboxed : Option NodeAction → Option (Config × Action) → Course

abbrev pub sandbox_cookie : String
sandbox_cookie = "sandboxcookie-v1"

-- `sandbox.MustInit`: none where there is nothing to do. `read_cookie` decodes the settings.
unfoldable pub must_init :
    (read_cookie : String → Option Sandbox.Config)
    → String
    → List String
    → Option (Option Sandbox.Config)
must_init read_cookie self [] = none
must_init read_cookie self (text ∷ []) =
    if self == sandbox_cookie then some (read_cookie text) else none
must_init read_cookie self (text ∷ other ∷ rest) = none

unfoldable pub go_on : Option (Option Sandbox.Config) → Course → Course
go_on none course = course
go_on (some settings) course = sandboxed settings

-- `main`, for the name and the arguments of the program. Nothing stands between the part of the node
-- and that of the control plane.
unfoldable pub main :
    {x : Crypto} (w : World x) (platform : Platform) (read_cookie : String → Option Sandbox.Config)
    (node_flags : List String → Node × List String) (failed : NodeAction → Bool)
    → String
    → List String
    → Course
unfolding control_plane_main ends_program must_init go_on
main w platform read_cookie node_flags failed self args = go_on (must_init read_cookie self args) (
    if self == "/usr/bin/breakbulk"
    then (let a = nodes_main node_flags args in
        unsandboxed (some a)
          (if ends_program failed a then none else control_plane_main w platform args))
    else unsandboxed none (control_plane_main w platform args))
