-- ===== src/Main/Laws.antt =====
-- tools/runkube/main.go: what the processes of the control plane do when they are started.
use runkube.Common.{
  ◌≡◌, ◌≢◌, refl, ap, ◌∙◌, subst, String, Bool, true, false, Option, none, some, List, [], ◌∷◌,
  ==_of_ne, All, In, here, there,
}
use text.Mathlib.Text.{starts_with}
use runkube.Pki.{Crypto}
use runkube.ControlPlane.{Config, World}
use runkube.ControlPlane.Processes.{
  Process, webhook_process, kms_plugin_process, jwt_signer_process, node_process,
}
use runkube.Sandbox
use runkube.Flags.{
  Platform, default_flags, generate_ula, settings_of, with_defaults, range_of, checked, with_range,
  parse_with, parse, matches_dns_label,
}
use runkube.Flags.Laws.{validate_named}
use runkube.Nodes.{Node, NodeAction}
use runkube.Main.{
  Course, unsandboxed, sandbox_cookie, must_init, go_on, main, run_kms_plugin, run_jwt_signer,
  run_webhook, run_node, run_command, dispatch, with_settings, control_plane_main, main,
}

-- An argument that pflag takes for no flag.
abbrev pub NoFlag : String → Type 0
NoFlag s = starts_with s "-" ≡ false

-- What is documented of pflag: arguments that do not start with a hyphen are handed back, and each flag
-- that is not given has its default.
abbrev pub TakesDefaults : Platform → Type 0
TakesDefaults platform =
    (args : List String) → All NoFlag args → platform.parse_flags args ≡ some (default_flags, args)

-- The name of a program that is neither that of a node in its sandbox nor that of a sandbox to set up.
abbrev pub IsOutside : String → Type 0
IsOutside self = (self ≢ "/usr/bin/breakbulk") × (self ≢ sandbox_cookie)

-- The settings of a command line without flags.
abbrev pub default_config : Platform → Config
default_config platform =
    with_defaults platform (settings_of platform default_flags (generate_ula platform "default"))

default_is_label : matches_dns_label "default" ≡ true
unfolding matches_dns_label
default_is_label = refl

module _ {x : Crypto} (w : World x) (platform : Platform)
    (read_cookie : String → Option Sandbox.Config) (node_flags : List String → Node × List String)
    (failed : NodeAction → Bool) where
  -- What the program does when it is started as the process says.
  abbrev pub start : Process → Option Course
  start p = elim p.cmd_args [
    | [] ↦ none
    | self ∷ args ↦ some (main w platform read_cookie node_flags failed self args)
  ]

  parse_plain :
      (args : List String)
      → TakesDefaults platform
      → platform.is_valid (generate_ula platform "default") ≡ true
      → All NoFlag args
      → parse platform args ≡ some (default_config platform, args)
  unfolding parse parse_with with_range range_of checked
  parse_plain args law valid plain =
      ap (parse_with platform) (law args plain)
      ∙ ap (checked platform args) (
          validate_named platform
            (settings_of platform default_flags (generate_ula platform "default")) default_is_label
            valid)

  control_plane_plain :
      (args : List String)
      → TakesDefaults platform
      → platform.is_valid (generate_ula platform "default") ≡ true
      → All NoFlag args
      → control_plane_main w platform args
        ≡ some (default_config platform, dispatch w (default_config platform) args)
  unfolding control_plane_main with_settings
  control_plane_plain args law valid plain = ap (with_settings w) (parse_plain args law valid plain)

  no_cookie :
      (self : String) (args : List String)
      → self ≢ sandbox_cookie
      → must_init read_cookie self args ≡ none
  unfolding must_init
  no_cookie self [] ne = refl
  no_cookie self (text ∷ []) ne = rw (==_of_ne self sandbox_cookie ne) refl
  no_cookie self (text ∷ other ∷ rest) ne = refl

  started :
      (self cmd : String) (rest : List String)
      → IsOutside self
      → TakesDefaults platform
      → platform.is_valid (generate_ula platform "default") ≡ true
      → All NoFlag (cmd ∷ rest)
      → main w platform read_cookie node_flags failed self (cmd ∷ rest)
        ≡ unsandboxed none
            (some (default_config platform, run_command w (default_config platform) cmd rest))
  unfolding main go_on dispatch
  started self cmd rest outside law valid plain =
      rw (no_cookie self (cmd ∷ rest) outside.1, ==_of_ne self "/usr/bin/breakbulk" outside.0)
        (ap (unsandboxed none) (control_plane_plain (cmd ∷ rest) law valid plain))

  node_started :
      (self : String) (nodes : List String) (n : String)
      → IsOutside self
      → TakesDefaults platform
      → platform.is_valid (generate_ula platform "default") ≡ true
      → All NoFlag nodes
      → In n nodes
      → main w platform read_cookie node_flags failed self ("node" ∷ n ∷ [])
        ≡ unsandboxed none (some (default_config platform, run_node n))
  unfolding run_command
  node_started self (m ∷ nodes) n outside law valid (plain, more) (here e) =
      started self "node" (n ∷ []) outside law valid (refl, (subst NoFlag e plain, tt))
  node_started self (m ∷ nodes) n outside law valid (plain, more) (there i) =
      node_started self nodes n outside law valid more i
  node_started self [] n outside law valid plain i = absurd (elim i [ ])

  -- The processes of `Run` that run this program again are started without flags, so they work with the
  -- default settings, whatever the settings of the control plane are that starts them: the webhooks,
  -- the KMS plugin, the signer of tokens and each node. The binary must not be named like one
  -- that runs in a sandbox, the nodes not like flags, and the default settings must be valid.
  pub run_again_lem :
      (c : Config)
      → IsOutside w.self_binary
      → TakesDefaults platform
      → platform.is_valid (generate_ula platform "default") ≡ true
      → All NoFlag c.nodes
      → (start (webhook_process w c)
          ≡ some (unsandboxed none (some (default_config platform, run_webhook))))
        × (start (kms_plugin_process w c)
            ≡ some (unsandboxed none (some (default_config platform, run_kms_plugin))))
        × (start (jwt_signer_process w c)
            ≡ some (unsandboxed none (some (default_config platform, run_jwt_signer))))
        × ((n : String)
            → In n c.nodes
            → start (node_process w n)
              ≡ some (unsandboxed none (some (default_config platform, run_node n))))
        × ((default_config platform).name ≡ "default")
  unfolding webhook_process kms_plugin_process jwt_signer_process node_process run_command
      with_defaults
  run_again_lem c outside law valid plain = (
    ap some (started w.self_binary "webhook" [] outside law valid (refl, tt)),
    ap some (started w.self_binary "kms" [] outside law valid (refl, tt)),
    ap some (started w.self_binary "jwtsigner" [] outside law valid (refl, tt)),
    λ n i. ap some (node_started w.self_binary c.nodes n outside law valid plain i),
    refl,
  )
