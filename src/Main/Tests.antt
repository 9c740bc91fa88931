-- ===== src/Main/Tests.antt =====
-- Runs of pkg/config, pkg/nodes and tools/runkube on a concrete instance, and the theorems at such
-- runs.
use runkube.Common.{
  ◌≡◌, ◌≢◌, refl, ℕ, String, Bool, false, not, Option, none, some, List, [], ◌∷◌, ◌==◌, ◌&&◌, leb,
  eqb, if◌then◌else◌, In, concat, arith, eq_iff,
}
use runkube.ControlPlane.{Prefix, Config}
use runkube.ControlPlane.Tests.{world, config}
use runkube.ControlPlane.Processes.{
  webhook_process, kms_plugin_process, jwt_signer_process, node_process,
}
use runkube.Flags.{
  Flags, Platform, default_flags, generate_ula, with_defaults, validate, parse, matches_dns_label,
}
use runkube.Flags.Laws.{
  parse_lem, matches_dns_label_eq, starts_lower, all_label, ends_hyphen, size, IsValid,
}
use runkube.Nodes.{Node, NodeAction}
use runkube.Sandbox
use runkube.Main.{
  sandboxed, unsandboxed, must_init, go_on, main, run_webhook, run_kms_plugin, run_jwt_signer,
  run_node,
}
use runkube.Main.Laws.{IsOutside, default_config, start, run_again_lem}

abbrev no_prefix : Prefix
no_prefix = record { text = ""; next_addr = "" }

abbrev ula_prefix : Prefix
ula_prefix = record { text = "fd01:203:405:607::/64"; next_addr = "fd01:203:405:607::1" }

abbrev address : List ℕ → ℕ → Prefix
address [] bits = no_prefix
address (b ∷ rest) bits = if eqb b 0xfd then ula_prefix else no_prefix

abbrev platform : Platform
platform = record {
  parse_flags = λ args. some (default_flags, args);
  state_home = "";
  home = "/home/kube";
  sha256 = λ seed. 1 ∷ 2 ∷ 3 ∷ 4 ∷ 5 ∷ 6 ∷ 7 ∷ 8 ∷ [];
  prefix_from = address;
  parse_prefix = λ text. some record { text = text; next_addr = text };
  is_valid = λ p. not (p.text == "");
}

abbrev blank_node : Node
blank_node = record {
  name = "";
  machine_id = "";
  root = "/";
  kubeconfig = "";
  kubelet_binary = "";
  address = "";
}

abbrev started_defaults : Config
started_defaults = record {
  name = "default";
  root = "/home/kube/.local/state/runkube/default";
  external_hostname = "default.runkube.local";
  service_address_range = ula_prefix;
  nodes = "node-a" ∷ [];
}

defaults_run : default_config platform ≡ started_defaults
unfolding with_defaults generate_ula concat
defaults_run = refl

parse_lem_example :
    (f : Flags) × (platform.parse_flags ("kms" ∷ []) ≡ some (f, "kms" ∷ []))
    × (started_defaults.name ≡ f.name)
    × (started_defaults.nodes ≡ f.nodes)
    × IsValid platform started_defaults
    × (validate platform started_defaults ≡ (none, started_defaults))
unfolding parse concat
parse_lem_example = parse_lem platform ("kms" ∷ []) ("kms" ∷ []) started_defaults refl

matches_dns_label_eq_example :
    matches_dns_label "a-1"
    ≡ (starts_lower "a-1" && all_label "a-1" && not (ends_hyphen "a-1") && leb (size "a-1") 63)
matches_dns_label_eq_example = matches_dns_label_eq "a-1"

abbrev no_failure : NodeAction → Bool
no_failure a = false

abbrev no_flags : List String → Node × List String
no_flags args = (blank_node, args)

outside : IsOutside world.self_binary
outside = (
  (λ e. ground (arith, eq_iff world.self_binary "/usr/bin/breakbulk")),
  (λ e. ground (arith, eq_iff world.self_binary "sandboxcookie-v1")),
)

abbrev no_cookies : String → Option Sandbox.Config
no_cookies text = none

-- A sandbox whose settings cannot be read ends the program.
broken_cookie :
    main world platform no_cookies no_flags no_failure "sandboxcookie-v1" ("x" ∷ [])
    ≡ sandboxed none
unfolding main must_init go_on
broken_cookie = refl

run_again_lem_example :
    (start world platform no_cookies no_flags no_failure (webhook_process world config)
      ≡ some (unsandboxed none (some (default_config platform, run_webhook))))
    × (start world platform no_cookies no_flags no_failure (kms_plugin_process world config)
        ≡ some (unsandboxed none (some (default_config platform, run_kms_plugin))))
    × (start world platform no_cookies no_flags no_failure (jwt_signer_process world config)
        ≡ some (unsandboxed none (some (default_config platform, run_jwt_signer))))
    × ((n : String)
        → In n config.nodes
        → start world platform no_cookies no_flags no_failure (node_process world n)
          ≡ some (unsandboxed none (some (default_config platform, run_node n))))
    × ((default_config platform).name ≡ "default")
unfolding generate_ula
run_again_lem_example =
    run_again_lem world platform no_cookies no_flags no_failure config outside (λ args plain. refl)
      refl (refl, tt)

-- A control plane that is named otherwise is not the one that its KMS plugin works for.
other_control_plane : ◌≢◌ {A = String} (default_config platform).name config.name
unfolding with_defaults
other_control_plane e = ground (arith, eq_iff "default" "dev")

digits_first : matches_dns_label "1a" ≡ false
unfolding matches_dns_label
digits_first = refl
