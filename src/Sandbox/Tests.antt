-- ===== src/Sandbox/Tests.antt =====
-- The theorem on pkg/sandbox at a concrete system.
use runkube.Common.{◌↔◌, ◌≡◌, refl, String, true, false, Option, none, some, [], ◌∷◌}
use Prim.Native.String.{◌++◌}
use runkube.Sandbox.{
  Call, link_by_name, System, Config, Payload, try_calls, attempt, set_hostname, link_up, pivot,
  file_mode_of, has_suffix, write, mount_at, bind, place,
}
use runkube.Sandbox.Run.{returned, set_up, start_command, after_mount, run, serve_commands}
use runkube.Sandbox.Run.Commands.{Completes, serve_commands_lem}
use runkube.Sandbox.Run.Endings.{EndsAs, run_lem}

abbrev payload : Payload
payload = record {
  target = "/bin/sh";
  file_mode = 0;
  source_type = "bind";
  source_value = "/bin/busybox";
}

abbrev config : Config
config = record {
  hostname = "node-a";
  machine_id = "m";
  ip_address = "127.0.0.1";
  command = "/bin/sh" ∷ [];
  env = [];
  payload = payload ∷ [];
}

-- A system without a loopback device.
abbrev no_link : Call → Option String
no_link (link_by_name l) = some "no such device"
no_link _ = none

abbrev system : System
system = record {
  answer = λ trace c. no_link c;
  is_dir = λ trace p. false;
  join = λ a b. a ++ b;
  dir = λ p. p;
}

run_stops : (run system config).0 ≡ returned (record { tag = "linkUp"; cause = "no such device" })
unfolding run set_up start_command after_mount try_calls attempt set_hostname link_up pivot
    file_mode_of has_suffix write mount_at bind place
run_stops = refl

pings :
    serve_commands (
      record { name = "ping"; answered = true }
      ∷ record { name = "complete"; answered = true }
      ∷ [])
    ≡ ("pong" ∷ "completed" ∷ [], true)
unfolding serve_commands
pings = refl

run_lem_example : EndsAs system config (run system config)
run_lem_example = run_lem system config

serve_commands_lem_example :
    ((serve_commands (record { name = "complete"; answered = true } ∷ [])).1 ≡ true)
    ↔ Completes (record { name = "complete"; answered = true } ∷ [])
serve_commands_lem_example = serve_commands_lem (record { name = "complete"; answered = true } ∷ [])
