-- ===== src/ControlPlane/Tests.antt =====
-- Runs of controlplane.go and comps.go on a concrete instance, and the theorems at such runs.
use runkube.Common.{
  ◌≡◌, ◌≢◌, refl, String, Bool, true, false, none, some, [], ◌∷◌, All, In, lookup, insert, concat,
  join_path, clean, fields, base, ◌+ℤ◌,
}
use runkube.Disk.{HasFile, read_file, write_file}
use runkube.Pki.{done, panicked}
use runkube.Pki.Toy.{toy, jose, fresh, chance, nothing, text}
use runkube.ControlPlane.{
  Config, World, Machine, and_then, hostname, cert_ref, key_set_ref, config_ref, unix_socket_path,
  url_string, kube_config_ref, ca_ref,
}
use runkube.Pki.{read, check_certificate, read_key, write, cert_data, key_data}
use runkube.Pki.Authorities
use runkube.Pki.Authorities.{
  certificate, self_signed, signed, sign, request_template, certificate_for_request, leaf_template,
  ca_template, clamp, ensure_key,
}
use runkube.Ref.{write_kube_config, write_config, write_object}
use runkube.Kapi.{rurl, url, descriptor, api_services}
use runkube.Kapi.Routes
use runkube.Kapi.Routes.{
  new_api, register, install_groups, install_group, all_resource_routes, resource_routes,
}
use runkube.Jwks
use runkube.Jwks.{write_after, new_key, store, write_new, keys_with_id, validate}
use runkube.ControlPlane.Requests.{etcd, init_requests, node_request, issue, ca}
use runkube.ControlPlane.Configs.{
  put_kube_config, put_config, put_object, make_extension_kubeconfig, make_api_kubeconfig,
  make_node_kubeconfig,
}
use runkube.ControlPlane.Configs.Webhooks.{write_manifests, make_admission_webhook}
use runkube.ControlPlane.Configs.Server.{
  make_egress_selector_config, make_authentication_config, make_authorization_config,
  make_admission_config, make_audit_policy, make_encryption_provider_config,
}
use runkube.ControlPlane.Init.{
  init, issue_all, kube_config_for, run_all, init_steps, make_api_service, add_objects, published,
  make_key_set, make_dir, setup_nodes, setup_node, write_objects,
}
use runkube.ControlPlane.Processes.{processes}
use runkube.ControlPlane.Commands.{cut_key, Exec, make_safe_env, is_safe, kubectl_exec}
use runkube.ControlPlane.Laws.Flags.{files}
use runkube.ControlPlane.Laws.Started.{init-files}
use runkube.ControlPlane.Laws.Panics.{init_panics}
use runkube.ControlPlane.Laws.Environment.{contains_key, kubectl_exec_lem}

abbrev pub config : Config
config = record {
  name = "dev";
  root = "/srv/dev";
  external_hostname = "dev.runkube.local";
  service_address_range = record { text = "fd00::/64"; next_addr = "fd00::1" };
  nodes = "node-a" ∷ [];
}

abbrev pub world : World toy
world = record {
  quote = λ t. t;
  escape_path = λ t. t;
  base64_url = λ b. "b64";
  base64_std = λ b. "b64";
  of_text = text;
  convert = λ v. some v;
  as_yaml = λ os. "yaml";
  encode_json = λ v. some nothing;
  jose = jose;
  chance = λ n. chance;
  fresh = λ n. fresh;
  self_binary = "/bin/runkube";
}

abbrev machine : (String → Bool) → Machine toy
machine unmakeable = record {
  disk = record {
    files = [];
    unreadable = λ _. false;
    unwritable = λ _. false;
    unmakeable = unmakeable;
  };
  ca_map = [];
  objects = [];
  runs = 0;
}

host : hostname config "etcd" ≡ "dev-etcd.internal.runkube"
unfolding hostname concat
host = refl

socket :
    url_string (λ t. t) (unix_socket_path config "etcd") ≡ "unixs:///srv/dev/run/etcd/dev-etcd.sock"
unfolding url_string unix_socket_path join_path concat
socket = refl

no_ca : lookup {V = _} etcd (machine (λ _. true)).ca_map ≡ none
unfolding lookup
no_ca = refl

init_panics_example : (init toy world false config (machine (λ _. true))).0 ≡ panicked
init_panics_example = init_panics world config false (machine (λ _. true)) no_ca refl

abbrev kubectl : Exec
kubectl = record {
  program = "/bin/kubectl";
  args = "get" ∷ [];
  env = "PATH=/bin" ∷ concat ("KUBECONFIG=" ∷ kube_config_ref config "system-admin" ∷ []) ∷ [];
}

runs_kubectl :
    kubectl_exec world
      (λ p. some "/bin/kubectl")
      config
      ("PATH=/bin" ∷ "KUBECONFIG=/evil" ∷ [])
      ("get" ∷ [])
    ≡ some kubectl
unfolding kubectl_exec make_safe_env is_safe cut_key
runs_kubectl = refl

kubectl_exec_lem_example :
    In (concat ("KUBECONFIG=" ∷ kube_config_ref config "system-admin" ∷ [])) kubectl.env
    × ((s : String)
        → In s kubectl.env
        → cut_key s ≡ "KUBECONFIG"
        → s ≡ concat ("KUBECONFIG=" ∷ kube_config_ref config "system-admin" ∷ []))
    × ((s : String)
        → In s kubectl.env
        → s ≢ concat ("KUBECONFIG=" ∷ kube_config_ref config "system-admin" ∷ [])
        → In s ("PATH=/bin" ∷ "KUBECONFIG=/evil" ∷ []) × (contains_key (cut_key s) ≡ true))
kubectl_exec_lem_example =
    kubectl_exec_lem world (λ p. some "/bin/kubectl") config ("PATH=/bin" ∷ "KUBECONFIG=/evil" ∷ [])
      ("get" ∷ []) kubectl runs_kubectl

-- The whole of `Init` on an empty disk.
initialised : (init toy world false config (machine (λ _. false))).0 ≡ done
unfolding init and_then issue_all init_requests issue ca Authorities.init certificate read
    check_certificate read_key self_signed signed sign request_template certificate_for_request
    leaf_template ca_template clamp ◌+ℤ◌ write cert_data key_data ensure_key read_file write_file
    insert lookup kube_config_for make_api_kubeconfig put_kube_config write_kube_config run_all
    init_steps make_extension_kubeconfig make_egress_selector_config make_authentication_config
    make_authorization_config make_admission_config make_audit_policy
    make_encryption_provider_config put_config write_config make_admission_webhook write_manifests
    put_object write_object make_api_service new_api register Routes.install install_groups
    install_group all_resource_routes resource_routes rurl url descriptor fields clean join_path
    concat base add_objects published api_services make_key_set Jwks.write write_after Jwks.read
    new_key store write_new keys_with_id jose make_dir setup_nodes setup_node node_request
    make_node_kubeconfig write_objects hostname unix_socket_path ca_ref cert_ref key_set_ref
    config_ref kube_config_ref validate
initialised = refl

init-files_example :
    All
      (λ p. All (HasFile (init toy world false config (machine (λ _. false))).1.disk) (files p))
      (processes world config)
init-files_example = init-files world config false (machine (λ _. false)) tt initialised
