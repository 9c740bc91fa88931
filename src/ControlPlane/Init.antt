-- ===== src/ControlPlane/Init.antt =====
-- controlplane.go: `Init`, and what it calls on the way.
use runkube.Common.{
  suc, String, Bool, true, false, Option, none, some, List, [], ◌∷◌, ◌++◌, ◌==◌, if◌then◌else◌,
  join, or_else,
}
use runkube.Disk.{Disk, read_file}
use runkube.Pki.{Crypto, Error, plain, Outcome, done, failed, panicked, outcome}
use runkube.Pki.Authorities.{Request}
use runkube.Jwks
use runkube.Jwks.{JwksRef}
use runkube.Kapi.{Value, field, end, text, num, obj, arr, nil, cons, Group, api_services}
use runkube.Kapi.Routes.{new_api}
use runkube.ControlPlane.{
  Config, World, Step, and_then, pass, internal_url, unix_socket_path, ca_ref, cert_ref,
  key_set_ref,
}
use runkube.ControlPlane.Requests.{api_client, webhook_server, init_requests, node_request, issue}
use runkube.ControlPlane.Configs.{
  put_config, make_extension_kubeconfig, make_api_kubeconfig, make_node_kubeconfig,
}
use runkube.ControlPlane.Configs.Webhooks.{make_admission_webhook}
use runkube.ControlPlane.Configs.Server.{
  make_egress_selector_config, make_authentication_config, make_authorization_config,
  make_admission_config, make_audit_policy, make_encryption_provider_config,
}

-- `defaultAPIGroups`
abbrev pub default_api_groups : List Group
default_api_groups =
    record {
      api_version = record { group = "api.runkube.internal"; version = "v1" };
      resources =
          record {
            group = "api.runkube.internal";
            version = "v1";
            kind = "Bucket";
            namespaced = false;
            resource = "buckets";
            verbs = [];
          }
          ∷ [];
    }
    ∷ record {
      api_version = record { group = "example-b.runkube.internal"; version = "v1" };
      resources =
          record {
            group = "example-b.runkube.internal";
            version = "v1";
            kind = "ExampleB";
            namespaced = true;
            resource = "examplesb";
            verbs = [];
          }
          ∷ [];
    }
    ∷ []

-- `ksvc`: the service by which the API server reaches the extension server.
abbrev service_object : String → String → Value
service_object namespace name = obj (
    field "kind" (text "Service") (
      field "apiVersion" (text "v1") (
        field "metadata" (obj (field "name" (text name) (field "namespace" (text namespace) end))) (
          field "spec"
            (obj (
              field "type" (text "ExternalName") (
                field "externalName" (text (join (name ∷ namespace ∷ "svc" ∷ []) ".")) (
                  field "ports"
                    (arr (
                      cons
                        (obj (
                          field "name" (text "api") (
                            field "protocol" (text "TCP")
                              (field "port" (num 443) (field "targetPort" (num 443) end)))))
                        nil))
                    end))))
            end))))

-- `objs`
unfoldable pub published : String → String → String → List Group → List Value
published namespace name ca_bundle groups =
    service_object namespace name ∷ api_services ca_bundle namespace name groups

module _ (x : Crypto) (w : World x) where
  -- `Syncer.Add`: up to the first object that does not convert.
  unfoldable pub add_objects : List Value → Step x
  add_objects [] s = (done, s)
  add_objects (o ∷ rest) s = elim (w.convert o) [
    | none ↦ (failed (plain "convert"), s)
    | some u ↦ add_objects rest (record s { objects = s.objects ++ u ∷ [] })
  ]

  unfoldable pub make_api_service : Config → List Group → Step x
  make_api_service c groups s =
      elim (read_file (ca_ref {x = x} c webhook_server).cert_path s.disk) [
        | none ↦ (failed (plain "open"), s)
        | some ca_bundle ↦ elim (new_api groups) [
          | none ↦ (panicked, s)
          | some mux ↦
              add_objects
                (published "kube-system" "api-runkube-internal" (w.base64_std ca_bundle) groups) s
        ]
      ]

  -- `keySetRef(name).Write`
  unfoldable pub make_key_set : Config → String → String → String → Step x
  make_key_set c name kid role s =
      let run : Outcome × JwksRef x × Disk x.Bytes =
        Jwks.write x w.jose (w.fresh s.runs) kid role (key_set_ref c name) s.disk in
      (run.0, record s { disk = run.2; runs = suc s.runs })

  -- `os.MkdirAll(path.Dir(p))`
  unfoldable pub make_dir : String → Step x
  make_dir p s = (if s.disk.unmakeable p then failed (plain "mkdir") else done, s)

  -- A client of the API server also gets a kubeconfig.
  unfoldable pub kube_config_for : Bool → Config → Request → Step x
  kube_config_for unix_listener c r =
      if r.signer == api_client
      then make_api_kubeconfig x w unix_listener c r.name (cert_ref c r.name)
      else pass

  -- The first loop.
  unfoldable pub issue_all : Bool → Config → List Request → Step x
  issue_all unix_listener c [] = pass
  issue_all unix_listener c (r ∷ rest) =
      and_then (issue x w c r)
        (and_then (kube_config_for unix_listener c r) (issue_all unix_listener c rest))

  -- A list of calls that return errors: all are made before the first error is returned.
  unfoldable pub run_all : List (Step x) → Option Error → Step x
  run_all [] first s = (outcome first, s)
  run_all (m ∷ rest) first s =
      let (o, s') = m s in
      elim o [
        | done ↦ run_all rest first s'
        | failed e ↦ run_all rest (some (or_else first e)) s'
        | panicked ↦ (panicked, s')
      ]

  unfoldable pub init_steps : Config → List (Step x)
  init_steps c =
      make_extension_kubeconfig x w c "authentication-token-webhook"
        (internal_url c "authentication-webhook")
      ∷ make_extension_kubeconfig x w c "authorization-webhook"
          (internal_url c "authorization-webhook")
      ∷ make_extension_kubeconfig x w c "audit-webhook" (internal_url c "audit-webhook")
      ∷ make_egress_selector_config x w c
      ∷ make_authentication_config x w c
      ∷ make_authorization_config x w c
      ∷ make_admission_config x w c
      ∷ make_audit_policy x w c
      ∷ make_admission_webhook x w c
      ∷ make_encryption_provider_config x w c
      ∷ make_api_service c default_api_groups
      ∷ make_key_set c "encryption" "default" "encryption"
      ∷ make_key_set c "serviceaccount" "default" "signing"
      ∷ make_dir (unix_socket_path c "etcd").path
      ∷ make_dir (unix_socket_path c "etcd-peer").path
      ∷ make_dir (unix_socket_path c "etcd-http").path
      ∷ []

  unfoldable pub setup_node : Config → String → Step x
  setup_node c node =
      and_then (issue x w c (node_request node)) (make_node_kubeconfig x w c node (cert_ref c node))

  unfoldable pub setup_nodes : Config → List String → Step x
  setup_nodes c [] = pass
  setup_nodes c (n ∷ rest) = and_then (setup_node c n) (setup_nodes c rest)

  -- `configRef("syncer.objects").Write(c.syncer.AsYAML())`
  unfoldable pub write_objects : Config → Step x
  write_objects c s = put_config x w c "syncer.objects" (w.as_yaml s.objects) s

  -- `Init`: with a new syncer.
  unfoldable pub init : Bool → Config → Step x
  init unix_listener c s =
      and_then (issue_all unix_listener c (init_requests c))
        (and_then (run_all (init_steps c) none)
          (and_then (setup_nodes c c.nodes) (write_objects c)))
        (record s { objects = [] })
