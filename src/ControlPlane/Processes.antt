-- ===== src/ControlPlane/Processes.antt =====
-- comps.go: the processes of a control plane, with their arguments.
use runkube.Common.{String, List, [], ◌∷◌, ◌++◌, concat, map}
use runkube.Pki.{Crypto, PkiRef}
use runkube.ControlPlane.{
  Config, World, internal_listen_addr, unix_socket_url, unix_socket_path, url_string,
  internal_listen_url, ca_ref, cert_ref, config_ref, kube_config_ref, etcd_dir,
}
use runkube.ControlPlane.Requests.{etcd, api_client, request_header, kubelet_server}

-- `process.Process`
pub record Process : Type 0 where
  pub tag : String
  pub cmd_args : List String

module _ {x : Crypto} (w : World x) where
  abbrev escape : String → String
  escape = w.escape_path

  abbrev self : String
  self = w.self_binary

  abbrev cert_of : Config → String → PkiRef x
  cert_of = cert_ref

  abbrev ca_of : Config → String → PkiRef x
  ca_of = ca_ref

  unfoldable pub etcd_process : Config → Process
  etcd_process c =
      let etcd_name = concat (c.name ∷ "-etcd" ∷ []) in
      record {
        tag = "etcd";
        cmd_args =
            "etcd"
            ∷ "--name"
            ∷ etcd_name
            ∷ "--log-level"
            ∷ "warn"
            ∷ "--data-dir"
            ∷ etcd_dir c
            ∷ "--listen-client-urls"
            ∷ url_string escape (unix_socket_path c "etcd")
            ∷ "--listen-peer-urls"
            ∷ url_string escape (unix_socket_path c "etcd-peer")
            ∷ "--listen-client-http-urls"
            ∷ url_string escape (unix_socket_path c "etcd-http")
            ∷ "--initial-cluster"
            ∷ concat (etcd_name ∷ "=" ∷ internal_listen_url escape "443" "" ∷ [])
            ∷ "--advertise-client-urls"
            ∷ internal_listen_url escape "443" ""
            ∷ "--initial-advertise-peer-urls"
            ∷ internal_listen_url escape "443" ""
            ∷ "--cert-file"
            ∷ (cert_of c "etcd-serving").cert_path
            ∷ "--key-file"
            ∷ (cert_of c "etcd-serving").key_path
            ∷ "--peer-cert-file"
            ∷ (cert_of c "etcd-serving").cert_path
            ∷ "--peer-key-file"
            ∷ (cert_of c "etcd-serving").key_path
            ∷ "--peer-client-cert-file"
            ∷ (cert_of c "etcd-peer-client").cert_path
            ∷ "--peer-client-key-file"
            ∷ (cert_of c "etcd-peer-client").key_path
            ∷ "--trusted-ca-file"
            ∷ (ca_of c etcd).cert_path
            ∷ "--peer-trusted-ca-file"
            ∷ (ca_of c etcd).cert_path
            ∷ [];
      }

  unfoldable pub api_server_process : Config → Process
  api_server_process c = record {
    tag = "api";
    cmd_args =
        "kube-apiserver"
        ∷ "-v"
        ∷ "0"
        ∷ "--profiling=false"
        ∷ "--feature-gates=AllAlpha=true,AllBeta=true"
        ∷ "--logging-format=json"
        ∷ "--bind-address"
        ∷ internal_listen_addr
        ∷ "--secure-port=6443"
        ∷ "--tls-cert-file"
        ∷ (cert_of c "apiserver-serving").cert_path
        ∷ "--tls-private-key-file"
        ∷ (cert_of c "apiserver-serving").key_path
        ∷ "--proxy-client-cert-file"
        ∷ (cert_of c "apiserver-extension-client").cert_path
        ∷ "--proxy-client-key-file"
        ∷ (cert_of c "apiserver-extension-client").key_path
        ∷ "--external-hostname"
        ∷ c.external_hostname
        ∷ "--advertise-address"
        ∷ c.service_address_range.next_addr
        ∷ "--etcd-servers"
        ∷ url_string escape (unix_socket_path c "etcd")
        ∷ "--etcd-cafile"
        ∷ (ca_of c etcd).cert_path
        ∷ "--etcd-certfile"
        ∷ (cert_of c "apiserver-etcd-client").cert_path
        ∷ "--etcd-keyfile"
        ∷ (cert_of c "apiserver-etcd-client").key_path
        ∷ "--encryption-provider-config"
        ∷ config_ref c "encryption-provider-config"
        ∷ "--runtime-config"
        ∷ "api/all=true"
        ∷ "--service-cluster-ip-range"
        ∷ c.service_address_range.text
        ∷ "--audit-policy-file"
        ∷ config_ref c "audit-policy"
        ∷ "--audit-webhook-config-file"
        ∷ kube_config_ref c "audit-webhook"
        ∷ "--audit-webhook-batch-throttle-enable=false"
        ∷ "--authorization-config"
        ∷ config_ref c "authorization-config"
        ∷ "--enable-admission-plugins"
        ∷ "NodeRestriction,DenyServiceExternalIPs"
        ∷ "--admission-control-config-file"
        ∷ config_ref c "admission-config"
        ∷ "--allow-privileged=false"
        ∷ "--authentication-config"
        ∷ config_ref c "authentication-config"
        ∷ "--anonymous-auth=true"
        ∷ "--enable-bootstrap-token-auth=false"
        ∷ "--authentication-token-webhook-config-file"
        ∷ kube_config_ref c "authentication-token-webhook"
        ∷ "--client-ca-file"
        ∷ (ca_of c api_client).cert_path
        ∷ "--requestheader-client-ca-file"
        ∷ (ca_of c request_header).cert_path
        ∷ "--requestheader-extra-headers-prefix=X-Remote-Extra-"
        ∷ "--requestheader-group-headers=X-Remote-Group"
        ∷ "--requestheader-username-headers=X-Remote-User"
        ∷ "--requestheader-uid-headers=X-Remote-UID"
        ∷ "--service-account-lookup=false"
        ∷ "--service-account-issuer"
        ∷ concat ("https://" ∷ c.external_hostname ∷ [])
        ∷ "--service-account-max-token-expiration=1h"
        ∷ "--service-account-extend-token-expiration=false"
        ∷ "--service-account-signing-endpoint"
        ∷ (unix_socket_url c "jwtsigner").opaque
        ∷ "--kubelet-certificate-authority"
        ∷ (ca_of c kubelet_server).cert_path
        ∷ "--kubelet-client-certificate"
        ∷ (cert_of c "apiserver-kubelet-client").cert_path
        ∷ "--kubelet-client-key"
        ∷ (cert_of c "apiserver-kubelet-client").key_path
        ∷ "--kubelet-preferred-address-types"
        ∷ "Hostname"
        ∷ "--egress-selector-config-file"
        ∷ config_ref c "egress-selector-config"
        ∷ [];
  }

  unfoldable pub controller_process : Config → Process
  controller_process c = record {
    tag = "controller";
    cmd_args =
        "kube-controller-manager"
        ∷ "-v"
        ∷ "0"
        ∷ "--feature-gates=AllAlpha=true,AllBeta=true"
        ∷ "--profiling=false"
        ∷ "--logging-format=json"
        ∷ "--leader-elect=false"
        ∷ "--bind-address"
        ∷ internal_listen_addr
        ∷ "--tls-cert-file"
        ∷ (cert_of c "controller-manager-server").cert_path
        ∷ "--tls-private-key-file"
        ∷ (cert_of c "controller-manager-server").key_path
        ∷ "--kubeconfig"
        ∷ kube_config_ref c "controller-manager-client"
        ∷ "--authentication-kubeconfig"
        ∷ kube_config_ref c "controller-manager-authnz"
        ∷ "--authorization-kubeconfig"
        ∷ kube_config_ref c "controller-manager-authnz"
        ∷ "--authentication-tolerate-lookup-failure=true"
        ∷ "--use-service-account-credentials=true"
        ∷ "--controllers"
        ∷ "*,-serviceaccount-token-controller,-legacy-serviceaccount-token-cleaner-controller"
        ∷ [];
  }

  unfoldable pub scheduler_process : Config → Process
  scheduler_process c = record {
    tag = "scheduler";
    cmd_args =
        "kube-scheduler"
        ∷ "-v"
        ∷ "0"
        ∷ "--feature-gates=AllAlpha=true,AllBeta=true"
        ∷ "--profiling=false"
        ∷ "--logging-format=json"
        ∷ "--bind-address"
        ∷ internal_listen_addr
        ∷ "--tls-cert-file"
        ∷ (cert_of c "scheduler-server").cert_path
        ∷ "--tls-private-key-file"
        ∷ (cert_of c "scheduler-server").key_path
        ∷ "--leader-elect=false"
        ∷ "--kubeconfig"
        ∷ kube_config_ref c "scheduler-client"
        ∷ "--authentication-kubeconfig"
        ∷ kube_config_ref c "scheduler-authnz"
        ∷ "--authorization-kubeconfig"
        ∷ kube_config_ref c "scheduler-authnz"
        ∷ "--authentication-tolerate-lookup-failure=true"
        ∷ [];
  }

  unfoldable pub webhook_process : Config → Process
  webhook_process c = record { tag = "webhook"; cmd_args = self ∷ "webhook" ∷ [] }

  unfoldable pub kms_plugin_process : Config → Process
  kms_plugin_process c = record { tag = "kms"; cmd_args = self ∷ "kms" ∷ [] }

  unfoldable pub jwt_signer_process : Config → Process
  jwt_signer_process c = record { tag = "jwtsigner"; cmd_args = self ∷ "jwtsigner" ∷ [] }

  unfoldable pub node_process : String → Process
  node_process n = record { tag = n; cmd_args = self ∷ "node" ∷ n ∷ [] }

  unfoldable pub node_processes : Config → List Process
  node_processes c = map node_process c.nodes

  -- The formation of `Run`.
  unfoldable pub processes : Config → List Process
  processes c =
      (etcd_process c
        ∷ api_server_process c
        ∷ controller_process c
        ∷ scheduler_process c
        ∷ webhook_process c
        ∷ kms_plugin_process c
        ∷ jwt_signer_process c
        ∷ [])
      ++ node_processes c
