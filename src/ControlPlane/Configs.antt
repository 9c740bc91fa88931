-- ===== src/ControlPlane/Configs.antt =====
-- controlplane.go: the kubeconfigs and configuration files that `Init` writes.
use runkube.Common.{
  ℕ, String, Bool, Option, none, some, List, [], ◌∷◌, ◌++◌, concat, join, join_path, map,
}
use runkube.Disk.{Disk, read_file}
use runkube.Pki.{Crypto, PkiRef, Error, plain, Outcome, done, failed, panicked}
use runkube.Ref.{
  WriteError, mkdir, encode, open_file, write_kube_config, write_config, write_object,
}
use runkube.Kapi.{Value}
use runkube.ControlPlane.{
  Config, World, Machine, Step, Url, url_string, hostname, unix_socket_url, apiserver_url, ca_ref,
  cert_ref, config_ref, kube_config_ref,
}
use runkube.ControlPlane.Requests.{api_server, webhook_server}
pub mod Server
pub mod Webhooks

module _ (x : Crypto) (w : World x) where
  written : Option WriteError × Disk x.Bytes → Step x
  written (none, d) s = (done, record s { disk = d })
  written (some mkdir, d) s = (failed (plain "mkdir"), record s { disk = d })
  written (some encode, d) s = (failed (plain "encode"), record s { disk = d })
  written (some open_file, d) s = (failed (plain "open"), record s { disk = d })

  -- `kubeConfigRef(name).Write`
  unfoldable pub put_kube_config : Config → String → String → Step x
  unfolding written
  put_kube_config c name text s =
      written (write_kube_config w.of_text (kube_config_ref c name) text s.disk) s

  -- `configRef(name).Write`
  unfoldable pub put_config : Config → String → String → Step x
  unfolding written
  put_config c name text s = written (write_config w.of_text (config_ref c name) text s.disk) s

  -- `configRef(name).WriteObject`
  unfoldable pub put_object : Config → String → Value → Step x
  unfolding written
  put_object c name o s = written (write_object w.encode_json (config_ref c name) o s.disk) s

  -- `CertBase64String` and `KeyBase64String`: empty if the file is not read.
  unfoldable pub cert_base64 : PkiRef x → Disk x.Bytes → String
  cert_base64 p d = elim (read_file p.cert_path d) [ none ↦ "" | some b ↦ w.base64_url b ]

  unfoldable pub key_base64 : PkiRef x → Disk x.Bytes → String
  key_base64 p d = elim (read_file p.key_path d) [ none ↦ "" | some b ↦ w.base64_url b ]

  -- The text of `makeExtensionKubeconfig`.
  unfoldable pub extension_kubeconfig : Config → Url → Disk x.Bytes → String
  extension_kubeconfig c srv d =
      join
        (""
          ∷ "apiVersion: v1"
          ∷ "kind: Config"
          ∷ "current-context: default"
          ∷ "clusters:"
          ∷ "- name: default"
          ∷ "  cluster:"
          ∷ concat ("    server: " ∷ w.quote (url_string w.escape_path srv) ∷ [])
          ∷ concat (
              "    certificate-authority-data: "
              ∷ w.quote (cert_base64 (ca_ref c webhook_server) d)
              ∷ [])
          ∷ "contexts:"
          ∷ "- name: default"
          ∷ "  context:"
          ∷ "    cluster: default"
          ∷ "    user: default"
          ∷ "users:"
          ∷ "- name: default"
          ∷ "  user:"
          ∷ concat (
              "    client-certificate-data: "
              ∷ w.quote (cert_base64 (cert_ref c "apiserver-extension-client") d)
              ∷ [])
          ∷ concat (
              "    client-key-data: "
              ∷ w.quote (key_base64 (cert_ref c "apiserver-extension-client") d)
              ∷ [])
          ∷ ""
          ∷ [])
        "\n"

  unfoldable pub make_extension_kubeconfig : Config → String → Url → Step x
  make_extension_kubeconfig c name srv s =
      put_kube_config c name (extension_kubeconfig c srv s.disk) s

  -- The text of `makeAPIKubeconfig`.
  unfoldable pub api_kubeconfig : Bool → Config → PkiRef x → Disk x.Bytes → String
  api_kubeconfig unix_listener c p d =
      join
        (""
          ∷ "apiVersion: v1"
          ∷ "kind: Config"
          ∷ "current-context: default"
          ∷ "clusters:"
          ∷ "- name: default"
          ∷ "  cluster:"
          ∷ concat ("    server: " ∷ w.quote (apiserver_url w.escape_path unix_listener c) ∷ [])
          ∷ concat ("    tls-server-name: " ∷ w.quote (c.external_hostname) ∷ [])
          ∷ concat (
              "    certificate-authority-data: "
              ∷ w.quote (cert_base64 (ca_ref c api_server) d)
              ∷ [])
          ∷ "contexts:"
          ∷ "- name: default"
          ∷ "  context:"
          ∷ "    cluster: default"
          ∷ "    user: default"
          ∷ "users:"
          ∷ "- name: default"
          ∷ "  user:"
          ∷ concat ("    client-certificate-data: " ∷ w.quote (cert_base64 p d) ∷ [])
          ∷ concat ("    client-key-data: " ∷ w.quote (key_base64 p d) ∷ [])
          ∷ ""
          ∷ [])
        "\n"

  unfoldable pub make_api_kubeconfig : Bool → Config → String → PkiRef x → Step x
  make_api_kubeconfig unix_listener c name p s =
      put_kube_config c name (api_kubeconfig unix_listener c p s.disk) s

  -- The text of `makeNodeKubeconfig`.
  unfoldable pub node_kubeconfig : Config → PkiRef x → Disk x.Bytes → String
  node_kubeconfig c p d =
      join
        (""
          ∷ "apiVersion: v1"
          ∷ "kind: Config"
          ∷ "current-context: default"
          ∷ "clusters:"
          ∷ "- name: default"
          ∷ "  cluster:"
          ∷ concat (
              "    server: "
              ∷ w.quote (
                  url_string w.escape_path (record {
                    scheme = "https";
                    opaque = "";
                    host = hostname c "apiserver";
                    path = "";
                  }))
              ∷ [])
          ∷ concat (
              "    certificate-authority-data: "
              ∷ w.quote (cert_base64 (ca_ref c api_server) d)
              ∷ [])
          ∷ "contexts:"
          ∷ "- name: default"
          ∷ "  context:"
          ∷ "    cluster: default"
          ∷ "    user: default"
          ∷ "users:"
          ∷ "- name: default"
          ∷ "  user:"
          ∷ concat ("    client-certificate-data: " ∷ w.quote (cert_base64 p d) ∷ [])
          ∷ concat ("    client-key-data: " ∷ w.quote (key_base64 p d) ∷ [])
          ∷ ""
          ∷ [])
        "\n"

  unfoldable pub make_node_kubeconfig : Config → String → PkiRef x → Step x
  make_node_kubeconfig c node p s = put_kube_config c node (node_kubeconfig c p s.disk) s
