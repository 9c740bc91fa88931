-- ===== src/ControlPlane/Configs/Server.antt =====
-- controlplane.go: the configuration of the API server, as `Init` writes it.
use runkube.Common.{[], ◌∷◌, concat, join, join_path}
use runkube.Pki.{Crypto}
use runkube.ControlPlane.{Config, World, Step, unix_socket_url, kube_config_ref}
use runkube.ControlPlane.Configs.{put_config}

module _ (x : Crypto) (w : World x) where
  unfoldable pub make_egress_selector_config : Config → Step x
  make_egress_selector_config c = put_config x w c "egress-selector-config" (
      join
        (""
          ∷ "apiVersion: apiserver.k8s.io/v1beta1"
          ∷ "kind: EgressSelectorConfiguration"
          ∷ "egressSelections:"
          ∷ "- name: cluster"
          ∷ "  connection:"
          ∷ "    proxyProtocol: HTTPConnect"
          ∷ "\t\ttransport:"
          ∷ "\t\t\tuds:"
          ∷ concat ("\t\t\t\tudsName: " ∷ w.quote ((unix_socket_url c "frontend").opaque) ∷ [])
          ∷ "- name: controlplane"
          ∷ "  connection:"
          ∷ "    proxyProtocol: HTTPConnect"
          ∷ "\t\ttransport:"
          ∷ "\t\t\tuds:"
          ∷ concat ("\t\t\t\tudsName: " ∷ w.quote ((unix_socket_url c "frontend").opaque) ∷ [])
          ∷ ""
          ∷ [])
        "\n")

  unfoldable pub make_authorization_config : Config → Step x
  make_authorization_config c = put_config x w c "authorization-config" (
      join
        (""
          ∷ "kind: AuthorizationConfiguration"
          ∷ "apiVersion: apiserver.config.k8s.io/v1beta1"
          ∷ "authorizers:"
          ∷ "- name: authorizer-internal.runkube"
          ∷ "  type: Webhook"
          ∷ "  webhook:"
          ∷ "    failurePolicy: Deny"
          ∷ "    timeout: 3s"
          ∷ "    subjectAccessReviewVersion: v1"
          ∷ "    matchConditionSubjectAccessReviewVersion: v1"
          ∷ "    connectionInfo:"
          ∷ "      type: KubeConfigFile"
          ∷ concat
              ("      kubeConfigFile: " ∷ w.quote (kube_config_ref c "authorization-webhook") ∷ [])
          ∷ "- name: node"
          ∷ "  type: Node"
          ∷ "- name: rbac"
          ∷ "  type: RBAC"
          ∷ ""
          ∷ [])
        "\n")

  unfoldable pub make_authentication_config : Config → Step x
  make_authentication_config c = put_config x w c "authentication-config" (
      join
        ("" ∷ "apiVersion: apiserver.config.k8s.io/v1beta1" ∷ "kind: AuthenticationConfiguration"
          ∷ "" ∷ [])
        "\n")

  unfoldable pub make_admission_config : Config → Step x
  make_admission_config c = put_config x w c "admission-config" (
      join
        (""
          ∷ "apiVersion: apiserver.config.k8s.io/v1"
          ∷ "kind: AdmissionConfiguration"
          ∷ "plugins:"
          ∷ "- name: ValidatingAdmissionWebhook"
          ∷ "  configuration:"
          ∷ "\t\tapiVersion: apiserver.config.k8s.io/v1"
          ∷ "\t\tkind: WebhookAdmissionConfiguration"
          ∷ concat (
              "\t\tstaticManifestsDir: "
              ∷ w.quote (join_path (c.root ∷ "/etc/kubernetes/confgen/validating" ∷ []))
              ∷ [])
          ∷ "- name: MutatingAdmissionWebhook"
          ∷ "\tconfiguration:"
          ∷ "\t\tapiVersion: apiserver.config.k8s.io/v1"
          ∷ "\t\tkind: WebhookAdmissionConfiguration"
          ∷ concat (
              "\t\tstaticManifestsDir: "
              ∷ w.quote (join_path (c.root ∷ "/etc/kubernetes/confgen/mutating" ∷ []))
              ∷ [])
          ∷ ""
          ∷ [])
        "\n")

  unfoldable pub make_encryption_provider_config : Config → Step x
  make_encryption_provider_config c = put_config x w c "encryption-provider-config" (
      join
        (""
          ∷ "kind: EncryptionConfiguration"
          ∷ "apiVersion: apiserver.config.k8s.io/v1"
          ∷ "resources:"
          ∷ "- resources:"
          ∷ "  - '*.*'"
          ∷ "  providers:"
          ∷ "  - kms:"
          ∷ "      name: kms"
          ∷ "      apiVersion: v2"
          ∷ concat ("\t\t\tendpoint: unix:/" ∷ (unix_socket_url c "kms").opaque ∷ [])
          ∷ "  - identity: {}"
          ∷ ""
          ∷ [])
        "\n")

  unfoldable pub make_audit_policy : Config → Step x
  make_audit_policy c = put_config x w c "audit-policy" (
      join
        ("" ∷ "apiVersion: audit.k8s.io/v1" ∷ "kind: Policy" ∷ "omitManagedFields: true"
          ∷ "omitStages:" ∷ "  - RequestReceived" ∷ "  - ResponseStarted" ∷ "rules:"
          ∷ "  - level: RequestResponse" ∷ "" ∷ [])
        "\n")
