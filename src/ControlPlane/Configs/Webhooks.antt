-- ===== src/ControlPlane/Configs/Webhooks.antt =====
-- webhook.go: `makeAdmissionWebhook`, the two admission webhooks as static manifests. An object holds the
-- fields that are set; the bundle of the authority is encoded as JSON encodes bytes.
use runkube.Common.{String, [], ◌∷◌, none, some, concat}
use runkube.Disk.{read_file}
use runkube.Pki.{Crypto, PkiRef, plain, failed}
use runkube.Kapi.{Value, Fields, text, obj, arr, nil, cons, field, end}
use runkube.ControlPlane.{Config, World, Step, and_then, url_string, hostname, internal_url, ca_ref}
use runkube.ControlPlane.Requests.{webhook_server}
use runkube.ControlPlane.Configs.{put_object}

abbrev texts : String → Value
texts t = arr (cons (text t) nil)

-- `rules`: everything.
abbrev rules : Value
rules = arr (
    cons
      (obj (
        field "operations" (texts "*") (
          field "apiGroups" (texts "*") (
            field "apiVersions" (texts "*")
              (field "resources" (texts "*/*") (field "scope" (text "*") end))))))
      nil)

module _ (x : Crypto) (w : World x) where
  -- The configuration of one webhook: its kind, its tag, and the field that the mutating one has more.
  unfoldable pub webhook_configuration :
      Config → String → String → (Fields → Fields) → String → Value
  webhook_configuration c kind tag more ca_bundle = obj (
      field "kind" (text kind) (
        field "apiVersion" (text "admissionregistration.k8s.io/v1") (
          field "metadata"
            (obj (field "name" (text (concat (hostname c tag ∷ ".static.k8s.io" ∷ []))) end))
            (field "webhooks"
              (arr (
                cons
                  (obj (
                    field "name" (text (hostname c tag)) (
                      field "clientConfig"
                        (obj (
                          field "url" (text (url_string w.escape_path (internal_url c tag)))
                            (field "caBundle" (text ca_bundle) end)))
                        (field "rules" rules (
                          field "failurePolicy" (text "Fail") (
                            field "matchPolicy" (text "Equivalent") (
                              field "sideEffects" (text "None")
                                (more (field "admissionReviewVersions" (texts "v1") end)))))))))
                  nil))
              end))))

  unfoldable pub write_manifests : Config → String → Step x
  write_manifests c ca_bundle =
      and_then
        (put_object x w c "validating/static.json" (
          webhook_configuration c "ValidatingWebhookConfiguration" "validating-webhook"
            (λ rest. rest) ca_bundle))
        (put_object x w c "mutating/static.json" (
          webhook_configuration c "MutatingWebhookConfiguration" "mutating-webhook"
            (λ rest. field "reinvocationPolicy" (text "IfNeeded") rest) ca_bundle))

  unfoldable pub make_admission_webhook : Config → Step x
  make_admission_webhook c s =
      let authority : PkiRef x = ca_ref c webhook_server in
      elim (read_file authority.cert_path s.disk) [
        | none ↦ (failed (plain "open"), s)
        | some b ↦ write_manifests c (w.base64_std b) s
      ]
