-- ===== src/ControlPlane/Laws/Flags.antt =====
-- comps.go: which files the arguments of a process name.
use runkube.Common.{String, List, [], ◌∷◌, contains, if◌then◌else◌, drop}
use runkube.ControlPlane.Processes.{Process}

-- The flags of etcd, kube-apiserver, kube-controller-manager and kube-scheduler whose value is the path
-- of a file that is read at the start.
abbrev file_flags : List String
file_flags =
    "--cert-file" ∷ "--key-file" ∷ "--peer-cert-file" ∷ "--peer-key-file"
    ∷ "--peer-client-cert-file" ∷ "--peer-client-key-file" ∷ "--trusted-ca-file"
    ∷ "--peer-trusted-ca-file" ∷ "--tls-cert-file" ∷ "--tls-private-key-file"
    ∷ "--proxy-client-cert-file" ∷ "--proxy-client-key-file" ∷ "--etcd-cafile" ∷ "--etcd-certfile"
    ∷ "--etcd-keyfile" ∷ "--encryption-provider-config" ∷ "--audit-policy-file"
    ∷ "--audit-webhook-config-file" ∷ "--authorization-config" ∷ "--admission-control-config-file"
    ∷ "--authentication-config" ∷ "--authentication-token-webhook-config-file" ∷ "--client-ca-file"
    ∷ "--requestheader-client-ca-file" ∷ "--kubelet-certificate-authority"
    ∷ "--kubelet-client-certificate" ∷ "--kubelet-client-key" ∷ "--egress-selector-config-file"
    ∷ "--kubeconfig" ∷ "--authentication-kubeconfig" ∷ "--authorization-kubeconfig" ∷ []

-- The flags whose value is something else.
abbrev value_flags : List String
value_flags =
    "--name" ∷ "--log-level" ∷ "--data-dir" ∷ "--listen-client-urls" ∷ "--listen-peer-urls"
    ∷ "--listen-client-http-urls" ∷ "--initial-cluster" ∷ "--advertise-client-urls"
    ∷ "--initial-advertise-peer-urls" ∷ "-v" ∷ "--bind-address" ∷ "--external-hostname"
    ∷ "--advertise-address" ∷ "--etcd-servers" ∷ "--runtime-config" ∷ "--service-cluster-ip-range"
    ∷ "--enable-admission-plugins" ∷ "--service-account-issuer"
    ∷ "--service-account-signing-endpoint" ∷ "--kubelet-preferred-address-types" ∷ "--controllers"
    ∷ []

-- The files that arguments name: the values of the flags of the first list.
files_of : List String → List String
files_of [] = []
files_of (a ∷ []) = []
files_of (a ∷ v ∷ rest) =
    let after = files_of rest in
    let next = files_of (v ∷ rest) in
    if contains file_flags a then v ∷ after else if contains value_flags a then after else next

-- The files that a process is told of, after the name of the program.
unfoldable pub files : Process → List String
unfolding files_of
files p = files_of (drop 1 p.cmd_args)
