-- ===== src/ControlPlane/Requests.antt =====
-- controlplane.go: the certificates that `Init` and `setupNode` ask for, and pki.go: `CA`.
use runkube.Common.{
  suc, String, Option, none, some, List, [], ◌∷◌, lookup, insert, concat, base, pos,
}
use runkube.Pki.{Crypto, Error, PkiRef, panicked, outcome, ExtKeyUsage, server_auth, client_auth}
use runkube.Disk.{Disk}
use runkube.Pki.Authorities.{Request, Ca, init, certificate}
use runkube.ControlPlane.{
  Config, World, Machine, Step, hostname, unix_socket_path, internal_listen_addr, ca_ref, cert_ref,
}

-- The names of the authorities.
abbrev pub api_server : String
api_server = "apiserver"

abbrev pub api_client : String
api_client = "apiclient"

abbrev pub etcd : String
etcd = "etcd"

abbrev pub extension_api_server : String
extension_api_server = "extensionapiserver"

abbrev pub request_header : String
request_header = "requestheader"

abbrev pub kubelet_server : String
kubelet_server = "kubeletserver"

abbrev pub webhook_server : String
webhook_server = "webhookserver"

-- A request without a lifetime, without an organisation, names and addresses.
abbrev request : String → String → List ExtKeyUsage → String → Request
request name signer usages cn = record {
  name = name;
  signer = signer;
  usages = usages;
  lifetime = pos 0;
  cn = cn;
  o = [];
  san = [];
  ip = [];
}

-- A certificate by which a component is a client, under its user name.
abbrev client : String → String → String → Request
client name signer cn = request name signer (client_auth ∷ []) cn

-- The first request.
abbrev pub etcd_serving_request : Config → Request
etcd_serving_request c =
    record (request "etcd-serving" etcd (server_auth ∷ client_auth ∷ [])
      (hostname c "etcd-serving")) { san = base (unix_socket_path c "etcd").path ∷ [] }

-- `reqs`
unfoldable pub init_requests : Config → List Request
init_requests c =
    etcd_serving_request c
    ∷ client "etcd-peer-client" etcd (hostname c "etcd-peer-client")
    ∷ client "apiserver-etcd-client" etcd (hostname c "etcd-client")
    ∷ record (request "webhook-server" webhook_server (server_auth ∷ []) (hostname c "webhook")) {
      ip = internal_listen_addr ∷ [];
      san =
          "api-runkube-internal.kube-system.svc"
          ∷ hostname c "authentication-webhook"
          ∷ hostname c "authorization-webhook"
          ∷ hostname c "mutating-webhook"
          ∷ hostname c "validating-webhook"
          ∷ hostname c "audit-webhook"
          ∷ [];
    }
    ∷ record (request "apiserver-serving" api_server (server_auth ∷ []) (hostname c "apiserver")) {
      san = hostname c "apiserver" ∷ c.external_hostname ∷ [];
      ip = internal_listen_addr ∷ [];
    }
    ∷ client "apiserver-kubelet-client" api_client "system:kubelet-apiserver-client"
    ∷ client "apiserver-extension-client" extension_api_server "system:apiserver-extension-client"
    ∷ client "requestheader-client" request_header "system:requestheader-client"
    ∷ request "kubelet-server-unused" kubelet_server [] "kubelet-server-unused"
    ∷ record (client "system-admin" api_client "system:system-admin") { o = "system:masters" ∷ [] }
    ∷ client "controller-manager-client" api_client "system:kube-controller-manager"
    ∷ client "controller-manager-authnz" api_client "system:controller-manager-authnz"
    ∷ record (request "controller-manager-server" api_client (server_auth ∷ [])
        "system:kube-controller-manager") {
          san = hostname c "controller-manager-server" ∷ [];
          ip = internal_listen_addr ∷ [];
        }
    ∷ client "scheduler-client" api_client "system:kube-scheduler"
    ∷ record (request "scheduler-server" api_client (server_auth ∷ []) "system:kube-scheduler") {
      san = hostname c "scheduler-server" ∷ [];
      ip = internal_listen_addr ∷ [];
    }
    ∷ client "scheduler-authnz" api_client "system:scheduler-authnz"
    ∷ []

-- The request of `setupNode`.
unfoldable pub node_request : String → Request
node_request node = record (client node api_client (concat ("system:node:" ∷ node ∷ []))) {
  o = "system:nodes" ∷ [];
}

module _ (x : Crypto) (w : World x) where
  -- `CA`: the authority of that name, made if it is not there yet; none if it cannot be made.
  unfoldable pub ca : Config → String → Machine x → Option (Ca x) × Machine x
  ca c name s = elim (lookup name s.ca_map) [
    | some known ↦ (some known, s)
    | none ↦
        let blank : Ca x = record { name = name; lifetime = pos 0; p = ca_ref c name } in
        let made : Option Error × Ca x × Disk x.Bytes =
          init x (w.chance s.runs) blank (ca_ref c name) s.disk in
        let s' : Machine x = record s { disk = made.2; runs = suc s.runs } in
        elim made.0 [
          | some e ↦ (none, s')
          | none ↦ (some made.1, record s' { ca_map = insert name made.1 s.ca_map })
        ]
  ]

  -- `c.CA(r.signer).Certificate(c.certRef(r.name), r)`. `Certificate` panics without an authority.
  unfoldable pub issue : Config → Request → Step x
  issue c r s =
      let (authority, s') = ca c r.signer s in
      elim authority [
        | none ↦ (panicked, s')
        | some a ↦
            let run : Option Error × PkiRef x × Disk x.Bytes =
              certificate x (w.chance s'.runs) a (cert_ref c r.name) r s'.disk in
            (outcome run.0, record s' { disk = run.2; runs = suc s'.runs })
      ]
