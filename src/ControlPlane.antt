-- ===== src/ControlPlane.antt =====
-- controlplane.go: the names, addresses and paths of a control plane, and its state on one machine.
-- Texts that `Sprintf` and package net/url make are made here by `concat` and `url_string`.
use runkube.Common.{
  ℕ, ◌+◌, String, Bool, true, false, not, ◌&&◌, ◌||◌, Option, none, some, List, [], ◌∷◌, ◌==◌,
  if◌then◌else◌, Dict, concat, join_path,
}
use text.Mathlib.Text.{starts_with}
use runkube.Disk.{Disk}
use runkube.Pki.{Crypto, PkiRef, Outcome, done, failed, panicked}
use runkube.Pki.Authorities.{Chance, Ca}
use runkube.Jwks.{Jose, Fresh, JwksRef}
use runkube.Kapi.{Value}
pub mod Requests
pub mod Configs
pub mod Init
pub mod Processes
pub mod Commands
pub mod Laws
pub mod Tests

-- `netip.Prefix`: its text, and that of the address after its own.
pub record Prefix : Type 0 where
  pub text : String
  pub next_addr : String

-- `config.Config`
pub record Config : Type 0 where
  pub name : String
  pub root : String
  pub external_hostname : String
  pub service_address_range : Prefix
  pub nodes : List String

-- The fields of `url.URL` that are set.
pub record Url : Type 0 where
  pub scheme : String
  pub opaque : String
  pub host : String
  pub path : String

-- Functions of packages that texts go through (`%q`, the escapes of a URL's path, two base64
-- encodings, YAML, JSON), the key sets, the random values of the n-th run of `Init` or `Certificate`, and
-- the path of the running binary.
pub record World (x : Crypto) : Type 0 where
  pub quote : String → String
  pub escape_path : String → String
  pub base64_url : x.Bytes → String
  pub base64_std : x.Bytes → String
  pub of_text : String → x.Bytes
  pub convert : Value → Option Value
  pub as_yaml : List Value → String
  pub encode_json : Value → Option x.Bytes
  pub jose : Jose x
  pub chance : ℕ → Chance x
  pub fresh : ℕ → Fresh x
  pub self_binary : String

-- The state: the disk, `caMap`, the objects of the syncer, and how many runs have drawn.
pub record Machine (x : Crypto) : Type 0 where
  pub disk : Disk x.Bytes
  pub ca_map : Dict (Ca x)
  pub objects : List Value
  pub runs : ℕ

-- A call that changes the state, and how it ends.
abbrev pub Step : Crypto → Type 0
Step x = Machine x → Outcome × Machine x

-- `if err := …; err != nil { return err }`, then the rest.
unfoldable pub and_then : {x : Crypto} → Step x → Step x → Step x
and_then first rest s =
    let (o, s') = first s in
    elim o [ done ↦ rest s' | failed e ↦ (failed e, s') | panicked ↦ (panicked, s') ]

abbrev pub pass : {x : Crypto} → Step x
pass s = (done, s)

unfoldable pub hostname : Config → String → String
hostname c tag = concat (c.name ∷ "-" ∷ tag ∷ ".internal.runkube" ∷ [])

unfoldable pub internal_url : Config → String → Url
internal_url c tag = record { scheme = "https"; opaque = ""; host = hostname c tag; path = "" }

-- `::` and the address after it.
abbrev pub internal_listen_addr : String
internal_listen_addr = "::1"

unfoldable pub unix_socket_url : Config → String → Url
unix_socket_url c tag = record {
  scheme = "unixs";
  opaque = concat ("@" ∷ c.name ∷ "-" ∷ tag ∷ []);
  host = "";
  path = "";
}

unfoldable pub unix_socket_path : Config → String → Url
unix_socket_path c tag = record {
  scheme = "unixs";
  opaque = "";
  host = "";
  path = join_path (c.root ∷ concat ("run/" ∷ tag ∷ "/" ∷ c.name ∷ "-" ∷ tag ∷ ".sock" ∷ []) ∷ []);
}

-- `URL.String`, given the escapes of the path.
unfoldable pub url_string : (String → String) → Url → String
url_string escape u = concat (
    u.scheme
    ∷ ":"
    ∷ (if not (u.opaque == "")
        then u.opaque
        else if u.host == "" && u.path == ""
        then ""
        else concat (
            "//"
            ∷ u.host
            ∷ (if u.path == "" || u.host == "" || starts_with u.path "/" then "" else "/")
            ∷ escape u.path
            ∷ []))
    ∷ [])

-- The port is given by its digits.
unfoldable pub internal_listen_url : (String → String) → String → String → String
unfolding url_string
internal_listen_url escape port path = url_string escape (record {
  scheme = "https";
  opaque = "";
  host = concat ("[" ∷ internal_listen_addr ∷ "]:" ∷ port ∷ []);
  path = path;
})

-- `apiserverURL`, by `unixListener`.
unfoldable pub apiserver_url : (String → String) → Bool → Config → String
unfolding unix_socket_url internal_listen_url
apiserver_url escape unix_listener c =
    if unix_listener
    then url_string escape (unix_socket_url c "apiserver")
    else internal_listen_url escape "6443" ""

module _ {x : Crypto} where
  unfoldable pub ca_ref : Config → String → PkiRef x
  ca_ref c ca_name = record {
    cert_path =
        join_path (c.root ∷ "etc/kubernetes/pki" ∷ "ca" ∷ concat (ca_name ∷ "-ca.crt" ∷ []) ∷ []);
    key_path =
        join_path (c.root ∷ "etc/kubernetes/pki" ∷ "ca" ∷ concat (ca_name ∷ "-ca.key" ∷ []) ∷ []);
    cert = none;
    key = none;
  }

  unfoldable pub cert_ref : Config → String → PkiRef x
  cert_ref c cert_name = record {
    cert_path =
        join_path (c.root ∷ "etc/kubernetes/pki" ∷ "leaf" ∷ concat (cert_name ∷ ".crt" ∷ []) ∷ []);
    key_path =
        join_path (c.root ∷ "etc/kubernetes/pki" ∷ "leaf" ∷ concat (cert_name ∷ ".key" ∷ []) ∷ []);
    cert = none;
    key = none;
  }

  unfoldable pub key_set_ref : Config → String → JwksRef x
  key_set_ref c name = record {
    path = join_path (c.root ∷ "etc/kubernetes/keys" ∷ concat (name ∷ ".jwks" ∷ []) ∷ []);
    jwks = none;
  }

-- The path of a configuration file, and of a kubeconfig.
unfoldable pub config_ref : Config → String → String
config_ref c s = join_path (c.root ∷ "etc/kubernetes/confgen" ∷ s ∷ [])

unfoldable pub kube_config_ref : Config → String → String
kube_config_ref c s =
    join_path (c.root ∷ "etc/kubernetes/kubeconfig" ∷ concat (s ∷ ".kubeconfig" ∷ []) ∷ [])

unfoldable pub etcd_dir : Config → String
etcd_dir c = join_path (c.root ∷ "var/lib/etcd" ∷ c.name ∷ [])
