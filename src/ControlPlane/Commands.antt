-- ===== src/ControlPlane/Commands.antt =====
-- comps.go: the programs that are run in place of this one, and their environment.
use runkube.Common.{
  String, Bool, Option, none, some, List, [], ◌∷◌, ◌++◌, contains, select, eqb, if◌then◌else◌,
  concat,
}
use Prim.Native.Char.{code}
use runkube.Pki.{Crypto, PkiRef}
use runkube.ControlPlane.{
  Config, World, url_string, unix_socket_path, ca_ref, cert_ref, kube_config_ref,
}
use runkube.ControlPlane.Requests.{api_server, etcd}

-- `strings.Cut(s, "=")`: what stands before the first equals sign.
unfoldable pub cut_key : String → String
cut_key String.[] = ""
cut_key (String.◌∷◌ c s) =
    let rest = cut_key s in if eqb (code c) b'=' then "" else String.◌∷◌ c rest

abbrev pub safe_keys : List String
safe_keys =
    "PATH" ∷ "TERM" ∷ "COLORTERM" ∷ "HOME" ∷ "SHELL" ∷ "PWD" ∷ "OLDPWD" ∷ "USER" ∷ "USERNAME"
    ∷ "LANG" ∷ []

unfoldable pub is_safe : String → Bool
is_safe s = contains safe_keys (cut_key s)

-- `makeSafeEnv`
unfoldable pub make_safe_env : List String → List String
make_safe_env env = select is_safe env

-- `syscall.Exec`: the program, its arguments and its environment. An error of `LookPath` is none.
pub record Exec : Type 0 where
  pub program : String
  pub args : List String
  pub env : List String

module _ {x : Crypto} (w : World x) (look_path : String → Option String) where
  abbrev cert_of : Config → String → PkiRef x
  cert_of = cert_ref

  abbrev ca_of : Config → String → PkiRef x
  ca_of = ca_ref

  unfoldable pub kubectl_exec : Config → List String → List String → Option Exec
  kubectl_exec c env args = elim (look_path "kubectl") [
    | none ↦ none
    | some p ↦ some record {
      program = p;
      args = args;
      env =
          make_safe_env env ++ concat ("KUBECONFIG=" ∷ kube_config_ref c "system-admin" ∷ []) ∷ [];
    }
  ]

  unfoldable pub curl_exec : Config → List String → List String → Option Exec
  curl_exec c env args = elim (look_path "curl") [
    | none ↦ none
    | some p ↦ some record {
      program = p;
      args =
          (p
            ∷ "--fail-with-body"
            ∷ "-sSLvo-"
            ∷ "--cacert"
            ∷ (ca_of c api_server).cert_path
            ∷ "--cert"
            ∷ (cert_of c "system-admin").cert_path
            ∷ "--key"
            ∷ (cert_of c "system-admin").key_path
            ∷ [])
          ++ args;
      env = make_safe_env env;
    }
  ]

  unfoldable pub etcd_ctl_exec : Config → List String → List String → Option Exec
  etcd_ctl_exec c env args = elim (look_path "etcdctl") [
    | none ↦ none
    | some p ↦ some record {
      program = p;
      args = args;
      env =
          make_safe_env env
          ++ concat
              ("ETCDCTL_ENDPOINTS=" ∷ url_string w.escape_path (unix_socket_path c "etcd") ∷ [])
            ∷ concat ("ETCDCTL_CACERT=" ∷ (ca_of c etcd).cert_path ∷ [])
            ∷ concat ("ETCDCTL_CERT=" ∷ (cert_of c "apiserver-etcd-client").cert_path ∷ [])
            ∷ concat ("ETCDCTL_KEY=" ∷ (cert_of c "apiserver-etcd-client").key_path ∷ [])
            ∷ [];
    }
  ]
