-- ===== src/ControlPlane/Laws/Kept.antt =====
-- controlplane.go: no step of `Init` loses a file.
use runkube.Common.{
  ◌≡◌, refl, ◌++◌, String, Bool, Option, some, List, [], ◌∷◌, arith, Option-cases, Bool-cases, inl,
  inr, All, ◌==◌, pos, or_else,
}
use runkube.Disk.{HasFile, read_file}
use runkube.Pki.{Crypto, Error, PkiRef, Outcome-cases}
use runkube.Pki.Authorities.{Request, Ca}
use runkube.Pki.Laws.Stored.{certificate-HasFile_other, init-HasFile_other}
use runkube.Ref.Laws.Stored.{
  write_kube_config-HasFile_other, write_config-HasFile_other, write_object-HasFile_other,
}
use runkube.Kapi.{Value, Group}
use runkube.ControlPlane.{
  Config, World, Machine, Step, and_then, pass, ca_ref, key_set_ref, cert_ref, kube_config_ref,
  config_ref,
}
use runkube.ControlPlane.Requests.{ca, issue, api_client, webhook_server, node_request}
use runkube.ControlPlane.Configs.{
  put_kube_config, put_config, put_object, make_api_kubeconfig, make_node_kubeconfig,
}
use runkube.ControlPlane.Configs.Webhooks.{write_manifests, make_admission_webhook}
use runkube.ControlPlane.Init.{
  kube_config_for, issue_all, run_all, make_key_set, make_dir, add_objects, make_api_service,
  setup_node, setup_nodes, published,
}
use runkube.Kapi.Routes.{new_api}
use runkube.Jwks.Stored

module _ {x : Crypto} where
  abbrev pub Keeps : Step x → Type 0
  Keeps m = (s : Machine x) (q : String) → HasFile s.disk q → HasFile (m s).1.disk q

  pub and_then-Keeps : (m k : Step x) → Keeps m → Keeps k → Keeps (and_then m k)
  unfolding and_then
  and_then-Keeps m k keeps_m keeps_k s q h =
      ground (arith, keeps_m s q h, keeps_k (m s).1 q (keeps_m s q h))

  pub pass-Keeps : Keeps pass
  pass-Keeps s q h = h

  module _ (w : World x) (c : Config) where
    pub put_kube_config-Keeps : (name text : String) → Keeps (put_kube_config x w c name text)
    unfolding put_kube_config
    put_kube_config-Keeps name text s q h =
        ground (
          arith,
          write_kube_config-HasFile_other w.of_text (kube_config_ref c name) text s.disk q h,
        )

    pub put_config-Keeps : (name text : String) → Keeps (put_config x w c name text)
    unfolding put_config
    put_config-Keeps name text s q h =
        ground (arith, write_config-HasFile_other w.of_text (config_ref c name) text s.disk q h)

    pub put_object-Keeps : (name : String) (o : Value) → Keeps (put_object x w c name o)
    unfolding put_object
    put_object-Keeps name o s q h =
        ground (arith, write_object-HasFile_other w.encode_json (config_ref c name) o s.disk q h)

    pub ca-Keeps :
        (name : String) (s : Machine x) (q : String)
        → HasFile s.disk q
        → HasFile (ca x w c name s).1.disk q
    unfolding ca
    ca-Keeps name s q h =
        let blank : Ca x = record { name = name; lifetime = pos 0; p = ca_ref c name } in
        ground (arith, init-HasFile_other (w.chance s.runs) blank (ca_ref c name) s.disk q h)

    pub issue-Keeps : (r : Request) → Keeps (issue x w c r)
    unfolding issue
    issue-Keeps r s q h =
        let s' = (ca x w c r.signer s).1 in
        elim (Option-cases (ca x w c r.signer s).0) [
          | inl no_authority ↦ ground (arith, ca-Keeps r.signer s q h)
          | inr (a, is_a) ↦ ground (
            arith,
            certificate-HasFile_other (w.chance s'.runs) a (cert_ref c r.name) s'.disk r q
                (ca-Keeps r.signer s q h),
          )
        ]

    pub make_key_set-Keeps : (name kid role : String) → Keeps (make_key_set x w c name kid role)
    unfolding make_key_set
    make_key_set-Keeps name kid role s q h =
        Stored.write-HasFile_other w.jose (w.fresh s.runs) kid role (key_set_ref c name) s.disk q h

    pub make_dir-Keeps : (p : String) → Keeps (make_dir x w p)
    unfolding make_dir
    make_dir-Keeps p s q h = h

    add_objects-disk : (os : List Value) (s : Machine x) → (add_objects x w os s).1.disk ≡ s.disk
    unfolding add_objects
    add_objects-disk [] s = refl
    add_objects-disk (o ∷ rest) s = elim (Option-cases (w.convert o)) [
      | inl fails ↦ ground arith
      | inr (u, is_u) ↦
          ground (arith, add_objects-disk rest (record s { objects = s.objects ++ u ∷ [] }))
    ]

    pub make_api_service-Keeps : (gs : List Group) → Keeps (make_api_service x w c gs)
    unfolding make_api_service
    make_api_service-Keeps gs s q h =
        let authority : PkiRef x = ca_ref c webhook_server in
        elim (Option-cases (read_file authority.cert_path s.disk)) [
          | inl missing ↦ ground arith
          | inr (b, is_b) ↦ elim (Option-cases (new_api gs)) [
            | inl panics ↦ ground arith
            | inr (mux, is_mux) ↦ ground (
              arith,
              add_objects-disk (published "kube-system" "api-runkube-internal" (w.base64_std b) gs)
                  s,
            )
          ]
        ]

    write_manifests-Keeps : (b : String) → Keeps (write_manifests x w c b)
    unfolding write_manifests
    write_manifests-Keeps b =
        and_then-Keeps _ _ (put_object-Keeps "validating/static.json" _)
          (put_object-Keeps "mutating/static.json" _)

    pub make_admission_webhook-Keeps : Keeps (make_admission_webhook x w c)
    unfolding make_admission_webhook
    make_admission_webhook-Keeps s q h =
        let authority : PkiRef x = ca_ref c webhook_server in
        elim (Option-cases (read_file authority.cert_path s.disk)) [
          | inl missing ↦ ground arith
          | inr (b, is_b) ↦ ground (arith, write_manifests-Keeps (w.base64_std b) s q h)
        ]

    pub make_api_kubeconfig-Keeps :
        (u : Bool) (name : String) (p : PkiRef x) → Keeps (make_api_kubeconfig x w u c name p)
    unfolding make_api_kubeconfig
    make_api_kubeconfig-Keeps u name p s q h = put_kube_config-Keeps name _ s q h

    pub make_node_kubeconfig-Keeps :
        (name : String) (p : PkiRef x) → Keeps (make_node_kubeconfig x w c name p)
    unfolding make_node_kubeconfig
    make_node_kubeconfig-Keeps name p s q h = put_kube_config-Keeps name _ s q h

    pub kube_config_for-Keeps : (u : Bool) (r : Request) → Keeps (kube_config_for x w u c r)
    unfolding kube_config_for
    kube_config_for-Keeps u r = elim (Bool-cases (r.signer == api_client)) [
      | inl client ↦ rw client (make_api_kubeconfig-Keeps u r.name (cert_ref c r.name))
      | inr other ↦ rw other pass-Keeps
    ]

    pub issue_all-Keeps : (u : Bool) (rs : List Request) → Keeps (issue_all x w u c rs)
    unfolding issue_all
    issue_all-Keeps u [] = pass-Keeps
    issue_all-Keeps u (r ∷ rest) = and_then-Keeps (issue x w c r) _ (issue-Keeps r) (
        and_then-Keeps (kube_config_for x w u c r) (issue_all x w u c rest)
          (kube_config_for-Keeps u r) (issue_all-Keeps u rest))

    pub setup_nodes-Keeps : (nodes : List String) → Keeps (setup_nodes x w c nodes)
    unfolding setup_nodes setup_node
    setup_nodes-Keeps [] = pass-Keeps
    setup_nodes-Keeps (n ∷ rest) =
        and_then-Keeps (setup_node x w c n) (setup_nodes x w c rest)
          (and_then-Keeps (issue x w c (node_request n)) _ (issue-Keeps (node_request n))
            (make_node_kubeconfig-Keeps n (cert_ref c n)))
          (setup_nodes-Keeps rest)

  module _ (w : World x) where
    pub run_all-Keeps :
        (ms : List (Step x)) (first : Option Error) → All Keeps ms → Keeps (run_all x w ms first)
    unfolding run_all
    run_all-Keeps [] first keeps s q h = h
    run_all-Keeps (m ∷ ms) first keeps s q h =
        let next = keeps.0 s q h in
        elim (Outcome-cases (m s).0) [
          | inl good ↦ ground (arith, run_all-Keeps ms first keeps.1 (m s).1 q next)
          | inr (inl (e, bad)) ↦
              ground (arith, run_all-Keeps ms (some (or_else first e)) keeps.1 (m s).1 q next)
          | inr (inr panics) ↦ ground (arith, next)
        ]
