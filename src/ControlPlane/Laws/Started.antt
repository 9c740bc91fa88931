-- ===== src/ControlPlane/Laws/Started.antt =====
-- controlplane.go and comps.go together: the processes that `Run` starts find the files that `Init` wrote.
use runkube.Common.{
  ◌≡◌, ◌∙◌, refl, sym, subst, ℕ, String, Bool, none, some, List, [], ◌∷◌, All, map, get_elem?,
  All-get_elem?,
}
use runkube.Disk.{Disk, HasFile}
use runkube.Pki.{Crypto, Outcome, done}
use runkube.Pki.Authorities.{Request}
use runkube.ControlPlane.{Config, World, Machine, and_then}
use runkube.ControlPlane.Requests.{init_requests}
use runkube.ControlPlane.Configs.{put_config}
use runkube.ControlPlane.Init.{issue_all, run_all, init_steps, setup_nodes, write_objects, init}
use runkube.ControlPlane.Processes.{
  Process, etcd_process, api_server_process, controller_process, scheduler_process, webhook_process,
  kms_plugin_process, jwt_signer_process, node_process, node_processes, processes,
}
use runkube.ControlPlane.Laws.Kept.{
  and_then-Keeps, run_all-Keeps, setup_nodes-Keeps, put_config-Keeps,
}
use runkube.ControlPlane.Laws.Issued.{HasRequest, HasRequest-mono, issue_all-HasRequest}
use runkube.ControlPlane.Laws.Authorities.{and_then-done, HasCas}
use runkube.ControlPlane.Laws.Steps.{HasConfigs, init_steps-Keeps, init_steps-HasConfigs}
use runkube.ControlPlane.Laws.Flags.{files}

module _ {x : Crypto} (w : World x) (c : Config) where
  -- What is on the disk after `Init`.
  abbrev Initialised : Disk x.Bytes → Type 0
  Initialised d = All (HasRequest w c d) (init_requests c) × HasConfigs w c d

  All-HasRequest-mono :
      (d d' : Disk x.Bytes) (rs : List Request)
      → ((q : String) → HasFile d q → HasFile d' q)
      → All (HasRequest w c d) rs
      → All (HasRequest w c d') rs
  All-HasRequest-mono d d' [] kept h = tt
  All-HasRequest-mono d d' (r ∷ rest) kept h =
      (HasRequest-mono w c d d' r kept h.0, All-HasRequest-mono d d' rest kept h.1)

  HasConfigs-mono :
      (d d' : Disk x.Bytes)
      → ((q : String) → HasFile d q → HasFile d' q)
      → HasConfigs w c d
      → HasConfigs w c d'
  HasConfigs-mono d d' kept h = (
    kept _ h.0,
    kept _ h.1,
    kept _ h.2,
    kept _ h.3,
    kept _ h.4,
    kept _ h.5,
    kept _ h.6,
    kept _ h.7,
  )

  init-Initialised :
      (u : Bool) (s : Machine x)
      → HasCas w c s
      → (init x w u c s).0 ≡ done
      → Initialised (init x w u c s).1.disk
  unfolding init write_objects put_config
  init-Initialised u s known e =
      let s0 : Machine x = record s { objects = [] } in
      let last = and_then (setup_nodes x w c c.nodes) (write_objects x w c) in
      let middle = and_then (run_all x w (init_steps x w c) none) last in
      let one = and_then-done (issue_all x w u c (init_requests c)) middle s0 e in
      let s1 = (issue_all x w u c (init_requests c) s0).1 in
      let two = and_then-done (run_all x w (init_steps x w c) none) last s1 one.1 in
      let s2 = (run_all x w (init_steps x w c) none s1).1 in
      let kept_last =
        and_then-Keeps (setup_nodes x w c c.nodes) (write_objects x w c)
          (setup_nodes-Keeps w c c.nodes) (λ s. put_config-Keeps w c _ _ s) s2 in
      let kept = λ (q : String) (h : HasFile s1.disk q).
        kept_last q (run_all-Keeps w (init_steps x w c) none (init_steps-Keeps w c) s1 q h) in
      let same : init x w u c s ≡ last s2 = one.2 ∙ two.2 in
      subst (λ (o : Outcome × Machine x). Initialised o.1.disk) (sym same)
        (
          All-HasRequest-mono s1.disk (last s2).1.disk (init_requests c) kept
              (issue_all-HasRequest w c u (init_requests c) s0 known one.0),
          HasConfigs-mono s2.disk (last s2).1.disk kept_last (init_steps-HasConfigs w c s1 two.0),
        )

  module _ (d : Disk x.Bytes) (h : Initialised d) where
    -- The files of the i-th request.
    of_request : (i : ℕ) (r : Request) → get_elem? (init_requests c) i ≡ some r → HasRequest w c d r
    of_request i r e = All-get_elem? (HasRequest w c d) (init_requests c) i r h.0 e

    etcd_files : All (HasFile d) (files (etcd_process w c))
    unfolding files etcd_process init_requests
    etcd_files =
        let serving = of_request 0 _ refl in
        let peer = of_request 1 _ refl in
        (
          serving.0.0,
          (
            serving.0.1,
            (serving.0.0, (serving.0.1, (peer.0.0, (peer.0.1, (serving.1.0, (serving.1.0, tt)))))),
          ),
        )

    api_server_files : All (HasFile d) (files (api_server_process w c))
    unfolding files api_server_process init_requests
    api_server_files =
        let etcd_client = of_request 2 _ refl in
        let serving = of_request 4 _ refl in
        let kubelet_client = of_request 5 _ refl in
        let extension = of_request 6 _ refl in
        let header = of_request 7 _ refl in
        let kubelet = of_request 8 _ refl in
        let configs : HasConfigs w c d = h.1 in
        (
          serving.0.0,
          (
            serving.0.1,
            (
              extension.0.0,
              (
                extension.0.1,
                (
                  etcd_client.1.0,
                  (
                    etcd_client.0.0,
                    (
                      etcd_client.0.1,
                      (
                        configs.7,
                        (
                          configs.6,
                          (
                            configs.1,
                            (
                              configs.4,
                              (
                                configs.5,
                                (
                                  configs.3,
                                  (
                                    configs.0,
                                    (
                                      kubelet_client.1.0,
                                      (
                                        header.1.0,
                                        (
                                          kubelet.1.0,
                                          (
                                            kubelet_client.0.0,
                                            (kubelet_client.0.1, (configs.2, tt)),
                                          ),
                                        ),
                                      ),
                                    ),
                                  ),
                                ),
                              ),
                            ),
                          ),
                        ),
                      ),
                    ),
                  ),
                ),
              ),
            ),
          ),
        )

    controller_files : All (HasFile d) (files (controller_process w c))
    unfolding files controller_process init_requests
    controller_files =
        let client = of_request 10 _ refl in
        let authnz = of_request 11 _ refl in
        let server = of_request 12 _ refl in
        (server.0.0, (server.0.1, (client.2 refl, (authnz.2 refl, (authnz.2 refl, tt)))))

    scheduler_files : All (HasFile d) (files (scheduler_process w c))
    unfolding files scheduler_process init_requests
    scheduler_files =
        let client = of_request 13 _ refl in
        let server = of_request 14 _ refl in
        let authnz = of_request 15 _ refl in
        (server.0.0, (server.0.1, (client.2 refl, (authnz.2 refl, (authnz.2 refl, tt)))))

    -- The other processes are told of no file.
    abbrev pub Finds : Process → Type 0
    Finds p = All (HasFile d) (files p)

    own_files :
        All Finds (webhook_process w c ∷ kms_plugin_process w c ∷ jwt_signer_process w c ∷ [])
    unfolding files webhook_process kms_plugin_process jwt_signer_process
    own_files = (tt, (tt, (tt, tt)))

    node_files : (nodes : List String) → All Finds (map (node_process w) nodes)
    unfolding files node_process
    node_files [] = tt
    node_files (n ∷ rest) = (tt, node_files rest)

  -- If `Init` ends well, each file that `Run` tells a process of is there: certificates, keys, authorities,
  -- kubeconfigs and configuration files. The authorities that were known before must have their files.
  pub init-files :
      (u : Bool) (s : Machine x)
      → HasCas w c s
      → (init x w u c s).0 ≡ done
      → All (λ p. All (HasFile (init x w u c s).1.disk) (files p)) (processes w c)
  unfolding processes node_processes
  init-files u s known e =
      let h = init-Initialised u s known e in
      let d = (init x w u c s).1.disk in
      let own = own_files d h in
      (
        etcd_files d h,
        (
          api_server_files d h,
          (
            controller_files d h,
            (scheduler_files d h, (own.0, (own.1.0, (own.1.1.0, node_files d h c.nodes)))),
          ),
        ),
      )
