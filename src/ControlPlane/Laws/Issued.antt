-- ===== src/ControlPlane/Laws/Issued.antt =====
-- controlplane.go: what the loop over the requests leaves on the disk.
use runkube.Common.{
  ◌≡◌, ◌∙◌, sym, subst, String, Bool, true, Option, none, some, List, [], ◌∷◌, arith, Option-cases,
  inl, inr, All, Entries, Entries-mono, ◌==◌, suc,
}
use runkube.Disk.{Disk, HasFile}
use runkube.Pki.{Crypto, Error, PkiRef, Outcome, outcome, done, panicked}
use runkube.Pki.Authorities.{Request, Ca, certificate}
use runkube.Pki.Laws.Stored.{certificate-HasFile, certificate-HasFile_other}
use runkube.ControlPlane.{Config, World, Machine, and_then, cert_ref, kube_config_ref}
use runkube.ControlPlane.Requests.{ca, issue, api_client}
use runkube.ControlPlane.Configs.{put_kube_config, make_api_kubeconfig}
use runkube.ControlPlane.Init.{kube_config_for, issue_all}
use runkube.ControlPlane.Laws.Files.{Makes, put_kube_config-Makes}
use runkube.ControlPlane.Laws.Kept.{issue_all-Keeps, kube_config_for-Keeps}
use runkube.ControlPlane.Laws.Authorities.{and_then-done, HasCa, HasCas, cert_fresh, ca-HasCa}

module _ {x : Crypto} (w : World x) (c : Config) where
  -- The files of a request: its certificate and key, its authority's, and the kubeconfig of a client of
  -- the API server.
  abbrev pub HasPair : Disk x.Bytes → String → Type 0
  HasPair d name =
      HasFile d (cert_ref {x = x} c name).cert_path × HasFile d (cert_ref {x = x} c name).key_path

  abbrev pub HasRequest : Disk x.Bytes → Request → Type 0
  HasRequest d r =
      HasPair d r.name
      × HasCa w c d r.signer
      × ((r.signer == api_client) ≡ true → HasFile d (kube_config_ref c r.name))

  -- The run of `Certificate`.
  abbrev run : Ca x → Request → Machine x → Option Error × PkiRef x × Disk x.Bytes
  run a r s = certificate x (w.chance s.runs) a (cert_ref c r.name) r s.disk

  issue_granted :
      (r : Request) (s : Machine x) (a : Ca x)
      → (ca x w c r.signer s).0 ≡ some a
      → issue x w c r s ≡ (
        outcome (run a r (ca x w c r.signer s).1).0,
        record (ca x w c r.signer s).1 {
          disk = (run a r (ca x w c r.signer s).1).2;
          runs = suc (ca x w c r.signer s).1.runs;
        },
      )
  unfolding issue
  issue_granted r s a e = rw (e, issue)

  pub issue_refused :
      (r : Request) (s : Machine x)
      → (ca x w c r.signer s).0 ≡ none
      → (issue x w c r s).0 ≡ panicked
  unfolding issue
  issue_refused r s e = rw (e, issue)

  -- A certificate that is issued stands on the disk, and its authority too.
  abbrev Issued : Request → Machine x → Type 0
  Issued r s = HasCas w c s × HasPair s.disk r.name × HasCa w c s.disk r.signer

  issue-Issued :
      (r : Request) (s : Machine x)
      → HasCas w c s
      → (issue x w c r s).0 ≡ done
      → Issued r (issue x w c r s).1
  issue-Issued r s known e = elim (Option-cases (ca x w c r.signer s).0) [
    | inl none_made ↦ absurd (cc (issue_refused r s none_made))
    | inr (a, is_a) ↦
        let s' = (ca x w c r.signer s).1 in
        let granted = issue_granted r s a is_a in
        let fine : (run a r s').0 ≡ none = ground (arith, granted) in
        let before = ca-HasCa w c r.signer s a known is_a in
        let kept = certificate-HasFile_other (w.chance s'.runs) a (cert_ref c r.name) s'.disk r in
        subst (λ (o : Outcome × Machine x). Issued r o.1) (sym granted)
          (
            Entries-mono (λ n (_ : Ca x). HasCa w c s'.disk n)
                (λ n (_ : Ca x). HasCa w c (run a r s').2 n) (λ n _ h. (kept _ h.0, kept _ h.1))
                s'.ca_map before.0,
            certificate-HasFile (w.chance s'.runs) a (cert_ref c r.name) s'.disk r
                (cert_fresh w c r.name) fine,
            (kept _ before.1.0, kept _ before.1.1),
          )
  ]

  -- Writing a kubeconfig makes no authority.
  kube_config_for-ca_map :
      (u : Bool) (r : Request) (s : Machine x) → (kube_config_for x w u c r s).1.ca_map ≡ s.ca_map
  unfolding kube_config_for make_api_kubeconfig put_kube_config
  kube_config_for-ca_map u r s = ground arith

  kube_config_for-Makes :
      (u : Bool) (r : Request)
      → (r.signer == api_client) ≡ true
      → Makes (kube_config_ref c r.name) (kube_config_for x w u c r)
  unfolding kube_config_for make_api_kubeconfig
  kube_config_for-Makes u r client s = rw client (put_kube_config-Makes w c r.name _ s)

  -- A request keeps its files.
  pub HasRequest-mono :
      (d d' : Disk x.Bytes) (r : Request)
      → ((q : String) → HasFile d q → HasFile d' q)
      → HasRequest d r
      → HasRequest d' r
  HasRequest-mono d d' r kept h =
      ((kept _ h.0.0, kept _ h.0.1), (kept _ h.1.0, kept _ h.1.1), λ client. kept _ (h.2 client))

  -- One round of the loop.
  issue-HasRequest :
      (u : Bool) (r : Request) (s : Machine x)
      → HasCas w c s
      → (issue x w c r s).0 ≡ done
      → (kube_config_for x w u c r (issue x w c r s).1).0 ≡ done
      → HasCas w c (kube_config_for x w u c r (issue x w c r s).1).1
        × HasRequest (kube_config_for x w u c r (issue x w c r s).1).1.disk r
  issue-HasRequest u r s known e e' =
      let s1 = (issue x w c r s).1 in
      let s2 = (kube_config_for x w u c r s1).1 in
      let issued = issue-Issued r s known e in
      let kept = kube_config_for-Keeps w c u r s1 in
      (
        subst (Entries (λ n (_ : Ca x). HasCa w c s2.disk n)) (sym (kube_config_for-ca_map u r s1))
            (Entries-mono (λ n (_ : Ca x). HasCa w c s1.disk n)
              (λ n (_ : Ca x). HasCa w c s2.disk n) (λ n _ h. (kept _ h.0, kept _ h.1)) s1.ca_map
              issued.0),
        (
          (kept _ issued.1.0, kept _ issued.1.1),
          (kept _ issued.2.0, kept _ issued.2.1),
          λ client. kube_config_for-Makes u r client s1 e',
        ),
      )

  -- The loop over the requests: each request has its files.
  pub issue_all-HasRequest :
      (u : Bool) (rs : List Request) (s : Machine x)
      → HasCas w c s
      → (issue_all x w u c rs s).0 ≡ done
      → All (HasRequest (issue_all x w u c rs s).1.disk) rs
  unfolding issue_all
  issue_all-HasRequest u [] s known e = tt
  issue_all-HasRequest u (r ∷ rest) s known e =
      let round = and_then (kube_config_for x w u c r) (issue_all x w u c rest) in
      let first = and_then-done (issue x w c r) round s e in
      let s1 = (issue x w c r s).1 in
      let second = and_then-done (kube_config_for x w u c r) (issue_all x w u c rest) s1 first.1 in
      let s2 = (kube_config_for x w u c r s1).1 in
      let here_now = issue-HasRequest u r s known first.0 second.0 in
      let same : and_then (issue x w c r) round s ≡ issue_all x w u c rest s2 =
        first.2 ∙ second.2 in
      subst (λ (o : Outcome × Machine x). All (HasRequest o.1.disk) (r ∷ rest)) (sym same)
        (
          HasRequest-mono s2.disk (issue_all x w u c rest s2).1.disk r
              (issue_all-Keeps w c u rest s2) here_now.1,
          issue_all-HasRequest u rest s2 here_now.0 second.1,
        )
