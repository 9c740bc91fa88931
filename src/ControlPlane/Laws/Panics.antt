-- ===== src/ControlPlane/Laws/Panics.antt =====
-- controlplane.go: what becomes of an authority that cannot be made.
use runkube.Common.{
  ◌≡◌, ap, Bool, true, Option, none, [], arith, Option-cases, inl, inr, lookup, pos,
}
use runkube.Pki.{Crypto, panicked}
use runkube.Pki.Authorities.{Request, Ca}
use runkube.Pki.Laws.Stored.{init-unmakeable}
use runkube.ControlPlane.{Config, World, Machine, Step, and_then, ca_ref}
use runkube.ControlPlane.Requests.{etcd, issue, init_requests, etcd_serving_request}
use runkube.ControlPlane.Init.{issue_all, init}
use runkube.ControlPlane.Laws.Issued.{issue_refused}
use runkube.ControlPlane.Laws.Authorities.{made, ca_refused, ca_fresh}

and_then-panicked :
    {x : Crypto} (m k : Step x) (s : Machine x) → (m s).0 ≡ panicked → (and_then m k s).0 ≡ panicked
unfolding and_then
and_then-panicked m k s e = ground arith

module _ {x : Crypto} (w : World x) (c : Config) where
  issue_panics :
      (r : Request) (s : Machine x)
      → lookup r.signer s.ca_map ≡ none
      → s.disk.unmakeable (ca_ref {x = x} c r.signer).cert_path ≡ true
      → (issue x w c r s).0 ≡ panicked
  issue_panics r s new unmakeable =
      let blank : Ca x = record { name = r.signer; lifetime = pos 0; p = ca_ref c r.signer } in
      elim (Option-cases (made w c r.signer s).0) [
        | inl good ↦ absurd (
            init-unmakeable (w.chance s.runs) blank (ca_ref c r.signer) s.disk
              (ca_fresh w c r.signer) unmakeable good)
        | inr (e, bad) ↦
            issue_refused w c r s
              (ap (λ (o : Option (Ca x) × Machine x). o.0) (ca_refused w c r.signer s e new bad))
      ]

  -- `Init` panics if the directory of etcd's authority cannot be made and the authority is not known yet:
  -- `CA` drops the error and returns nil, which `Certificate` goes on to read.
  pub init_panics :
      (u : Bool) (s : Machine x)
      → lookup etcd s.ca_map ≡ none
      → s.disk.unmakeable (ca_ref {x = x} c etcd).cert_path ≡ true
      → (init x w u c s).0 ≡ panicked
  unfolding init issue_all init_requests
  init_panics u s new unmakeable =
      and_then-panicked (issue_all x w u c (init_requests c)) _ (record s { objects = [] })
        (and_then-panicked (issue x w c (etcd_serving_request c)) _ (record s { objects = [] })
          (issue_panics (etcd_serving_request c) (record s { objects = [] }) new unmakeable))
