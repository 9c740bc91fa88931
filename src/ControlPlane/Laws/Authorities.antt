-- ===== src/ControlPlane/Laws/Authorities.antt =====
-- controlplane.go and pki.go: the authorities that are known have their files.
use runkube.Common.{
  ◌≡◌, refl, sym, subst, String, Option, none, some, arith, Option-cases, inl, inr, lookup, insert,
  Entries, Entries-mono, insert-Entries, lookup-Entries, pos, suc,
}
use runkube.Disk.{Disk, HasFile}
use runkube.Pki.{Crypto, Error, Outcome-cases, done}
use runkube.Pki.Authorities
use runkube.Pki.Authorities.{Request, Ca, certificate}
use runkube.Pki.Laws.Stored.{init-HasFile, init-HasFile_other}
use runkube.ControlPlane.{Config, World, Machine, Step, and_then, ca_ref, cert_ref}
use runkube.ControlPlane.Requests.{ca}

-- A row of two calls ends well only if both do.
pub and_then-done :
    {x : Crypto} (m k : Step x) (s : Machine x)
    → (and_then m k s).0 ≡ done
    → ((m s).0 ≡ done) × ((k (m s).1).0 ≡ done) × (and_then m k s ≡ k (m s).1)
unfolding and_then
and_then-done m k s e = elim (Outcome-cases (m s).0) [
  | inl good ↦ ground arith
  | inr (inl (err, bad)) ↦ absurd (ground arith)
  | inr (inr panics) ↦ absurd (ground arith)
]

module _ {x : Crypto} (w : World x) (c : Config) where
  -- The files of an authority.
  abbrev pub HasCa : Disk x.Bytes → String → Type 0
  HasCa d name =
      HasFile d (ca_ref {x = x} c name).cert_path × HasFile d (ca_ref {x = x} c name).key_path

  -- Every authority that is known has its files.
  abbrev pub HasCas : Machine x → Type 0
  HasCas s = Entries (λ name (_ : Ca x). HasCa s.disk name) s.ca_map

  pub ca_fresh : (name : String) → (ca_ref {x = x} c name).cert ≡ none
  unfolding ca_ref
  ca_fresh name = refl

  pub cert_fresh : (name : String) → (cert_ref {x = x} c name).cert ≡ none
  unfolding cert_ref
  cert_fresh name = refl

  -- What `Init` gives for an authority that is not known.
  abbrev pub made : String → Machine x → Option Error × Ca x × Disk x.Bytes
  made name s =
      Authorities.init x (w.chance s.runs)
        (record { name = name; lifetime = pos 0; p = ca_ref c name }) (ca_ref c name) s.disk

  -- The state when it is known.
  abbrev with_ca : String → Machine x → Machine x
  with_ca name s = record s {
    disk = (made name s).2;
    runs = suc s.runs;
    ca_map = insert name (made name s).1 s.ca_map;
  }

  ca_known :
      (name : String) (s : Machine x) (k : Ca x)
      → lookup name s.ca_map ≡ some k
      → ca x w c name s ≡ (some k, s)
  unfolding ca
  ca_known name s k e = rw (e, ca)

  ca_new :
      (name : String) (s : Machine x)
      → lookup name s.ca_map ≡ none
      → (made name s).0 ≡ none
      → ca x w c name s ≡ (some (made name s).1, with_ca name s)
  unfolding ca
  ca_new name s e good = rw (e, good, ca)

  pub ca_refused :
      (name : String) (s : Machine x) (err : Error)
      → lookup name s.ca_map ≡ none
      → (made name s).0 ≡ some err
      → ca x w c name s ≡ (none, record s { disk = (made name s).2; runs = suc s.runs })
  unfolding ca
  ca_refused name s err e bad = rw (e, bad, ca)

  with_ca-HasCas :
      (name : String) (s : Machine x)
      → HasCas s
      → (made name s).0 ≡ none
      → HasCas (with_ca name s) × HasCa (made name s).2 name
  with_ca-HasCas name s known good =
      let blank : Ca x = record { name = name; lifetime = pos 0; p = ca_ref c name } in
      let there =
        init-HasFile (w.chance s.runs) blank (ca_ref c name) s.disk (ca_fresh name) good in
      let kept = init-HasFile_other (w.chance s.runs) blank (ca_ref c name) s.disk in
      (
        insert-Entries (λ n (_ : Ca x). HasCa (made name s).2 n) name (made name s).1 s.ca_map there
            (Entries-mono (λ n (_ : Ca x). HasCa s.disk n) (λ n (_ : Ca x). HasCa (made name s).2 n)
              (λ n _ h. (kept _ h.0, kept _ h.1)) s.ca_map known),
        there,
      )

  pub ca-HasCa :
      (name : String) (s : Machine x) (a : Ca x)
      → HasCas s
      → (ca x w c name s).0 ≡ some a
      → HasCas (ca x w c name s).1 × HasCa (ca x w c name s).1.disk name
  ca-HasCa name s a known e = elim (Option-cases (lookup name s.ca_map)) [
    | inr (k, is_k) ↦
        subst (λ (r : Option (Ca x) × Machine x). HasCas r.1 × HasCa r.1.disk name)
          (sym (ca_known name s k is_k))
          (known, lookup-Entries (λ n (_ : Ca x). HasCa s.disk n) name k s.ca_map is_k known)
    | inl new ↦ elim (Option-cases (made name s).0) [
      | inr (err, bad) ↦ absurd (ground (arith, ca_refused name s err new bad))
      | inl good ↦
          subst (λ (r : Option (Ca x) × Machine x). HasCas r.1 × HasCa r.1.disk name)
            (sym (ca_new name s new good)) (with_ca-HasCas name s known good)
    ]
  ]
