-- ===== src/Pki/Laws/Stored.antt =====
-- `Certificate` and `Init` of pki.go leave their files in place, and all other files.
use runkube.Common.{
  ◌≡◌, ◌≢◌, true, String, none, some, arith, Option-cases, inl, inr, ap, subst, sym,
}
use runkube.Disk.{Disk, HasFile}
use runkube.Pki.{Try-cases, Crypto, PkiRef, read}
use runkube.Pki.Authorities.{
  Request, Chance, Ca, ensure_key, self_signed, signed, init, certificate,
}
use runkube.Pki.Laws.Files.{read-paths, write-HasFile, write-HasFile_other, write-unmakeable}
use runkube.Pki.Laws.Certificates.{pair, certificate_success}

module _ {x : Crypto} (ch : Chance x) (ca : Ca x) (p : PkiRef x) (d : Disk x.Bytes) where
  -- `Read`, as both begin.
  abbrev found : PkiRef x
  found = (read x ch.read_at d p).1

  pub certificate-HasFile_other :
      (req : Request) (path : String)
      → HasFile d path
      → HasFile (certificate x ch ca p req d).2 path
  unfolding certificate
  certificate-HasFile_other req path h = elim (Option-cases (read x ch.read_at d p).0) [
    | inr (e, failed) ↦ ground arith
    | inl went_on ↦ elim (Option-cases (ensure_key x ch found)) [
      | inl no_key ↦ ground arith
      | inr (key, is_key) ↦
          let renewed = write-HasFile_other (record found { key = some key }) d path h in
          elim (Try-cases (signed x ch ca req key)) [
            | inl (e, failed) ↦ ground (arith, renewed)
            | inr (c, is_signed) ↦
                ground (arith, renewed, write-HasFile_other (pair found key c) d path h)
          ]
    ]
  ]

  pub certificate-HasFile :
      (req : Request)
      → p.cert ≡ none
      → (certificate x ch ca p req d).0 ≡ none
      → HasFile (certificate x ch ca p req d).2 p.cert_path
        × HasFile (certificate x ch ca p req d).2 p.key_path
  certificate-HasFile req fresh done =
      let (key, c, is_key, is_signed, written, same) =
        certificate_success ch ca p req d fresh done in
      let paths = read-paths ch.read_at d p in
      let there = write-HasFile (pair found key c) d written in
      (
        subst (λ q. HasFile (certificate x ch ca p req d).2 q) paths.0
            (subst (λ disk. HasFile disk found.cert_path) (sym same) there.0),
        subst (λ q. HasFile (certificate x ch ca p req d).2 q) paths.1
            (subst (λ disk. HasFile disk found.key_path) (sym same) there.1),
      )

  pub init-HasFile_other : (path : String) → HasFile d path → HasFile (init x ch ca p d).2 path
  unfolding init
  init-HasFile_other path h = elim (Option-cases (read x ch.read_at d p).0) [
    | inr (e, failed) ↦ ground arith
    | inl went_on ↦ elim (Option-cases (ensure_key x ch found)) [
      | inl no_key ↦ ground arith
      | inr (key, is_key) ↦ elim (Try-cases (self_signed x ch ca key)) [
        | inl (e, failed) ↦ ground arith
        | inr (c, is_signed) ↦ ground (arith, write-HasFile_other (pair found key c) d path h)
      ]
    ]
  ]

  pub init-HasFile :
      p.cert ≡ none
      → (init x ch ca p d).0 ≡ none
      → HasFile (init x ch ca p d).2 p.cert_path × HasFile (init x ch ca p d).2 p.key_path
  unfolding init
  init-HasFile fresh done =
      let paths = read-paths ch.read_at d p in
      elim (Option-cases (read x ch.read_at d p).0) [
        | inr (e, failed) ↦ absurd (ground arith)
        | inl went_on ↦ elim (Option-cases (ensure_key x ch found)) [
          | inl no_key ↦ absurd (ground arith)
          | inr (key, is_key) ↦ elim (Try-cases (self_signed x ch ca key)) [
            | inl (e, failed) ↦ absurd (ground arith)
            | inr (c, is_signed) ↦ ground (arith, write-HasFile (pair found key c) d)
          ]
        ]
      ]

  -- Without a directory for its files an authority cannot be made.
  pub init-unmakeable :
      p.cert ≡ none → d.unmakeable p.cert_path ≡ true → (init x ch ca p d).0 ≢ none
  unfolding init
  init-unmakeable fresh unmakeable done =
      let paths = read-paths ch.read_at d p in
      elim (Option-cases (read x ch.read_at d p).0) [
        | inr (e, failed) ↦ absurd (ground arith)
        | inl went_on ↦ elim (Option-cases (ensure_key x ch found)) [
          | inl no_key ↦ absurd (ground arith)
          | inr (key, is_key) ↦ elim (Try-cases (self_signed x ch ca key)) [
            | inl (e, failed) ↦ absurd (ground arith)
            | inr (c, is_signed) ↦
                absurd
                  (ground (arith, write-unmakeable (pair found key c) d, ap d.unmakeable paths.0))
          ]
        ]
      ]
