-- ===== src/Pki/Laws/Certificates.antt =====
-- What pki.go signs, and which certificate and key it leaves in the files.
use runkube.Common.{
  ◌≡◌, ◌≢◌, sym, ap, ◌∙◌, true, false, none, some, arith, ℕ, subst, Option-cases, inl, inr, ℤ, ◌≤ℤ◌,
  ◌+ℤ◌, +ℤ_mono,
}
use runkube.Disk.{Disk, read_file}
use runkube.Pki.{Try-cases, value, Certificate, CertificateRequest, Crypto, PkiRef, read, write}
use runkube.Pki.Authorities.{
  Request, Chance, Ca, clamp, cert_lifetime_min, cert_lifetime_max, leaf_template,
  certificate_for_request, ensure_key, signed, certificate,
}
use runkube.Pki.Laws.Files.{read-paths, write_success, both_on_disk}

-- The result lies in the range, and a value in the range is kept.
clamp_bounds :
    (l floor ceil : ℤ)
    → floor ≤ℤ ceil
    → (floor ≤ℤ clamp l floor ceil)
      × (clamp l floor ceil ≤ℤ ceil)
      × (floor ≤ℤ l → l ≤ℤ ceil → clamp l floor ceil ≡ l)
unfolding clamp
clamp_bounds l floor ceil h = (ground arith, ground arith, λ p q. ground arith)

module _ {x : Crypto} where
  -- The end of a leaf lies between the shortest and the longest lifetime after the clock's reading.
  leaf_template_bounds :
      (ch : Chance x) (req : Request) (csr : CertificateRequest x.Public) (serial : ℕ)
      → (ch.end_from +ℤ cert_lifetime_min ≤ℤ (leaf_template x ch req csr serial).not_after)
        × ((leaf_template x ch req csr serial).not_after ≤ℤ ch.end_from +ℤ cert_lifetime_max)
  unfolding leaf_template
  leaf_template_bounds ch req csr serial =
      let range = clamp_bounds req.lifetime cert_lifetime_min cert_lifetime_max (omega arith) in
      (+ℤ_mono ch.end_from _ _ range.0, +ℤ_mono ch.end_from _ _ range.1)

  -- A template is made only for a request that its own key has signed; it is the template of the code.
  certificate_for_request-eq-value :
      (ch : Chance x) (req : Request) (csr : CertificateRequest x.Public) (c : Certificate x.Bytes)
      → certificate_for_request x ch req csr ≡ value c
      → (serial : ℕ) × (x.check_signature csr ≡ true)
        × (ch.serial ≡ some serial)
        × (leaf_template x ch req csr serial ≡ c)
  unfolding certificate_for_request
  certificate_for_request-eq-value ch req csr c h = elim (Option-cases ch.serial) [
    | inl no_serial ↦ absurd (ground arith)
    | inr (serial, is_serial) ↦ (serial, ground arith, is_serial, ground arith)
  ]

  -- What an authority certifies: a request that its own key has signed, under the subject of that
  -- request and for the usages asked, never as an authority, and until between 7 and 180 days after
  -- the reading of the clock, whatever lifetime is asked.
  pub certificate_for_request_lem :
      (ch : Chance x) (req : Request) (csr : CertificateRequest x.Public) (c : Certificate x.Bytes)
      → certificate_for_request x ch req csr ≡ value c
      → (x.check_signature csr ≡ true)
        × (ch.end_from +ℤ cert_lifetime_min ≤ℤ c.not_after)
        × (c.not_after ≤ℤ ch.end_from +ℤ cert_lifetime_max)
        × (c.cn ≡ csr.cn)
        × (c.o ≡ csr.o)
        × (c.ext_key_usage ≡ req.usages)
        × (c.is_ca ≡ false)
  unfolding leaf_template
  certificate_for_request_lem ch req csr c h =
      let (serial, self_made, is_serial, same) = certificate_for_request-eq-value ch req csr c h in
      let range = leaf_template_bounds ch req csr serial in
      (
        self_made,
        subst (λ (c : Certificate x.Bytes). ch.end_from +ℤ cert_lifetime_min ≤ℤ c.not_after) same
            range.0,
        subst (λ (c : Certificate x.Bytes). c.not_after ≤ℤ ch.end_from +ℤ cert_lifetime_max) same
            range.1,
        cc,
        cc,
        cc,
        cc,
      )

  -- The pair that is written.
  abbrev pub pair : PkiRef x → x.Key → Certificate x.Bytes → PkiRef x
  pair p key c = record p { key = some key; cert = some c }

  -- A run of `Certificate` without error has signed, and written what it signed.
  pub certificate_success :
      (ch : Chance x) (ca : Ca x) (p : PkiRef x) (req : Request) (d : Disk x.Bytes)
      → p.cert ≡ none
      → (certificate x ch ca p req d).0 ≡ none
      → (key : x.Key) × (c : Certificate x.Bytes) × (ensure_key x ch (read x ch.read_at d p).1
          ≡ some key)
        × (signed x ch ca req key ≡ value c)
        × ((write x (pair (read x ch.read_at d p).1 key c) d).0 ≡ none)
        × ((certificate x ch ca p req d).2 ≡ (write x (pair (read x ch.read_at d p).1 key c) d).1)
  unfolding certificate
  certificate_success ch ca p req d fresh done =
      let none_read : (read x ch.read_at d p).1.cert ≡ none =
        (read-paths ch.read_at d p).2 ∙ fresh in
      elim (Option-cases (read x ch.read_at d p).0) [
        | inr (e, failed) ↦ absurd (ground arith)
        | inl went_on ↦ elim (Option-cases (ensure_key x ch (read x ch.read_at d p).1)) [
          | inl no_key ↦ absurd (ground arith)
          | inr (key, is_key) ↦ elim (Try-cases (signed x ch ca req key)) [
            | inl (e, failed) ↦ absurd (ground arith)
            | inr (c, is_signed) ↦ (key, c, is_key, is_signed, ground arith, ground arith)
          ]
        ]
      ]

  -- What `Certificate` leaves behind when it returns no error for a `pkiRef` whose certificate is not
  -- loaded: a certificate that the authority has signed in this run for the key, which is the one that
  -- `Read` found or a new one; both stand in their files. The two paths must differ and be readable.
  pub certificate_lem :
      (ch : Chance x) (ca : Ca x) (p : PkiRef x) (req : Request) (d : Disk x.Bytes)
      → p.cert ≡ none
      → (certificate x ch ca p req d).0 ≡ none
      → p.cert_path ≢ p.key_path
      → d.unreadable p.cert_path ≡ false
      → d.unreadable p.key_path ≡ false
      → (key : x.Key) × (c : Certificate x.Bytes) × (bytes : x.Bytes) × (ensure_key x ch
            (read x ch.read_at d p).1
          ≡ some key)
        × (signed x ch ca req key ≡ value c)
        × (x.marshal_key key ≡ some bytes)
        × (read_file p.cert_path (certificate x ch ca p req d).2
            ≡ some (x.pem_encode "CERTIFICATE" c.raw))
        × (read_file p.key_path (certificate x ch ca p req d).2
            ≡ some (x.pem_encode "EC PRIVATE KEY" bytes))
  certificate_lem ch ca p req d fresh done apart open_c open_k =
      let (key, c, is_key, is_signed, written, same) =
        certificate_success ch ca p req d fresh done in
      let paths = read-paths ch.read_at d p in
      let w = write_success (pair (read x ch.read_at d p).1 key c) d written in
      let files =
        both_on_disk (pair (read x ch.read_at d p).1 key c) d w
          (λ e. apart (sym paths.0 ∙ e ∙ paths.1)) (ap d.unreadable paths.0 ∙ open_c)
          (ap d.unreadable paths.1 ∙ open_k) in
      (key, c, w.2, is_key, is_signed, cc, cc, cc)
