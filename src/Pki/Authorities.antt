-- ===== src/Pki/Authorities.antt =====
-- pki.go: what an authority signs, and for how long: `clamp`, `certificateForRequest`, `Sign`, `Init`
-- and `Certificate`.
use runkube.Common.{
  ℕ, ◌*◌, String, true, false, Option, none, some, List, [], ◌∷◌, if◌then◌else◌, ℤ, pos, ◌+ℤ◌,
  ltb_ℤ,
}
use runkube.Disk.{Disk}
use runkube.Pki.{
  Error, plain, Try, value, error, ◌>>=◌, ◌>>◌, guard, or_error, ExtKeyUsage, server_auth,
  client_auth, digital_signature, key_encipherment, cert_sign, Certificate, CertificateRequest,
  Crypto, PkiRef, read, write,
}

-- Nanoseconds in an hour.
abbrev hour : ℕ
hour = 3_600_000_000_000

abbrev pub cert_lifetime_min : ℤ
cert_lifetime_min = pos (hour * 24 * 7)

abbrev pub cert_lifetime_max : ℤ
cert_lifetime_max = pos (hour * 24 * 180)

unfoldable pub clamp : ℤ → ℤ → ℤ → ℤ
clamp l floor ceil = if ltb_ℤ ceil l then ceil else if ltb_ℤ l floor then floor else l

-- `Request`. An address is its text.
pub record Request : Type 0 where
  pub name : String
  pub signer : String
  pub usages : List ExtKeyUsage
  pub lifetime : ℤ
  pub cn : String
  pub o : List String
  pub san : List String
  pub ip : List String

-- What the clock and the random calls of one run of `Init` or `Certificate` give.
pub record Chance (x : Crypto) : Type 0 where
  pub read_at : ℤ
  pub not_before : ℤ
  pub end_from : ℤ
  pub new_key : Option x.Key
  pub serial : Option ℕ
  pub draw : ℕ

-- `CA`
pub record Ca (x : Crypto) : Type 0 where
  pub name : String
  pub lifetime : ℤ
  pub p : PkiRef x

module _ (x : Crypto) where
  unfoldable pub leaf_template :
      Chance x → Request → CertificateRequest x.Public → ℕ → Certificate x.Bytes
  unfolding clamp
  leaf_template ch req csr serial = record {
    serial = serial;
    cn = csr.cn;
    o = csr.o;
    not_before = ch.not_before;
    not_after = ch.end_from +ℤ clamp req.lifetime cert_lifetime_min cert_lifetime_max;
    is_ca = false;
    key_usage = digital_signature ∷ key_encipherment ∷ [];
    ext_key_usage = req.usages;
    dns_names = csr.dns_names;
    ip_addresses = csr.ip_addresses;
    raw = x.empty;
  }

  unfoldable pub certificate_for_request :
      Chance x → Request → CertificateRequest x.Public → Try (Certificate x.Bytes)
  certificate_for_request ch req csr = do
    guard (x.check_signature csr) (plain "invalid request self signature")
    serial ← or_error (plain "failed to generate serial number") ch.serial
    value (leaf_template ch req csr serial)

  unfoldable pub sign : Chance x → Ca x → Request → CertificateRequest x.Public → Try x.Bytes
  unfolding certificate_for_request
  sign ch ca req csr = do
    cert ← or_error (plain "ca certificate or key not loaded") ca.p.cert
    key ← or_error (plain "ca certificate or key not loaded") ca.p.key
    template ← certificate_for_request ch req csr
    public_key ← or_error (plain "x509") csr.public_key
    or_error (plain "x509") (x.create_certificate template cert public_key key ch.draw)

  unfoldable pub ca_template : Chance x → Ca x → ℕ → Certificate x.Bytes
  unfolding clamp
  ca_template ch ca serial = record {
    serial = serial;
    cn = ca.name;
    o = [];
    not_before = ch.not_before;
    not_after = ch.end_from +ℤ clamp ca.lifetime cert_lifetime_min cert_lifetime_max;
    is_ca = true;
    key_usage = cert_sign ∷ digital_signature ∷ [];
    ext_key_usage = server_auth ∷ client_auth ∷ [];
    dns_names = [];
    ip_addresses = [];
    raw = x.empty;
  }

  -- The key at hand, or a new one.
  unfoldable pub ensure_key : Chance x → PkiRef x → Option x.Key
  ensure_key ch p = elim p.key [ some k ↦ some k | none ↦ ch.new_key ]

  unfoldable pub self_signed : Chance x → Ca x → x.Key → Try (Certificate x.Bytes)
  unfolding ca_template
  self_signed ch ca key = do
    serial ← or_error (plain "failed to generate serial number") ch.serial
    let template = ca_template ch ca serial
    bytes ←
        or_error (plain "failed to create certificate")
          (x.create_certificate template template (x.public key) key ch.draw)
    or_error (plain "failed to parse generated certificate") (x.parse_certificate bytes)

  -- Keep the certificate, if there is one, and write both.
  keep :
      PkiRef x → Try (Certificate x.Bytes) → Disk x.Bytes → Option Error × PkiRef x × Disk x.Bytes
  keep p (error e) d = (some e, p, d)
  keep p (value c) d =
      let q : PkiRef x = record p { cert = some c } in let (e, d') = write x q d in (e, q, d')

  init_with_key :
      Chance x
      → Ca x
      → PkiRef x
      → Option x.Key
      → Disk x.Bytes
      → Option Error × PkiRef x × Disk x.Bytes
  unfolding keep self_signed
  init_with_key ch ca p none d = (some (plain "failed to generate private key"), p, d)
  init_with_key ch ca p (some key) d =
      let q : PkiRef x = record p { key = some key } in
      elim p.cert [ some c ↦ (none, q, d) | none ↦ keep q (self_signed ch ca key) d ]

  -- `Init` on the files that `p` names.
  unfoldable pub init :
      Chance x → Ca x → PkiRef x → Disk x.Bytes → Option Error × Ca x × Disk x.Bytes
  unfolding init_with_key ensure_key
  init ch ca p d =
      let (failed, q) = read x ch.read_at d p in
      let result : Option Error × PkiRef x × Disk x.Bytes = elim failed [
        | some e ↦ (some e, q, d)
        | none ↦ init_with_key ch ca q (ensure_key ch q) d
      ] in
      (result.0, record ca { p = result.1 }, result.2)

  unfoldable pub request_template : Request → CertificateRequest x.Public
  request_template req = record {
    cn = req.cn;
    o = req.o;
    dns_names = req.san;
    ip_addresses = req.ip;
    public_key = none;
  }

  unfoldable pub signed : Chance x → Ca x → Request → x.Key → Try (Certificate x.Bytes)
  unfolding sign request_template
  signed ch ca req key = do
    csr_bytes ← or_error (plain "x509") (x.create_request (request_template req) key ch.draw)
    csr ← or_error (plain "x509") (x.parse_request csr_bytes)
    cert_bytes ← sign ch ca req csr
    or_error (plain "x509") (x.parse_certificate cert_bytes)

  certificate_with_key :
      Chance x
      → Ca x
      → Request
      → PkiRef x
      → Option x.Key
      → Disk x.Bytes
      → Option Error × PkiRef x × Disk x.Bytes
  unfolding keep signed
  certificate_with_key ch ca req p none d = (some (plain "failed to generate private key"), p, d)
  certificate_with_key ch ca req p (some key) d =
      let q : PkiRef x = record p { key = some key } in
      elim p.cert [
        | some c ↦ let (e, d') = write x q d in (e, q, d')
        | none ↦ keep q (signed ch ca req key) d
      ]

  -- `Certificate` for the files that `p` names.
  unfoldable pub certificate :
      Chance x → Ca x → PkiRef x → Request → Disk x.Bytes → Option Error × PkiRef x × Disk x.Bytes
  unfolding certificate_with_key ensure_key
  certificate ch ca p req d =
      let (failed, q) = read x ch.read_at d p in
      elim failed [
        | some e ↦ (some e, q, d)
        | none ↦ certificate_with_key ch ca req q (ensure_key ch q) d
      ]
