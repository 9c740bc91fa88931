-- ===== src/Pki.antt =====
-- pki.go: certificates and keys in files, and the authorities that sign. The packages crypto/x509,
-- encoding/pem and crypto/ecdsa are the parameter `Crypto`, the outcomes of their random calls and the
-- readings of the clock `Chance`. Times and durations are in nanoseconds.
use runkube.Common.{
  ℕ, ◌*◌, ◌≡◌, ◌⊎◌, inl, inr, refl, String, Bool, true, false, ◌||◌, Option, none, some, List, [],
  ◌∷◌, ◌==◌, if◌then◌else◌, is_some, ℤ, pos, ltb_ℤ,
}
use runkube.Disk.{Disk, read_file, write_file}
pub mod Authorities
pub mod Laws
pub mod Toy
pub mod Tests

-- `errorf` puts the path of the certificate before the message. The arguments of the messages and the
-- errors that they wrap are left out.
pub data Error : Type 0 where
  at : String → String → Error
  plain : String → Error

-- How a call without a result ends: a panic is not an error.
pub data Outcome : Type 0 where
  done : Outcome
  failed : Error → Outcome
  panicked : Outcome

pub Outcome-cases : (o : Outcome) → (o ≡ done) ⊎ ((e : Error) × (o ≡ failed e)) ⊎ (o ≡ panicked)
Outcome-cases done = inl refl
Outcome-cases (failed e) = inr (inl (e, refl))
Outcome-cases panicked = inr (inr refl)

abbrev pub outcome : Option Error → Outcome
outcome none = done
outcome (some e) = failed e

pub data Try {ℓ} (A : Type ℓ) : Type ℓ where
  value : A → Try A
  error : Error → Try A

pub Try-cases {ℓ} :
    {A : Type ℓ} (t : Try A) → ((e : Error) × (t ≡ error e)) ⊎ ((a : A) × (t ≡ value a))
Try-cases (error e) = inl (e, refl)
Try-cases (value a) = inr (a, refl)

infixl 5 ◌>>=◌ ◌>>◌
abbrev pub ◌>>=◌ {ℓ κ} : {A : Type ℓ} {B : Type κ} → Try A → (A → Try B) → Try B
value a >>= k = k a
error e >>= k = error e

abbrev pub ◌>>◌ {ℓ κ} : {A : Type ℓ} {B : Type κ} → Try A → Try B → Try B
m >> k = m >>= λ _. k

abbrev pub guard : Bool → Error → Try (Unit {0})
guard true e = value tt
guard false e = error e

-- The result of a call, or an error with the message.
abbrev pub or_error {ℓ} : {A : Type ℓ} → Error → Option A → Try A
or_error e none = error e
or_error e (some a) = value a

pub data KeyUsage : Type 0 where
  digital_signature key_encipherment cert_sign : KeyUsage

pub data ExtKeyUsage : Type 0 where
  server_auth client_auth : ExtKeyUsage

-- The fields of `x509.Certificate` that pki.go sets or reads.
pub record Certificate (B : Type 0) : Type 0 where
  pub serial : ℕ
  pub cn : String
  pub o : List String
  pub not_before : ℤ
  pub not_after : ℤ
  pub is_ca : Bool
  pub key_usage : List KeyUsage
  pub ext_key_usage : List ExtKeyUsage
  pub dns_names : List String
  pub ip_addresses : List String
  pub raw : B

-- The fields of `x509.CertificateRequest`.
pub record CertificateRequest (P : Type 0) : Type 0 where
  pub cn : String
  pub o : List String
  pub dns_names : List String
  pub ip_addresses : List String
  pub public_key : Option P

-- The last argument of a call that draws random bytes is the number of the draw.
pub record Crypto : Type 1 where
  pub Bytes : Type 0
  pub empty : Bytes
  pub Key : Type 0
  pub Public : Type 0
  pub pem_decode : Bytes → Option (String × Bytes)
  pub pem_encode : String → Bytes → Bytes
  pub parse_certificate : Bytes → Option (Certificate Bytes)
  pub parse_key : Bytes → Option Key
  pub marshal_key : Key → Option Bytes
  pub public : Key → Public
  pub create_certificate : Certificate Bytes → Certificate Bytes → Public → Key → ℕ → Option Bytes
  pub create_request : CertificateRequest Public → Key → ℕ → Option Bytes
  pub parse_request : Bytes → Option (CertificateRequest Public)
  pub check_signature : CertificateRequest Public → Bool

-- What is documented of these packages: a PEM block is read back, as is a private key, and a parsed
-- certificate keeps the bytes that it was parsed from.
pub record IsCrypto (x : Crypto) : Type 0 where
  pub decode_encode :
      (kind : String) (b : x.Bytes) → x.pem_decode (x.pem_encode kind b) ≡ some (kind, b)
  pub parse_marshal : (k : x.Key) (b : x.Bytes) → x.marshal_key k ≡ some b → x.parse_key b ≡ some k
  pub raw_parse :
      (b : x.Bytes) (c : Certificate x.Bytes) → x.parse_certificate b ≡ some c → c.raw ≡ b

-- `pkiRef`
pub record PkiRef (x : Crypto) : Type 0 where
  pub cert_path : String
  pub key_path : String
  pub cert : Option (Certificate x.Bytes)
  pub key : Option x.Key

pub data Verdict : Type 0 where
  go_on : Verdict
  stop : Option Error → Verdict

module _ (x : Crypto) where
  check_validity : ℤ → String → Option (Certificate x.Bytes) → Verdict
  check_validity now path none = stop (some (at path "parse certificate"))
  check_validity now path (some c) =
      if ltb_ℤ c.not_after now || ltb_ℤ now c.not_before then stop none else go_on

  check_block : ℤ → String → Option (String × x.Bytes) → Verdict
  check_block now path none = stop (some (at path "no block set"))
  check_block now path (some (kind, body)) =
      if kind == "CERTIFICATE"
      then check_validity now path (x.parse_certificate body)
      else stop (some (at path "invalid block type"))

  -- The first half of `Read`: whether it returns before the key is read, and with which error.
  unfoldable pub check_certificate : ℤ → String → Option x.Bytes → Verdict
  unfolding check_block check_validity
  check_certificate now path none = go_on
  check_certificate now path (some bytes) = check_block now path (x.pem_decode bytes)

  set_key : PkiRef x → Option x.Key → Option Error × PkiRef x
  set_key p none = (some (at p.cert_path "parse private key"), p)
  set_key p (some k) = (none, record p { key = some k })

  decode_key : PkiRef x → Option (String × x.Bytes) → Option Error × PkiRef x
  unfolding set_key
  decode_key p none = (some (at p.cert_path "no block set"), p)
  decode_key p (some (kind, body)) =
      if kind == "EC PRIVATE KEY"
      then set_key p (x.parse_key body)
      else (some (at p.cert_path "invalid block type"), p)

  -- The second half of `Read`.
  unfoldable pub read_key : PkiRef x → Option x.Bytes → Option Error × PkiRef x
  unfolding decode_key
  read_key p none = (none, p)
  read_key p (some bytes) = decode_key p (x.pem_decode bytes)

  -- `Read`, at the time `now`. The certificate is looked at and not kept.
  unfoldable pub read : ℤ → Disk x.Bytes → PkiRef x → Option Error × PkiRef x
  unfolding read_file check_certificate read_key
  read now d p = elim (check_certificate now p.cert_path (read_file p.cert_path d)) [
    | stop e ↦ (e, p)
    | go_on ↦ read_key p (read_file p.key_path d)
  ]

  unfoldable pub cert_data : PkiRef x → Try x.Bytes
  cert_data p = elim p.cert [
    | none ↦ error (at p.cert_path "cannot PEM encode nil cert")
    | some c ↦ value (x.pem_encode "CERTIFICATE" c.raw)
  ]

  unfoldable pub key_data : PkiRef x → Try x.Bytes
  key_data p = elim p.key [
    | none ↦ error (at p.cert_path "cannot PEM encode nil key")
    | some k ↦ elim (x.marshal_key k) [
      | none ↦ error (at p.cert_path "cannot encode ec private key")
      | some b ↦ value (x.pem_encode "EC PRIVATE KEY" b)
    ]
  ]

  write_key : PkiRef x → Try x.Bytes → Disk x.Bytes → Option Error × Disk x.Bytes
  write_key p (error e) d = (some e, d)
  write_key p (value pem) d =
      let (written, d') = write_file p.key_path pem d in
      (if written then none else some (at p.cert_path "failed to write private key"), d')

  write_cert : PkiRef x → Try x.Bytes → Disk x.Bytes → Option Error × Disk x.Bytes
  unfolding write_key key_data
  write_cert p (error e) d = (some e, d)
  write_cert p (value pem) d =
      let (written, d') = write_file p.cert_path pem d in
      if written
      then write_key p (key_data p) d'
      else (some (at p.cert_path "failed to write certificate"), d')

  -- `Write`: the certificate, then the key.
  unfoldable pub write : PkiRef x → Disk x.Bytes → Option Error × Disk x.Bytes
  unfolding write_file write_cert cert_data
  write p d =
      if d.unmakeable p.cert_path
      then (some (plain "failed to create directory"), d)
      else write_cert p (cert_data p) d
