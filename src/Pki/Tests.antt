-- ===== src/Pki/Tests.antt =====
-- Runs of pki.go on the concrete instance, and the theorems at such runs.
use runkube.Common.{
  ℕ, ◌*◌, ◌≡◌, ◌≢◌, refl, String, true, false, Option, none, some, [], ◌∷◌, pos, negsuc, ◌≤ℤ◌, ◌+ℤ◌,
  arith, lookup, insert, eq_iff,
}
use runkube.Disk.{Disk, read_file, write_file}
use runkube.Pki.{
  Error, value, server_auth, client_auth, digital_signature, Certificate, CertificateRequest,
  PkiRef, check_certificate, read_key, cert_data, key_data, read, write,
}
use runkube.Pki.Authorities.{
  Request, Ca, clamp, leaf_template, certificate_for_request, ensure_key, request_template, sign,
  signed, self_signed, ca_template, init, certificate, cert_lifetime_min, cert_lifetime_max,
}
use runkube.Pki.Laws.Files.{read-write}
use runkube.Pki.Laws.Certificates.{certificate_for_request_lem, certificate_lem}
use runkube.Pki.Toy.{toy, toy-IsCrypto, chance, day, Blob, pem, der, key}

abbrev empty_disk : Disk Blob
empty_disk = record {
  files = [];
  unreadable = λ _. false;
  unwritable = λ _. false;
  unmakeable = λ _. false;
}

abbrev ref : PkiRef toy
ref = record { cert_path = "/a.crt"; key_path = "/a.key"; cert = none; key = none }

abbrev ca_ref : PkiRef toy
ca_ref = record { cert_path = "/ca.crt"; key_path = "/ca.key"; cert = none; key = none }

abbrev blank_ca : Ca toy
blank_ca = record { name = "etcd"; lifetime = pos 0; p = ca_ref }

abbrev req : Request
req = record {
  name = "a";
  signer = "etcd";
  usages = client_auth ∷ [];
  lifetime = pos (day * 300);
  cn = "a.internal";
  o = "ops" ∷ [];
  san = [];
  ip = [];
}

abbrev csr : CertificateRequest ℕ
csr = record {
  cn = "a.internal";
  o = "ops" ∷ [];
  dns_names = [];
  ip_addresses = [];
  public_key = some 1007;
}

clamp_low : clamp (negsuc 4) (pos 2) (pos 9) ≡ pos 2
unfolding clamp
clamp_low = refl

abbrev ca_der : Blob
ca_der = der "etcd" [] (pos 0) (pos (day * 7)) (server_auth ∷ client_auth ∷ [])

-- The authority on an empty disk: 7 days, signed by its new key.
abbrev made : Option Error × Ca toy × Disk Blob
made = init toy chance blank_ca ca_ref empty_disk

made_files :
    made.2.files
    ≡ ("/ca.crt", pem "CERTIFICATE" ca_der) ∷ ("/ca.key", pem "EC PRIVATE KEY" (key 7)) ∷ []
unfolding init read write self_signed read_file write_file cert_data key_data insert lookup read_key
    check_certificate ca_template clamp ◌+ℤ◌
made_files = refl

-- A leaf for 180 days, though 300 were asked.
abbrev issued : Option Error × PkiRef toy × Disk Blob
issued = certificate toy chance made.1 ref req made.2

abbrev leaf_der : Blob
leaf_der = der "a.internal" ("ops" ∷ []) (pos 0) (pos (day * 180)) (client_auth ∷ [])

abbrev signing_ca : Ca toy
signing_ca = record blank_ca {
  p = record ca_ref { cert = toy.parse_certificate ca_der; key = some 7 };
}

issued_well : (certificate toy chance signing_ca ref req empty_disk).0 ≡ none
unfolding certificate read write signed sign request_template read_file write_file cert_data
    key_data insert lookup read_key check_certificate leaf_template certificate_for_request clamp
    ◌+ℤ◌
issued_well = refl

apart : ◌≢◌ {A = String} "/a.crt" "/a.key"
apart e = ground (arith, eq_iff "/a.crt" "/a.key")

certificate_lem_example :
    (k : ℕ) × (c : Certificate Blob) × (bytes : Blob) × (ensure_key toy chance
        (read toy (pos 0) empty_disk ref).1
      ≡ some k)
    × (signed toy chance signing_ca req k ≡ value c)
    × (toy.marshal_key k ≡ some bytes)
    × (read_file "/a.crt" (certificate toy chance signing_ca ref req empty_disk).2
        ≡ some (pem "CERTIFICATE" c.raw))
    × (read_file "/a.key" (certificate toy chance signing_ca ref req empty_disk).2
        ≡ some (pem "EC PRIVATE KEY" bytes))
certificate_lem_example =
    certificate_lem chance signing_ca ref req empty_disk refl issued_well apart refl refl

template_made :
    certificate_for_request toy chance req csr ≡ value (leaf_template toy chance req csr 1)
unfolding certificate_for_request
template_made = refl

abbrev template : Certificate Blob
template = leaf_template toy chance req csr 1

certificate_for_request_lem_example :
    (toy.check_signature csr ≡ true)
    × (pos 0 +ℤ cert_lifetime_min ≤ℤ template.not_after)
    × (template.not_after ≤ℤ pos 0 +ℤ cert_lifetime_max)
    × (template.cn ≡ "a.internal")
    × (template.o ≡ "ops" ∷ [])
    × (template.ext_key_usage ≡ client_auth ∷ [])
    × (template.is_ca ≡ false)
certificate_for_request_lem_example =
    certificate_for_request_lem chance req csr template template_made

abbrev loaded : PkiRef toy
loaded = record ref { cert = toy.parse_certificate leaf_der; key = some 7 }

loaded_written : (write toy loaded empty_disk).0 ≡ none
unfolding write write_file cert_data key_data
loaded_written = refl

abbrev leaf : Certificate Blob
leaf = record {
  serial = 0;
  cn = "a.internal";
  o = "ops" ∷ [];
  not_before = pos 0;
  not_after = pos (day * 180);
  is_ca = false;
  key_usage = digital_signature ∷ [];
  ext_key_usage = client_auth ∷ [];
  dns_names = [];
  ip_addresses = [];
  raw = leaf_der;
}

read-write_run :
    read toy (pos day) (write toy loaded empty_disk).1 (record loaded { key = none })
    ≡ (none, loaded)
read-write_run =
    read-write toy-IsCrypto loaded empty_disk (pos day) 7 leaf loaded_written refl refl refl refl
      refl apart refl refl
