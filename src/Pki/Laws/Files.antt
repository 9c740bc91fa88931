-- ===== src/Pki/Laws/Files.antt =====
-- `Read` and `Write` of pki.go.
use runkube.Common.{
  ◌≡◌, ◌≢◌, refl, String, true, false, Option, none, some, insert, eq_iff, eq_refl, ltb_ℤ, arith,
  Option-cases, inl, inr, ℤ, lookup-insert,
}
use runkube.Disk.{Disk, read_file, HasFile}
use runkube.Disk.Laws.{HasFile-insert}
use runkube.Pki.{
  Certificate, Crypto, IsCrypto, PkiRef, go_on, check_certificate, read_key, read, write,
}

module _ {x : Crypto} where
  pub read_key-paths :
      (p : PkiRef x) (o : Option x.Bytes)
      → ((read_key x p o).1.cert_path ≡ p.cert_path)
        × ((read_key x p o).1.key_path ≡ p.key_path)
        × ((read_key x p o).1.cert ≡ p.cert)
  unfolding read_key
  read_key-paths p none = (refl, refl, refl)
  read_key-paths p (some b) = ground arith

  -- Reading leaves the paths as they are, and the certificate too.
  pub read-paths :
      (now : ℤ) (d : Disk x.Bytes) (p : PkiRef x)
      → ((read x now d p).1.cert_path ≡ p.cert_path)
        × ((read x now d p).1.key_path ≡ p.key_path)
        × ((read x now d p).1.cert ≡ p.cert)
  unfolding read read_file
  read-paths now d p = ground (arith, read_key-paths p (read_file p.key_path d))

  -- What a successful write has written.
  abbrev pub Written : PkiRef x → Disk x.Bytes → Type 0
  Written p d =
      (c : Certificate x.Bytes) × (k : x.Key) × (b : x.Bytes) × (p.cert ≡ some c)
      × (p.key ≡ some k)
      × (x.marshal_key k ≡ some b)
      × ((write x p d).1 ≡ record d {
        files =
            insert p.key_path (x.pem_encode "EC PRIVATE KEY" b)
              (insert p.cert_path (x.pem_encode "CERTIFICATE" c.raw) d.files);
      })

  pub write_success : (p : PkiRef x) (d : Disk x.Bytes) → (write x p d).0 ≡ none → Written p d
  unfolding write
  write_success p d h = elim (Option-cases p.cert) [
    | inl no_cert ↦ absurd (ground arith)
    | inr (c, is_c) ↦ elim (Option-cases p.key) [
      | inl no_key ↦ absurd (ground arith)
      | inr (k, is_k) ↦ elim (Option-cases (x.marshal_key k)) [
        | inl no_bytes ↦ absurd (ground arith)
        | inr (b, is_b) ↦ (c, k, b, is_c, is_k, is_b, ground arith)
      ]
    ]
  ]

  pub write-unmakeable :
      (p : PkiRef x) (d : Disk x.Bytes) → d.unmakeable p.cert_path ≡ true → (write x p d).0 ≢ none
  unfolding write
  write-unmakeable p d e h = ground arith

  -- A write loses no file, whether it goes well or not.
  pub write-HasFile_other :
      (p : PkiRef x) (d : Disk x.Bytes) (q : String) → HasFile d q → HasFile (write x p d).1 q
  unfolding write
  write-HasFile_other p d q h = elim (Option-cases p.cert) [
    | inl no_cert ↦ ground arith
    | inr (c, is_c) ↦
        let once = HasFile-insert p.cert_path q (x.pem_encode "CERTIFICATE" c.raw) d h in
        elim (Option-cases p.key) [
          | inl no_key ↦ ground arith
          | inr (k, is_k) ↦ elim (Option-cases (x.marshal_key k)) [
            | inl no_bytes ↦ ground arith
            | inr (b, is_b) ↦ ground (
              arith,
              HasFile-insert p.key_path q (x.pem_encode "EC PRIVATE KEY" b)
                  (record d {
                    files = insert p.cert_path (x.pem_encode "CERTIFICATE" c.raw) d.files;
                  })
                  once,
            )
          ]
        ]
  ]

  pub write-HasFile :
      (p : PkiRef x) (d : Disk x.Bytes)
      → (write x p d).0 ≡ none
      → HasFile (write x p d).1 p.cert_path × HasFile (write x p d).1 p.key_path
  write-HasFile p d h =
      let w = write_success p d h in
      let certificate = x.pem_encode "CERTIFICATE" w.0.raw in
      let key = x.pem_encode "EC PRIVATE KEY" w.2 in
      let once = insert p.cert_path certificate d.files in
      ground (
        arith,
        w.6,
        lookup-insert p.cert_path p.cert_path certificate d.files,
        lookup-insert p.key_path p.key_path key once,
        lookup-insert p.key_path p.cert_path key once,
        eq_refl p.cert_path,
        eq_refl p.key_path,
      )

  fresh_certificate-go_on :
      (law : IsCrypto x) (now : ℤ) (path : String) (c : Certificate x.Bytes)
      → x.parse_certificate c.raw ≡ some c
      → ltb_ℤ c.not_after now ≡ false
      → ltb_ℤ now c.not_before ≡ false
      → check_certificate x now path (some (x.pem_encode "CERTIFICATE" c.raw)) ≡ go_on
  unfolding check_certificate
  fresh_certificate-go_on law now path c parses late early =
      rw (law.decode_encode "CERTIFICATE" c.raw, parses, late, early)

  read_key-encode :
      (law : IsCrypto x) (p : PkiRef x) (k : x.Key) (b : x.Bytes)
      → x.marshal_key k ≡ some b
      → read_key x p (some (x.pem_encode "EC PRIVATE KEY" b)) ≡ (none, record p { key = some k })
  unfolding read_key
  read_key-encode law p k b is_b =
      rw (law.decode_encode "EC PRIVATE KEY" b, law.parse_marshal k b is_b)

  -- The two files after a write.
  pub both_on_disk :
      (p : PkiRef x) (d : Disk x.Bytes) (w : Written p d)
      → p.cert_path ≢ p.key_path
      → d.unreadable p.cert_path ≡ false
      → d.unreadable p.key_path ≡ false
      → (read_file p.cert_path (write x p d).1 ≡ some (x.pem_encode "CERTIFICATE" w.0.raw))
        × (read_file p.key_path (write x p d).1 ≡ some (x.pem_encode "EC PRIVATE KEY" w.2))
  unfolding read_file
  both_on_disk p d w apart open_c open_k =
      let certificate = x.pem_encode "CERTIFICATE" w.0.raw in
      let key = x.pem_encode "EC PRIVATE KEY" w.2 in
      let once = insert p.cert_path certificate d.files in
      ground (
        arith,
        w.6,
        lookup-insert p.cert_path p.cert_path certificate d.files,
        lookup-insert p.key_path p.key_path key once,
        lookup-insert p.key_path p.cert_path key once,
        eq_refl p.cert_path,
        eq_refl p.key_path,
        eq_iff p.key_path p.cert_path,
      )

  -- What is written is read back: the key is the one that was written, unless the certificate is out of
  -- its time or does not parse.
  pub read-write :
      (law : IsCrypto x) (p : PkiRef x) (d : Disk x.Bytes) (now : ℤ) (k : x.Key)
      (c : Certificate x.Bytes)
      → (write x p d).0 ≡ none
      → p.key ≡ some k
      → p.cert ≡ some c
      → x.parse_certificate c.raw ≡ some c
      → ltb_ℤ c.not_after now ≡ false
      → ltb_ℤ now c.not_before ≡ false
      → p.cert_path ≢ p.key_path
      → d.unreadable p.cert_path ≡ false
      → d.unreadable p.key_path ≡ false
      → read x now (write x p d).1 (record p { key = none }) ≡ (none, p)
  unfolding read
  read-write law p d now k c done is_key is_cert parses late early apart open_c open_k =
      let w = write_success p d done in
      let files = both_on_disk p d w apart open_c open_k in
      let same_c : w.0 ≡ c = ground arith in
      ground (
        arith,
        files.0,
        files.1,
        same_c,
        fresh_certificate-go_on law now p.cert_path c parses late early,
        read_key-encode law (record p { key = none }) w.1 w.2 w.5,
      )
