-- ===== src/Jwks/Laws.antt =====
-- plugins.go: what `jwksRef` leaves in the files.
use runkube.Common.{
  ◌≡◌, refl, lookup, lookup-insert, true, false, ap, eq_refl, eq_iff, String, Option, none, some,
  List, [], ◌∷◌, arith, Option-cases, inl, inr,
}
use runkube.Disk.{Disk, read_file, write_file}
use runkube.Pki.{Crypto, Error, plain, Outcome, done}
use runkube.Jwks.{
  Jose, Jwk, JwksRef, Fresh, default_key_id, keys_with_id, validate, read, new_key, overwritten,
  store, write_new, write_after, write,
}

-- A key set that was encoded is decoded.
pub record IsJose (x : Crypto) (j : Jose x) : Type 0 where
  pub decode_encode :
      (keys : List (Jwk x)) (b : x.Bytes) → j.encode keys ≡ some b → j.decode b ≡ (keys, true)

-- `keySetRef`, before anything is read.
abbrev pub blank : {x : Crypto} → String → JwksRef x
blank path = record { path = path; jwks = none }

module _ {x : Crypto} (j : Jose x) where
  -- A key for either role is the default key.
  new_key-default :
      (fresh : Fresh x) (role : String) (k : Jwk x)
      → (new_key x j fresh role).1 ≡ some k
      → k.key_id ≡ default_key_id
  unfolding new_key
  new_key-default fresh role k e = ground arith

  new_key-done :
      (fresh : Fresh x) (role : String)
      → (new_key x j fresh role).0 ≡ done
      → (k : Jwk x) × ((new_key x j fresh role).1 ≡ some k)
  unfolding new_key
  new_key-done fresh role e = elim (Option-cases (new_key x j fresh role).1) [
    | inl no_key ↦ absurd (ground arith)
    | inr made ↦ made
  ]

  store-done :
      (path : String) (keys : List (Jwk x)) (d : Disk x.Bytes)
      → d.unreadable path ≡ false
      → lookup path d.files ≡ none
      → (store x j path keys d).0 ≡ done
      → (b : x.Bytes) × (j.encode keys ≡ some b)
        × (read_file path (store x j path keys d).1 ≡ some b)
  unfolding store overwritten read_file write_file
  store-done path keys d open_p new e = elim (Option-cases (j.encode keys)) [
    | inl fails ↦ absurd (ground arith)
    | inr (b, is_b) ↦ (b, is_b, ground (arith, lookup-insert path path b d.files, eq_refl path))
  ]

  read-missing :
      (d : Disk x.Bytes) (r : JwksRef x)
      → read_file r.path d ≡ none
      → read x j d r ≡ (some (plain "open"), r)
  unfolding read
  read-missing d r e = rw (e, read)

  read-decoded :
      (law : IsJose x j) (d : Disk x.Bytes) (r : JwksRef x) (keys : List (Jwk x)) (b : x.Bytes)
      → read_file r.path d ≡ some b
      → j.encode keys ≡ some b
      → read x j d r ≡ (none, record r { jwks = some keys })
  unfolding read validate
  read-decoded law d r keys b at_path is_b = rw (at_path, law.decode_encode keys b is_b, read)

  -- `Write` where there is no file stores a new key.
  write-new :
      (fresh : Fresh x) (kid role path : String) (d : Disk x.Bytes)
      → read_file path d ≡ none
      → write x j fresh kid role (blank path) d
        ≡ write_new x j (new_key x j fresh role) (record { path = path; jwks = some [] }) [] d
  unfolding write write_after keys_with_id
  write-new fresh kid role path d e =
      ap (write_after x j fresh role d) (read-missing d (blank path) e)

  -- `Write` where a key set is read changes nothing.
  write-old :
      (fresh : Fresh x) (kid role : String) (r : JwksRef x) (d : Disk x.Bytes)
      → (read x j d r).0 ≡ none
      → write x j fresh kid role r d ≡ (done, (read x j d r).1, d)
  unfolding write write_after
  write-old fresh kid role r d e = ground arith

  write_new-done :
      (made : Outcome × Option (Jwk x)) (k : Jwk x) (r : JwksRef x) (d : Disk x.Bytes)
      → made.1 ≡ some k
      → (write_new x j made r [] d).0 ≡ (store x j r.path (k ∷ []) d).0
        × ((write_new x j made r [] d).2 ≡ (store x j r.path (k ∷ []) d).1)
  unfolding write_new
  write_new-done (o, none) k r d e = absurd (cc)
  write_new-done (o, some k') k r d e = ground arith

  only_key : (k : Jwk x) → k.key_id ≡ default_key_id → keys_with_id default_key_id (k ∷ []) ≡ k ∷ []
  unfolding keys_with_id
  only_key k e = ground (arith, eq_iff k.key_id default_key_id)

  write_new-none :
      (made : Outcome × Option (Jwk x)) (r : JwksRef x) (d : Disk x.Bytes)
      → made.1 ≡ none
      → (write_new x j made r [] d).0 ≡ made.0
  unfolding write_new
  write_new-none (o, none) r d e = refl
  write_new-none (o, some k) r d e = absurd (cc)

  -- A `Write` that ends well where there was no file has stored one key, the default one.
  write-one_key :
      (fresh : Fresh x) (kid role path : String) (d : Disk x.Bytes)
      → d.unreadable path ≡ false
      → lookup path d.files ≡ none
      → (write x j fresh kid role (blank path) d).0 ≡ done
      → (k : Jwk x) × (b : x.Bytes) × (k.key_id ≡ default_key_id)
        × (j.encode (k ∷ []) ≡ some b)
        × (read_file path (write x j fresh kid role (blank path) d).2 ≡ some b)
  unfolding read_file
  write-one_key fresh kid role path d open_p new e =
      let made = new_key x j fresh role in
      let r : JwksRef x = record { path = path; jwks = some [] } in
      let same = write-new fresh kid role path d (ground arith) in
      elim (Option-cases made.1) [
        | inl none_made ↦
            let made_well : made.0 ≡ done =
              ground (arith, write_new-none made r d none_made, same) in
            absurd (ground (arith, (new_key-done fresh role made_well).1))
        | inr (k, is_k) ↦
            let parts = write_new-done made k r d is_k in
            let (b, is_b, at_path) =
              store-done path (k ∷ []) d open_p new (ground (arith, parts.0, same)) in
            (k, b, new_key-default fresh role k is_k, is_b, ground (arith, parts.1, same, at_path))
      ]

  -- After a `Write` that ends well where there was no file, `Read` gives a set of one key, the default
  -- one; and another `Write` leaves the files as they are. The path must be readable, and decoding must
  -- give back what was encoded.
  pub write_lem :
      (law : IsJose x j) (fresh fresh' : Fresh x) (kid role kid' role' path : String)
      (d : Disk x.Bytes)
      → d.unreadable path ≡ false
      → lookup path d.files ≡ none
      → (write x j fresh kid role (blank path) d).0 ≡ done
      → (k : Jwk x) × (read x j (write x j fresh kid role (blank path) d).2 (blank path)
          ≡ (none, record { path = path; jwks = some (k ∷ []) }))
        × (keys_with_id default_key_id (k ∷ []) ≡ k ∷ [])
        × ((write x j fresh' kid' role' (blank path) (write x j fresh kid role (blank path) d).2).2
            ≡ (write x j fresh kid role (blank path) d).2)
  write_lem law fresh fresh' kid role kid' role' path d open_p new e =
      let (k, b, is_default, is_b, at_path) = write-one_key fresh kid role path d open_p new e in
      let d' = (write x j fresh kid role (blank path) d).2 in
      let found = read-decoded law d' (blank path) (k ∷ []) b at_path is_b in
      (
        k,
        found,
        only_key k is_default,
        ap (λ (o : Outcome × JwksRef x × Disk x.Bytes). o.2)
            (write-old fresh' kid' role' (blank path) d'
              (ap (λ (o : Option Error × JwksRef x). o.0) found)),
      )
