-- ===== src/Jwks/Stored.antt =====
-- plugins.go: `jwksRef.Write` loses no file.
use runkube.Common.{
  ◌≡◌, ◌⊎◌, refl, String, Option, none, some, List, [], ◌∷◌, arith, Option-cases, inl, inr, or_else,
  ◌++◌, lookup, Bool-cases,
}
use runkube.Disk.{Disk, HasFile}
use runkube.Disk.Laws.{write_file-HasFile_other}
use runkube.Pki.{Crypto, Error, Outcome}
use runkube.Jwks.{
  Jose, Jwk, JwksRef, Fresh, default_key_id, keys_with_id, read, new_key, overwritten, store,
  write_new, write_after, write,
}

List-cases {ℓ} : {A : Type ℓ} (l : List A) → (l ≡ []) ⊎ ((a : A) × (more : List A) × (l ≡ a ∷ more))
List-cases [] = inl refl
List-cases (a ∷ more) = inr (a, more, refl)

module _ {x : Crypto} (j : Jose x) where
  store-HasFile_other :
      (path : String) (keys : List (Jwk x)) (d : Disk x.Bytes) (q : String)
      → HasFile d q
      → HasFile (store x j path keys d).1 q
  unfolding store
  store-HasFile_other path keys d q h = elim (Bool-cases (d.unwritable path)) [
    | inl fails ↦ ground arith
    | inr opened ↦ elim (Option-cases (j.encode keys)) [
      | inl fails ↦
          let made = or_else (lookup path d.files) x.empty in
          ground (arith, write_file-HasFile_other path q made d h)
      | inr (b, is_b) ↦
          let content = overwritten x j b (lookup path d.files) in
          ground (arith, write_file-HasFile_other path q content d h)
    ]
  ]

  write_new-HasFile_other :
      (made : Outcome × Option (Jwk x)) (r : JwksRef x) (keys : List (Jwk x)) (d : Disk x.Bytes)
      (q : String)
      → HasFile d q
      → HasFile (write_new x j made r keys d).2 q
  unfolding write_new
  write_new-HasFile_other (o, none) r keys d q h = h
  write_new-HasFile_other (o, some k) r keys d q h =
      store-HasFile_other r.path (keys ++ k ∷ []) d q h

  write_after-HasFile_other :
      (fresh : Fresh x) (role : String) (d : Disk x.Bytes) (found : Option Error × JwksRef x)
      (q : String)
      → HasFile d q
      → HasFile (write_after x j fresh role d found).2 q
  unfolding write_after
  write_after-HasFile_other fresh role d (none, r) q h = h
  write_after-HasFile_other fresh role d (some e, r) q h =
      let keys : List (Jwk x) = or_else r.jwks [] in
      elim (List-cases (keys_with_id default_key_id keys)) [
        | inl missing ↦ ground (
          arith,
          write_new-HasFile_other (new_key x j fresh role) (record r { jwks = some keys }) keys d q
              h,
        )
        | inr (k, more, present) ↦ ground arith
      ]

  pub write-HasFile_other :
      (fresh : Fresh x) (kid role : String) (r : JwksRef x) (d : Disk x.Bytes) (q : String)
      → HasFile d q
      → HasFile (write x j fresh kid role r d).2 q
  unfolding write
  write-HasFile_other fresh kid role r d q h =
      write_after-HasFile_other fresh role d (read x j d r) q h
