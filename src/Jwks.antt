-- ===== src/Jwks.antt =====
-- plugins.go: `jwksRef`, a set of keys in a file. The package go-jose is the parameter `Jose`.
use runkube.Common.{
  ℕ, ◌≡◌, String, Bool, true, false, Option, none, some, List, [], ◌∷◌, ◌++◌, ◌==◌, if◌then◌else◌,
  or_else, select, lookup,
}
use runkube.Disk.{Disk, read_file, write_file}
use runkube.Pki.{Error, plain, Outcome, done, failed, panicked, outcome, Crypto}
pub mod Signer
pub mod Kms
pub mod Stored
pub mod Laws
pub mod Signatures
pub mod Sealed
pub mod Tests

pub data KeyData (x : Crypto) : Type 0 where
  octets : List ℕ → KeyData x
  ecdsa : x.Key → KeyData x

-- `jose.JSONWebKey`
pub record Jwk (x : Crypto) : Type 0 where
  pub key : KeyData x
  pub use_for : String
  pub algorithm : String
  pub key_id : String

-- A key set as JSON. `decode`: the keys that were read, and whether there was no error. `overwrite new
-- old`: what is in a file that held `old` after `new` was written from its start.
pub record Jose (x : Crypto) : Type 0 where
  pub encode : List (Jwk x) → Option x.Bytes
  pub decode : x.Bytes → List (Jwk x) × Bool
  pub overwrite : x.Bytes → x.Bytes → x.Bytes

pub record JwksRef (x : Crypto) : Type 0 where
  pub path : String
  pub jwks : Option (List (Jwk x))

-- The random values of a run of `Write`.
pub record Fresh (x : Crypto) : Type 0 where
  pub octets : Option (List ℕ)
  pub key : Option x.Key

abbrev pub default_key_id : String
default_key_id = "default"

module _ {x : Crypto} where
  -- `JSONWebKeySet.Key`
  unfoldable pub keys_with_id : String → List (Jwk x) → List (Jwk x)
  keys_with_id kid keys = select (λ (k : Jwk x). k.key_id == kid) keys

  unfoldable pub validate : JwksRef x → Option Error
  validate r = elim r.jwks [ none ↦ some (plain "jkr.jwks not set") | some keys ↦ none ]

module _ (x : Crypto) (j : Jose x) where
  unfoldable pub read : Disk x.Bytes → JwksRef x → Option Error × JwksRef x
  read d r = elim (read_file r.path d) [
    | none ↦ (some (plain "open"), r)
    | some b ↦
        let r' : JwksRef x = record r { jwks = some (j.decode b).0 } in
        (if (j.decode b).1 then validate r' else some (plain "decode"), r')
  ]

  -- The new key for a role.
  unfoldable pub new_key : Fresh x → String → Outcome × Option (Jwk x)
  new_key fresh role =
      if role == "encryption"
      then elim fresh.octets [
        | none ↦ (panicked, none)
        | some kb ↦ (
          done,
          some record {
            key = octets kb;
            use_for = "enc";
            algorithm = "A256GCM";
            key_id = default_key_id;
          },
        )
      ]
      else if role == "signing"
      then elim fresh.key [
        | none ↦ (failed (plain "ecdsa"), none)
        | some key ↦ (
          done,
          some record {
            key = ecdsa key;
            use_for = "sig";
            algorithm = "ES384";
            key_id = default_key_id;
          },
        )
      ]
      else (failed (plain "unknown role"), none)

  -- The bytes of the file from its start are replaced.
  unfoldable pub overwritten : x.Bytes → Option x.Bytes → x.Bytes
  overwritten b none = b
  overwritten b (some old) = j.overwrite b old

  -- The file is opened without O_TRUNC, and made where there is none, before the keys are encoded.
  unfoldable pub store : String → List (Jwk x) → Disk x.Bytes → Outcome × Disk x.Bytes
  unfolding overwritten
  store path keys d =
      if d.unwritable path then (failed (plain "open"), d) else elim (j.encode keys) [
        | none ↦
            (failed (plain "encode"), (write_file path (or_else (lookup path d.files) x.empty) d).1)
        | some b ↦ (done, (write_file path (overwritten b (lookup path d.files)) d).1)
      ]

  unfoldable pub write_new :
      Outcome × Option (Jwk x)
      → JwksRef x
      → List (Jwk x)
      → Disk x.Bytes
      → Outcome × JwksRef x × Disk x.Bytes
  unfolding store
  write_new (o, none) r keys d = (o, r, d)
  write_new (o, some k) r keys d =
      let all = keys ++ k ∷ [] in
      let (o', d') = store r.path all d in (o', record r { jwks = some all }, d')

  -- `Write`, after its `Read`.
  unfoldable pub write_after :
      Fresh x
      → String
      → Disk x.Bytes
      → Option Error × JwksRef x
      → Outcome × JwksRef x × Disk x.Bytes
  write_after fresh role d (none, r) = (done, r, d)
  write_after fresh role d (some err, r) =
      let keys : List (Jwk x) = or_else r.jwks [] in
      let r' : JwksRef x = record r { jwks = some keys } in
      elim (keys_with_id default_key_id keys) [
        | k ∷ more ↦ (done, r', d)
        | [] ↦ write_new (new_key fresh role) r' keys d
      ]

  -- `Write`. The identifier that is asked for is not used: the key is always the default one.
  unfoldable pub write :
      Fresh x → String → String → JwksRef x → Disk x.Bytes → Outcome × JwksRef x × Disk x.Bytes
  write fresh want_kid role r d = write_after fresh role d (read d r)
