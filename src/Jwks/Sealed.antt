-- ===== src/Jwks/Sealed.antt =====
-- plugins.go: what the KMS plugin encrypts it decrypts.
use runkube.Common.{
  ℕ, ◌≡◌, refl, sym, subst, some, List, [], ◌∷◌, arith, Option-cases, inl, inr, In, here, In-select,
}
use runkube.Pki.{Crypto}
use runkube.Jwks.{Jwk, default_key_id, keys_with_id}
use runkube.Jwks.Signer.{reply}
use runkube.Jwks.Kms.{Jwe, EncryptResponse, kms_decrypt, encrypt_with, kms_encrypt}

-- What go-jose documents: a message that was encrypted with a key is decrypted with a set that has it.
pub record IsJwe {x : Crypto} (j : Jwe x) : Type 0 where
  pub decrypts :
      (key : Jwk x) (keys : List (Jwk x)) (e : j.Encrypter) (plaintext : List ℕ) (draw : ℕ)
      (m : j.Message) (c : List ℕ)
      → In key keys
      → j.encrypter key ≡ some e
      → j.encrypt e plaintext draw ≡ some m
      → j.compact_serialize m ≡ some c
      → (parsed : j.Message) × (j.parse c ≡ some parsed) × (j.decrypt parsed keys ≡ some plaintext)

key_of_set :
    {x : Crypto} (key : Jwk x) (keys : List (Jwk x))
    → In key (keys_with_id default_key_id keys)
    → In key keys
unfolding keys_with_id
key_of_set key keys = In-select _ key keys

module _ {x : Crypto} {j : Jwe x} (law : IsJwe j) where
  encrypt_with-decrypt :
      (key : Jwk x) (keys : List (Jwk x)) (plaintext : List ℕ) (draw : ℕ) (r : EncryptResponse)
      → In key keys
      → encrypt_with j key plaintext draw ≡ reply r
      → kms_decrypt j keys r.ciphertext ≡ reply plaintext
  unfolding encrypt_with kms_decrypt
  encrypt_with-decrypt key keys plaintext draw r i e = elim (Option-cases (j.encrypter key)) [
    | inl no_encrypter ↦ absurd (ground arith)
    | inr (enc, is_enc) ↦ elim (Option-cases (j.encrypt enc plaintext draw)) [
      | inl no_message ↦ absurd (ground arith)
      | inr (m, is_m) ↦ elim (Option-cases (j.compact_serialize m)) [
        | inl no_text ↦ absurd (ground arith)
        | inr (c, is_c) ↦
            let (parsed, parses, opens) =
              law.decrypts key keys enc plaintext draw m c i is_enc is_m is_c in
            ground (arith, parses, opens)
      ]
    ]
  ]

  -- What `Encrypt` answers, `Decrypt` with the same keys turns back into the plaintext.
  pub kms_decrypt-kms_encrypt :
      (keys : List (Jwk x)) (plaintext : List ℕ) (draw : ℕ) (r : EncryptResponse)
      → kms_encrypt j keys plaintext draw ≡ reply r
      → kms_decrypt j keys r.ciphertext ≡ reply plaintext
  unfolding kms_encrypt
  kms_decrypt-kms_encrypt keys plaintext draw r e = go (keys_with_id default_key_id keys) refl
    where
      go :
          (found : List (Jwk x))
          → keys_with_id default_key_id keys ≡ found
          → kms_decrypt j keys r.ciphertext ≡ reply plaintext
      go [] is_found = absurd (ground arith)
      go (key ∷ []) is_found =
          encrypt_with-decrypt key keys plaintext draw r
            (key_of_set key keys (subst (In key) (sym is_found) (here refl))) (ground arith)
      go (key ∷ k' ∷ more) is_found = absurd (ground arith)
