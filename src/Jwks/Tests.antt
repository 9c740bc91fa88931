-- ===== src/Jwks/Tests.antt =====
-- Runs of plugins.go on a concrete instance, and the theorems at such runs.
use runkube.Common.{ℕ, ◌≡◌, refl, false, none, some, List, [], ◌∷◌, arith, lookup}
use runkube.Disk.{Disk, read_file, write_file}
use runkube.Pki.{done}
use runkube.Pki.Toy.{toy, jose, jose-IsJose, fresh, Blob}
use runkube.Jwks.{
  ecdsa, Jwk, default_key_id, keys_with_id, read, new_key, store, write_new, write_after, write,
}
use runkube.Jwks.Signer.{
  reply, Signing, SignResponse, to_bytes, fill_bytes, algorithm_of, encode_signature, private_key,
  respond, sign_with, sign,
}
use runkube.Jwks.Kms.{Jwe, EncryptResponse, kms_encrypt, kms_decrypt, encrypt_with}
use runkube.Jwks.Laws.{blank, write_lem}
use runkube.Jwks.Signatures.{IsSigned, sign_lem}
use runkube.Jwks.Sealed.{IsJwe, kms_decrypt-kms_encrypt}

abbrev disk : Disk Blob
disk = record {
  files = [];
  unreadable = λ _. false;
  unwritable = λ _. false;
  unmakeable = λ _. false;
}

stored : (write toy jose fresh "default" "signing" (blank "/k") disk).0 ≡ done
unfolding write write_after read read_file lookup keys_with_id new_key write_new store write_file
    jose
stored = refl

missing : lookup "/k" disk.files ≡ none
unfolding lookup
missing = refl

write_lem_example :
    (k : Jwk toy) × (read toy jose
        (write toy jose fresh "default" "signing" (blank "/k") disk).2
        (blank "/k")
      ≡ (none, record { path = "/k"; jwks = some (k ∷ []) }))
    × (keys_with_id default_key_id (k ∷ []) ≡ k ∷ [])
    × ((write toy jose fresh "other" "encryption"
          (blank "/k")
          (write toy jose fresh "default" "signing" (blank "/k") disk).2).2
        ≡ (write toy jose fresh "default" "signing" (blank "/k") disk).2)
write_lem_example =
    write_lem jose jose-IsJose fresh fresh "default" "signing" "other" "encryption" "/k" disk refl
      missing stored

abbrev signing : Signing toy
signing = record {
  json_header = λ alg kid. some (1 ∷ []);
  base64_raw_url = λ bs. "b64";
  hash_bytes = λ h parts. 5 ∷ [];
  sign_hash = λ key hash draw. some (258, 3);
  marshal_public = λ k. none;
}

abbrev signing_key : Jwk toy
signing_key = record {
  key = ecdsa 9;
  use_for = "sig";
  algorithm = "ES384";
  key_id = default_key_id;
}

abbrev answer : SignResponse
answer = record { header = "b64"; signature = "b64" }

two_bytes : to_bytes 3 258 ≡ 0 ∷ 1 ∷ 2 ∷ []
unfolding to_bytes
two_bytes = refl

signs : sign signing 0 (signing_key ∷ []) "claims" ≡ reply answer
unfolding sign keys_with_id sign_with algorithm_of private_key respond encode_signature fill_bytes
    to_bytes
signs = refl

sign_lem_example :
    (key : Jwk toy) × (keys_with_id default_key_id (signing_key ∷ []) ≡ key ∷ [])
    × IsSigned signing 0 "claims" answer key
sign_lem_example = sign_lem signing 0 (signing_key ∷ []) "claims" answer signs

abbrev jwe : Jwe toy
jwe = record {
  Message = List ℕ;
  Encrypter = ℕ;
  parse = λ c. some c;
  decrypt = λ m keys. some m;
  encrypter = λ key. some 0;
  encrypt = λ e plaintext draw. some plaintext;
  compact_serialize = λ m. some m;
}

jwe-IsJwe : IsJwe jwe
jwe-IsJwe = record {
  decrypts = λ key keys e plaintext draw m c i is_e is_m is_c. (c, refl, ground arith);
}

abbrev sealed : EncryptResponse
sealed = record { ciphertext = 4 ∷ 2 ∷ []; key_id = default_key_id }

encrypts : kms_encrypt jwe (signing_key ∷ []) (4 ∷ 2 ∷ []) 0 ≡ reply sealed
unfolding kms_encrypt keys_with_id encrypt_with
encrypts = refl

kms_decrypt-kms_encrypt_run : kms_decrypt jwe (signing_key ∷ []) (4 ∷ 2 ∷ []) ≡ reply (4 ∷ 2 ∷ [])
kms_decrypt-kms_encrypt_run =
    kms_decrypt-kms_encrypt jwe-IsJwe (signing_key ∷ []) (4 ∷ 2 ∷ []) 0 sealed encrypts
