-- ===== src/Jwks/Kms.antt =====
-- plugins.go: the KMS plugin. Encryption by go-jose is the parameter `Jwe`.
use runkube.Common.{ℕ, String, Option, none, some, List, [], ◌∷◌}
use runkube.Pki.{Crypto}
use runkube.Jwks.{Jwk, default_key_id, keys_with_id}
use runkube.Jwks.Signer.{failed_precondition, Reply, reply, status, panic}

-- `parse`: `ParseEncrypted` with direct keys and A256GCM. `encrypter`: `NewEncrypter`, likewise.
pub record Jwe (x : Crypto) : Type 1 where
  pub Message : Type 0
  pub Encrypter : Type 0
  pub parse : List ℕ → Option Message
  pub decrypt : Message → List (Jwk x) → Option (List ℕ)
  pub encrypter : Jwk x → Option Encrypter
  pub encrypt : Encrypter → List ℕ → ℕ → Option Message
  pub compact_serialize : Message → Option (List ℕ)

pub record StatusResponse : Type 0 where
  pub version : String
  pub healthz : String
  pub key_id : String

abbrev kms_status : StatusResponse
kms_status = record { version = "v2"; healthz = "ok"; key_id = default_key_id }

pub record EncryptResponse : Type 0 where
  pub ciphertext : List ℕ
  pub key_id : String

module _ {x : Crypto} (j : Jwe x) where
  -- A result, or FailedPrecondition.
  abbrev or_refuse {ℓ} : {A : Type ℓ} → String → Option A → Reply A
  or_refuse e none = status failed_precondition e
  or_refuse e (some a) = reply a

  infixl 5 ◌>>=◌
  abbrev ◌>>=◌ {ℓ κ} : {A : Type ℓ} {B : Type κ} → Reply A → (A → Reply B) → Reply B
  reply a >>= k = k a
  status c e >>= k = status c e
  panic >>= k = panic

  unfoldable pub kms_decrypt : List (Jwk x) → List ℕ → Reply (List ℕ)
  kms_decrypt keys ciphertext = do
    parsed ← or_refuse "parse ciphertext" (j.parse ciphertext)
    or_refuse "decrypt" (j.decrypt parsed keys)

  unfoldable pub encrypt_with : Jwk x → List ℕ → ℕ → Reply EncryptResponse
  encrypt_with key plaintext draw = do
    enc ← or_refuse "crypto" (j.encrypter key)
    jwe ← or_refuse "encrypt" (j.encrypt enc plaintext draw)
    encrypted ← or_refuse "serialize" (j.compact_serialize jwe)
    reply record { ciphertext = encrypted; key_id = default_key_id }

  unfoldable pub kms_encrypt : List (Jwk x) → List ℕ → ℕ → Reply EncryptResponse
  kms_encrypt keys plaintext draw = elim (keys_with_id default_key_id keys) [
    | key ∷ [] ↦ encrypt_with key plaintext draw
    | _ ↦ status failed_precondition "one key expected"
  ]
