-- ===== src/Jwks/Signer.antt =====
-- plugins.go: the signer of service account tokens. What go-jose, crypto/ecdsa, encoding/json and
-- encoding/base64 do is the parameter `Signing`.
use runkube.Common.{
  ℕ, zero, suc, ◌/◌, ◌%◌, ◌^◌, String, Option, none, some, List, [], ◌∷◌, ◌++◌, ◌==◌, if◌then◌else◌,
  ltb,
}
use runkube.Pki.{Crypto}
use runkube.Jwks.{Jwk, KeyData, octets, ecdsa, default_key_id, keys_with_id}

pub data Code : Type 0 where
  failed_precondition unknown : Code

-- The end of a handler: a response, a gRPC status, or a panic.
pub data Reply {ℓ} (A : Type ℓ) : Type ℓ where
  reply : A → Reply A
  status : Code → String → Reply A
  panic : Reply A

pub data Hash : Type 0 where
  sha256 sha384 : Hash

-- `json_header alg kid`: the header of type JWT as JSON. `sign_hash`: the numbers r and s of a
-- signature, by the number of the draw.
pub record Signing (x : Crypto) : Type 0 where
  pub json_header : String → String → Option (List ℕ)
  pub base64_raw_url : List ℕ → String
  pub hash_bytes : Hash → List String → List ℕ
  pub sign_hash : x.Key → List ℕ → ℕ → Option (ℕ × ℕ)
  pub marshal_public : KeyData x → Option (List ℕ)

-- The bytes of a number, the highest first: those of the quotient by 256, then the rest.
unfoldable pub to_bytes : ℕ → ℕ → List ℕ
to_bytes zero v = []
to_bytes (suc n) v = to_bytes n (v / 256) ++ (v % 256) ∷ []

-- `big.Int.FillBytes` on a buffer of n bytes: none if the number does not fit, which is a panic.
unfoldable pub fill_bytes : ℕ → ℕ → Option (List ℕ)
fill_bytes n v = if ltb v (256 ^ n) then some (to_bytes n v) else none

-- The hash of an algorithm, and `rsBytes`.
unfoldable pub algorithm_of : String → Option (Hash × ℕ)
algorithm_of alg =
    if alg == "ES256" then some (sha256, 32) else if alg == "ES384" then some (sha384, 48) else none

pub record SignResponse : Type 0 where
  pub header : String
  pub signature : String

module _ {x : Crypto} (g : Signing x) where
  -- The two numbers, each in its half of the signature.
  unfoldable pub encode_signature : ℕ → ℕ × ℕ → Option (List ℕ)
  encode_signature rs_bytes (r, s) = elim (fill_bytes rs_bytes r) [
    | none ↦ none
    | some front ↦ elim (fill_bytes rs_bytes s) [ none ↦ none | some back ↦ some (front ++ back) ]
  ]

  -- `key.Key.(*ecdsa.PrivateKey)`
  unfoldable pub private_key : KeyData x → Option x.Key
  private_key (octets kb) = none
  private_key (ecdsa key) = some key

  -- From the signature on.
  unfoldable pub respond : String → ℕ → Option (ℕ × ℕ) → Reply SignResponse
  respond header rs_bytes none = status unknown "ecdsa"
  respond header rs_bytes (some pair) = elim (encode_signature rs_bytes pair) [
    | none ↦ panic
    | some sigb ↦ reply record { header = header; signature = g.base64_raw_url sigb }
  ]

  -- `Sign` with the one key.
  unfoldable pub sign_with : ℕ → Jwk x → String → Reply SignResponse
  sign_with draw key claims = elim (g.json_header key.algorithm key.key_id) [
    | none ↦ status unknown "json"
    | some json ↦ elim (algorithm_of key.algorithm) [
      | none ↦ status unknown "unsupported signing algorithm"
      | some (hash, rs_bytes) ↦ elim (private_key key.key) [
        | none ↦ panic
        | some private ↦
            let header = g.base64_raw_url json in
            respond header rs_bytes
              (g.sign_hash private (g.hash_bytes hash (header ∷ "." ∷ claims ∷ [])) draw)
      ]
    ]
  ]

  -- `Sign`. A set that was not read has no keys here; the code has read it.
  unfoldable pub sign : ℕ → List (Jwk x) → String → Reply SignResponse
  sign draw keys claims = elim (keys_with_id default_key_id keys) [
    | key ∷ [] ↦ sign_with draw key claims
    | _ ↦ status failed_precondition "one key expected"
  ]

  -- `FetchKeys`: the identifiers and public keys of all keys.
  unfoldable pub fetch_keys : List (Jwk x) → Reply (List (String × List ℕ))
  fetch_keys [] = reply []
  fetch_keys (jwk ∷ rest) =
      let later = fetch_keys rest in
      elim (g.marshal_public jwk.key) [
        | none ↦ status failed_precondition "signer.fetchKeys"
        | some kb ↦ elim later [
          | reply eks ↦ reply ((jwk.key_id, kb) ∷ eks)
          | status c e ↦ status c e
          | panic ↦ panic
        ]
      ]

-- `Metadata`
unfoldable pub max_token_expiration_seconds : ℕ
max_token_expiration_seconds = 3600
