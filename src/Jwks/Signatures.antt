-- ===== src/Jwks/Signatures.antt =====
-- plugins.go: the form of a signature, and who is refused.
use runkube.Common.{
  ℕ, zero, suc, ◌+◌, ◌*◌, ◌/◌, ◌%◌, ◌^◌, ◌<◌, ◌≡◌, refl, sym, ap, ◌∙◌, String, Option, none, some,
  List, [], ◌∷◌, ◌++◌, arith, Option-cases, inl, inr, length, length-append, take, drop, take_front,
  take_all,
}
use native.Mathlib.Nat.{pow-suc}
use runkube.Pki.{Crypto}
use runkube.Jwks.{Jwk, default_key_id, keys_with_id}
use runkube.Jwks.Signer.{
  reply, Hash, Signing, SignResponse, to_bytes, fill_bytes, algorithm_of, encode_signature,
  private_key, respond, sign_with, sign,
}

-- The number that bytes stand for, the highest first.
unfoldable pub from_bytes : ℕ → List ℕ → ℕ
from_bytes acc [] = acc
from_bytes acc (b ∷ rest) = from_bytes (acc * 256 + b) rest

from_bytes-snoc :
    (acc : ℕ) (bs : List ℕ) (b : ℕ) → from_bytes acc (bs ++ b ∷ []) ≡ from_bytes acc bs * 256 + b
unfolding from_bytes
from_bytes-snoc acc [] b = refl
from_bytes-snoc acc (c ∷ bs) b = from_bytes-snoc (acc * 256 + c) bs b

length-to_bytes : (n v : ℕ) → length (to_bytes n v) ≡ n
unfolding to_bytes
length-to_bytes zero v = refl
length-to_bytes (suc n) v =
    omega (arith, length-append (to_bytes n (v / 256)) (v % 256 ∷ []), length-to_bytes n (v / 256))

from_bytes-to_bytes : (n v : ℕ) → v < 256 ^ n → from_bytes 0 (to_bytes n v) ≡ v
unfolding to_bytes from_bytes
from_bytes-to_bytes zero v h = omega arith
from_bytes-to_bytes (suc n) v h =
    let smaller : v / 256 < 256 ^ n = omega (arith, pow-suc 256 n) in
    omega (
      arith,
      from_bytes-snoc 0 (to_bytes n (v / 256)) (v % 256),
      from_bytes-to_bytes n (v / 256) smaller,
    )

drop_front {ℓ} : {A : Type ℓ} (n : ℕ) (xs ys : List A) → length xs ≡ n → drop n (xs ++ ys) ≡ ys
drop_front zero [] ys h = refl
drop_front zero (x ∷ xs) ys h = ground arith
drop_front (suc n) [] ys h = ground arith
drop_front (suc n) (x ∷ xs) ys h = drop_front n xs ys (omega arith)

fill_bytes-eq-some :
    (n v : ℕ) (bs : List ℕ) → fill_bytes n v ≡ some bs → (length bs ≡ n) × (from_bytes 0 bs ≡ v)
unfolding fill_bytes
fill_bytes-eq-some n v bs e = ground (arith, length-to_bytes n v, from_bytes-to_bytes n v)

module _ {x : Crypto} (g : Signing x) where
  -- Both numbers are read back from the halves of the bytes.
  encode_signature-eq-some :
      (n r s : ℕ) (sigb : List ℕ)
      → encode_signature g n (r, s) ≡ some sigb
      → (length sigb ≡ n + n) × (from_bytes 0 (take n sigb) ≡ r) × (from_bytes 0 (drop n sigb) ≡ s)
  unfolding encode_signature
  encode_signature-eq-some n r s sigb e = elim (Option-cases (fill_bytes n r)) [
    | inl no_r ↦ absurd (ground arith)
    | inr (front, is_front) ↦ elim (Option-cases (fill_bytes n s)) [
      | inl no_s ↦ absurd (ground arith)
      | inr (back, is_back) ↦
          let first = fill_bytes-eq-some n r front is_front in
          let second = fill_bytes-eq-some n s back is_back in
          let whole : front ++ back ≡ sigb = ground arith in
          let here_taken : take n (front ++ back) ≡ front =
            take_front n front back (omega (arith, first.0))
            ∙ take_all n front (omega (arith, first.0)) in
          (
            ap length (sym whole) ∙ omega (arith, length-append front back, first.0, second.0),
            ap (λ bs. from_bytes 0 (take n bs)) (sym whole)
                ∙ ap (from_bytes 0) here_taken
                ∙ first.1,
            ap (λ bs. from_bytes 0 (drop n bs)) (sym whole)
                ∙ ap (from_bytes 0) (drop_front n front back first.0)
                ∙ second.1,
          )
    ]
  ]

  -- What a signature of `Sign` is made of.
  abbrev pub IsSigned : ℕ → String → SignResponse → Jwk x → Type 0
  IsSigned draw claims response key =
      (hash : Hash) × (n : ℕ) × (private : x.Key) × (r : ℕ) × (s : ℕ) × (sigb : List ℕ)
      × (algorithm_of key.algorithm ≡ some (hash, n))
      × (private_key g key.key ≡ some private)
      × (g.sign_hash private (g.hash_bytes hash (response.header ∷ "." ∷ claims ∷ [])) draw
          ≡ some (r, s))
      × (response.signature ≡ g.base64_raw_url sigb)
      × (length sigb ≡ n + n)
      × (from_bytes 0 (take n sigb) ≡ r)
      × (from_bytes 0 (drop n sigb) ≡ s)

  respond-eq-reply :
      (header : String) (n : ℕ) (signed : Option (ℕ × ℕ)) (response : SignResponse)
      → respond g header n signed ≡ reply response
      → (r : ℕ) × (s : ℕ) × (sigb : List ℕ) × (signed ≡ some (r, s))
        × (encode_signature g n (r, s) ≡ some sigb)
        × (response.header ≡ header)
        × (response.signature ≡ g.base64_raw_url sigb)
  unfolding respond
  respond-eq-reply header n none response e = absurd (cc)
  respond-eq-reply header n (some (r, s)) response e =
      elim (Option-cases (encode_signature g n (r, s))) [
        | inl too_long ↦ absurd (ground arith)
        | inr (sigb, is_sigb) ↦ (r, s, sigb, refl, is_sigb, ground arith, ground arith)
      ]

  sign_with-IsSigned :
      (draw : ℕ) (key : Jwk x) (claims : String) (response : SignResponse)
      → sign_with g draw key claims ≡ reply response
      → IsSigned draw claims response key
  unfolding sign_with
  sign_with-IsSigned draw key claims response e =
      elim (Option-cases (g.json_header key.algorithm key.key_id)) [
        | inl no_json ↦ absurd (ground arith)
        | inr (json, is_json) ↦ elim (Option-cases (algorithm_of key.algorithm)) [
          | inl unsupported ↦ absurd (ground arith)
          | inr (alg, is_alg) ↦ elim (Option-cases (private_key g key.key)) [
            | inl no_key ↦ absurd (ground arith)
            | inr (private, is_private) ↦
                let header = g.base64_raw_url json in
                let signed =
                  g.sign_hash private (g.hash_bytes alg.0 (header ∷ "." ∷ claims ∷ [])) draw in
                let responds : respond g header alg.1 signed ≡ reply response = ground arith in
                let (r, s, sigb, is_pair, is_sigb, same, is_signature) =
                  respond-eq-reply header alg.1 signed response responds in
                let parts = encode_signature-eq-some alg.1 r s sigb is_sigb in
                (
                  alg.0,
                  alg.1,
                  private,
                  r,
                  s,
                  sigb,
                  is_alg,
                  is_private,
                  ap (λ h. g.sign_hash private (g.hash_bytes alg.0 (h ∷ "." ∷ claims ∷ [])) draw)
                        same
                      ∙ is_pair,
                  is_signature,
                  parts.0,
                  parts.1,
                  parts.2,
                )
          ]
        ]
      ]

  -- A token that `Sign` answers is signed by the one default key, over its header, a dot and the claims,
  -- with the hash of the key's algorithm. The signature is as long as the two numbers of the algorithm's
  -- width, and both numbers are read back from it.
  pub sign_lem :
      (draw : ℕ) (keys : List (Jwk x)) (claims : String) (response : SignResponse)
      → sign g draw keys claims ≡ reply response
      → (key : Jwk x) × (keys_with_id default_key_id keys ≡ key ∷ [])
        × IsSigned draw claims response key
  unfolding sign
  sign_lem draw keys claims response e = go (keys_with_id default_key_id keys) refl
    where
      go :
          (found : List (Jwk x))
          → keys_with_id default_key_id keys ≡ found
          → (key : Jwk x) × (keys_with_id default_key_id keys ≡ key ∷ [])
            × IsSigned draw claims response key
      go [] is_found = absurd (ground arith)
      go (key ∷ []) is_found =
          (key, is_found, sign_with-IsSigned draw key claims response (ground arith))
      go (key ∷ k' ∷ more) is_found = absurd (ground arith)
