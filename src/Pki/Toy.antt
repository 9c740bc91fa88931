-- ===== src/Pki/Toy.antt =====
-- A concrete instance of the packages that pki.go and plugins.go use, for runs of the model: bytes are
-- terms, keys are numbers.
use runkube.Common.{
  ℕ, ◌+◌, ◌≡◌, refl, sym, ap, String, Bool, true, false, Option, none, some, List, [], ◌∷◌, ◌∙◌,
  if◌then◌else◌, ℤ, pos, arith,
}
use mathlib.Core.Option.{some-injective}
use runkube.Pki.{ExtKeyUsage, Certificate, CertificateRequest, Crypto, IsCrypto, digital_signature}
use runkube.Pki.Authorities.{Chance}
use runkube.Jwks.{octets, ecdsa, Jwk, Jose, Fresh}
use runkube.Jwks.Laws.{IsJose}

pub record Entry : Type 0 where
  pub is_octets : Bool
  pub octets : List ℕ
  pub number : ℕ
  pub use_for : String
  pub algorithm : String
  pub key_id : String

pub data Blob : Type 0 where
  nothing : Blob
  pem : String → Blob → Blob
  key : ℕ → Blob
  der : String → List String → ℤ → ℤ → List ExtKeyUsage → Blob
  csr : CertificateRequest ℕ → Blob
  set : List Entry → Blob
  text : String → Blob

abbrev decode_pem : Blob → Option (String × Blob)
decode_pem (pem kind b) = some (kind, b)
decode_pem _ = none

abbrev parse_der : Blob → Option (Certificate Blob)
parse_der (der cn o from to usages) = some record {
  serial = 0;
  cn = cn;
  o = o;
  not_before = from;
  not_after = to;
  is_ca = false;
  key_usage = digital_signature ∷ [];
  ext_key_usage = usages;
  dns_names = [];
  ip_addresses = [];
  raw = der cn o from to usages;
}
parse_der _ = none

abbrev parse_private : Blob → Option ℕ
parse_private (key n) = some n
parse_private _ = none

abbrev parse_csr : Blob → Option (CertificateRequest ℕ)
parse_csr (csr r) = some r
parse_csr _ = none

abbrev pub toy : Crypto
toy = record {
  Bytes = Blob;
  empty = nothing;
  Key = ℕ;
  Public = ℕ;
  pem_decode = decode_pem;
  pem_encode = pem;
  parse_certificate = parse_der;
  parse_key = parse_private;
  marshal_key = λ k. some (key k);
  public = λ k. k + 1000;
  create_certificate =
      λ t parent public signer draw. some (der t.cn t.o t.not_before t.not_after t.ext_key_usage);
  create_request = λ r k draw. some (csr (record r { public_key = some (k + 1000) }));
  parse_request = parse_csr;
  check_signature = λ r. true;
}

raw_parse_toy : (b : Blob) (c : Certificate Blob) → parse_der b ≡ some c → c.raw ≡ b
raw_parse_toy (der cn o from to usages) c e = ground arith
raw_parse_toy nothing c e = absurd (cc)
raw_parse_toy (pem kind b) c e = absurd (cc)
raw_parse_toy (key k) c e = absurd (cc)
raw_parse_toy (csr r) c e = absurd (cc)
raw_parse_toy (set es) c e = absurd (cc)
raw_parse_toy (text t) c e = absurd (cc)

pub toy-IsCrypto : IsCrypto toy
toy-IsCrypto = record {
  decode_encode = λ kind b. refl;
  parse_marshal = λ k b e. ap parse_private (sym (some-injective _ _ e));
  raw_parse = raw_parse_toy;
}

-- A day, and a clock that stands still.
abbrev pub day : ℕ
day = 86_400_000_000_000

abbrev pub chance : Chance toy
chance = record {
  read_at = pos 0;
  not_before = pos 0;
  end_from = pos 0;
  new_key = some 7;
  serial = some 1;
  draw = 0;
}

abbrev to_entry : Jwk toy → Entry
to_entry k = elim k.key [
  | octets kb ↦ record {
    is_octets = true;
    octets = kb;
    number = 0;
    use_for = k.use_for;
    algorithm = k.algorithm;
    key_id = k.key_id;
  }
  | ecdsa n ↦ record {
    is_octets = false;
    octets = [];
    number = n;
    use_for = k.use_for;
    algorithm = k.algorithm;
    key_id = k.key_id;
  }
]

abbrev from_entry : Entry → Jwk toy
from_entry e = record {
  key = if e.is_octets then octets e.octets else ecdsa e.number;
  use_for = e.use_for;
  algorithm = e.algorithm;
  key_id = e.key_id;
}

entry_lem : (k : Jwk toy) → from_entry (to_entry k) ≡ k
entry_lem k = ground arith

entries : List (Jwk toy) → List Entry
entries [] = []
entries (k ∷ ks) = to_entry k ∷ entries ks

jwks_of : List Entry → List (Jwk toy)
jwks_of [] = []
jwks_of (e ∷ es) = from_entry e ∷ jwks_of es

jwks_of-entries : (ks : List (Jwk toy)) → jwks_of (entries ks) ≡ ks
unfolding entries jwks_of
jwks_of-entries [] = refl
jwks_of-entries (k ∷ ks) = ground (arith, entry_lem k, jwks_of-entries ks)

decode_set : Blob → List (Jwk toy) × Bool
decode_set (set es) = (jwks_of es, true)
decode_set _ = ([], false)

unfoldable pub jose : Jose toy
unfolding entries decode_set jwks_of
jose = record {
  encode = λ ks. some (set (entries ks));
  decode = decode_set;
  overwrite = λ new old. new;
}

pub jose-IsJose : IsJose toy jose
unfolding jose
jose-IsJose = record {
  decode_encode = λ keys b e. ap decode_set (sym (some-injective _ _ e)) ∙ pair_true keys;
}
  where
    pair_true : (keys : List (Jwk toy)) → decode_set (set (entries keys)) ≡ (keys, true)
    pair_true keys = ap (λ (ks : List (Jwk toy)). (ks, true)) (jwks_of-entries keys)

abbrev pub fresh : Fresh toy
fresh = record { octets = some (1 ∷ 2 ∷ []); key = some 9 }
