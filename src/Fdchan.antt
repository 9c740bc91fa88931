-- ===== src/Fdchan.antt =====
-- pkg/sandbox/fdchan/fdchan.go: messages with named file descriptors.
use runkube.Common.{
  ℕ, zero, suc, ◌≡◌, String, Bool, true, false, ◌||◌, Option, none, some, List, [], ◌∷◌, ◌++◌,
  length, get_elem?, ◌==◌, if◌then◌else◌,
}
pub mod Descriptors
pub mod Wire
pub mod Mux
pub mod Tests

pub record Annotation : Type 0 where
  pub id : String
  pub purpose : String

-- `Data` is a list of bytes.
pub record Payload : Type 0 where
  pub sequence : ℕ
  pub is_response : Bool
  pub annotations : List Annotation
  pub bytes : List ℕ

-- An `*os.File` is the number of the open file behind it.
pub record Message : Type 0 where
  pub bytes : List ℕ
  pub files : List ℕ
  pub annotations : List Annotation
  pub seq : ℕ

-- The errors of the package, one for each text.
pub data Fault : Type 0 where
  nil_file empty_id already_registered integrity_violation not_found : Fault
  mismatched_count marshal_failed write_failed read_failed incomplete_header bad_control : Fault
  unmarshal_failed : Fault

pub data Outcome {ℓ} (A : Type ℓ) : Type ℓ where
  ok : A → Outcome A
  err : Fault → Outcome A

infixl 5 ◌>>=◌
abbrev pub ◌>>=◌ {ℓ κ} : {A : Type ℓ} {B : Type κ} → Outcome A → (A → Outcome B) → Outcome B
ok a >>= k = k a
err e >>= k = err e

-- The reading of a fallible call of another package.
abbrev pub checked {ℓ} : {A : Type ℓ} → Option A → Fault → Outcome A
checked none e = err e
checked (some a) e = ok a

unfoldable pub is_registered : String → List Annotation → Bool
is_registered id [] = false
is_registered id (annot ∷ rest) = annot.id == id || is_registered id rest

unfoldable pub add_descriptor : Option ℕ → String → String → Message → Outcome Message
unfolding is_registered
add_descriptor none id purpose m = err nil_file
add_descriptor (some fd) id purpose m =
    if id == ""
    then err empty_id
    else if is_registered id m.annotations
    then err already_registered
    else ok (record m {
      files = m.files ++ fd ∷ [];
      annotations = m.annotations ++ record { id = id; purpose = purpose } ∷ [];
    })

-- The loop of `GetDescriptor`; `i` is the index of the first annotation that is left.
unfoldable pub find_descriptor : String → ℕ → List Annotation → List ℕ → Outcome (ℕ × String)
find_descriptor id i [] files = err not_found
find_descriptor id i (annot ∷ rest) files =
    let later : Outcome (ℕ × String) = find_descriptor id (suc i) rest files in
    if annot.id == id
    then elim (get_elem? files i) [
      | none ↦ err integrity_violation
      | some file ↦ ok (file, annot.purpose)
    ]
    else later

unfoldable pub get_descriptor : String → Message → Outcome (ℕ × String)
unfolding find_descriptor
get_descriptor id m = find_descriptor id 0 m.annotations m.files
