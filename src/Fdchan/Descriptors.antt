-- ===== src/Fdchan/Descriptors.antt =====
-- `AddDescriptor` against `GetDescriptor` of pkg/sandbox/fdchan/fdchan.go.
use runkube.Common.{
  append-snoc, ℕ, suc, ◌≡◌, refl, ◌≢◌, ◌⊎◌, inl, inr, String, true, false, Option, none, some, List,
  [], ◌∷◌, ◌++◌, length, arith, eq_iff, get_elem?, ◌==◌, if◌then◌else◌, Bool-cases, length-append,
}
use runkube.Fdchan.{
  Annotation, Message, Outcome, ok, err, nil_file, empty_id, already_registered,
  integrity_violation, not_found, is_registered, add_descriptor, find_descriptor, get_descriptor,
}

-- As many files as annotations.
abbrev pub IsIntact : Message → Type 0
IsIntact m = length m.files ≡ length m.annotations

-- The file and the purpose that stand beside an identifier, with no index.
abbrev pub descriptor_of : String → List Annotation → List ℕ → Option (ℕ × String)
descriptor_of id (a ∷ ans) (f ∷ fs) =
    if a.id == id then some (f, a.purpose) else descriptor_of id ans fs
descriptor_of id _ _ = none

abbrev pub reported : Option (ℕ × String) → Outcome (ℕ × String)
reported none = err not_found
reported (some d) = ok d

reported_sound : (o : Option (ℕ × String)) → reported o ≢ err integrity_violation
reported_sound none h = cc
reported_sound (some d) h = cc

get_elem?-length :
    (front : List ℕ) (f : ℕ) (fs : List ℕ) → get_elem? (front ++ f ∷ fs) (length front) ≡ some f
get_elem?-length [] f fs = refl
get_elem?-length (g ∷ front) f fs = get_elem?-length front f fs

find_descriptor_lem :
    (id : String) (ans : List Annotation) (front fs : List ℕ)
    → length fs ≡ length ans
    → find_descriptor id (length front) ans (front ++ fs) ≡ reported (descriptor_of id ans fs)
unfolding find_descriptor
find_descriptor_lem id [] front fs e = elim fs [ [] ↦ refl | f ∷ rest ↦ refl ]
find_descriptor_lem id (a ∷ ans) front [] e = ground arith
find_descriptor_lem id (a ∷ ans) front (f ∷ fs) e =
    let later : find_descriptor id (suc (length front)) ans (front ++ f ∷ fs)
        ≡ reported (descriptor_of id ans fs) =
      ground (
        arith,
        find_descriptor_lem id ans (front ++ f ∷ []) fs (omega arith),
        append-snoc front f fs,
        length-append front (f ∷ []),
      ) in
    ground (arith, later, get_elem?-length front f fs)

pub get_descriptor-eq-descriptor_of :
    (id : String) (m : Message)
    → IsIntact m
    → get_descriptor id m ≡ reported (descriptor_of id m.annotations m.files)
unfolding get_descriptor
get_descriptor-eq-descriptor_of id m e = find_descriptor_lem id m.annotations [] m.files e

descriptor_of-append :
    (k id purpose : String) (fd : ℕ) (ans : List Annotation) (fs : List ℕ)
    → length fs ≡ length ans
    → is_registered id ans ≡ false
    → descriptor_of k (ans ++ record { id = id; purpose = purpose } ∷ []) (fs ++ fd ∷ [])
      ≡ (if id == k then some (fd, purpose) else descriptor_of k ans fs)
unfolding is_registered
descriptor_of-append k id purpose fd [] [] e new = refl
descriptor_of-append k id purpose fd [] (f ∷ fs) e new = ground arith
descriptor_of-append k id purpose fd (a ∷ ans) [] e new = ground arith
descriptor_of-append k id purpose fd (a ∷ ans) (f ∷ fs) e new = ground (
  arith,
  descriptor_of-append k id purpose fd ans fs (omega arith),
  eq_iff id k,
  eq_iff a.id k,
  eq_iff a.id id,
)

is_registered_lem :
    (id : String) (ans : List Annotation) (fs : List ℕ)
    → length fs ≡ length ans
    → is_registered id ans ≡ true
    → descriptor_of id ans fs ≢ none
unfolding is_registered
is_registered_lem id [] fs e h = λ n. ground arith
is_registered_lem id (a ∷ ans) [] e h = ground arith
is_registered_lem id (a ∷ ans) (f ∷ fs) e h =
    ground (arith, is_registered_lem id ans fs (omega arith))

-- What `AddDescriptor` of a file under an identifier that is not empty does to a message.
abbrev pub Addition : ℕ → String → String → Message → Outcome Message → Type 0
Addition fd id purpose m out =
    ((get_descriptor id m ≢ err not_found) × (out ≡ err already_registered))
    ⊎ ((m' : Message) × (get_descriptor id m ≡ err not_found)
        × (out ≡ ok m')
        × IsIntact m'
        × ((k : String)
            → get_descriptor k m' ≡ (if id == k then ok (fd, purpose) else get_descriptor k m))
        × (m'.bytes ≡ m.bytes)
        × (m'.seq ≡ m.seq))

-- The same for any arguments, a nil file among them.
abbrev pub AnyAddition : Option ℕ → String → String → Message → Outcome Message → Type 0
AnyAddition file id purpose m out =
    ((file ≡ none) × (out ≡ err nil_file))
    ⊎ ((file ≢ none) × (id ≡ "") × (out ≡ err empty_id))
    ⊎ ((fd : ℕ) × (file ≡ some fd) × (id ≢ "") × Addition fd id purpose m out)

added : ℕ → String → String → Message → Message
added fd id purpose m = record m {
  files = m.files ++ fd ∷ [];
  annotations = m.annotations ++ record { id = id; purpose = purpose } ∷ [];
}

added-IsIntact :
    (fd : ℕ) (id purpose : String) (m : Message) → IsIntact m → IsIntact (added fd id purpose m)
unfolding added
added-IsIntact fd id purpose m e = omega (
  arith,
  length-append m.files (fd ∷ []),
  length-append m.annotations (record { id = id; purpose = purpose } ∷ []),
)

get_descriptor-added :
    (k id purpose : String) (fd : ℕ) (m : Message)
    → IsIntact m
    → is_registered id m.annotations ≡ false
    → get_descriptor k (added fd id purpose m)
      ≡ (if id == k then ok (fd, purpose) else get_descriptor k m)
unfolding added
get_descriptor-added k id purpose fd m e new = ground (
  arith,
  get_descriptor-eq-descriptor_of k m e,
  get_descriptor-eq-descriptor_of k (added fd id purpose m) (added-IsIntact fd id purpose m e),
  descriptor_of-append k id purpose fd m.annotations m.files e new,
)

unregistered_lem :
    (id : String) (ans : List Annotation) (fs : List ℕ)
    → length fs ≡ length ans
    → is_registered id ans ≡ false
    → descriptor_of id ans fs ≡ none
unfolding is_registered
unregistered_lem id [] [] e h = refl
unregistered_lem id [] (f ∷ fs) e h = refl
unregistered_lem id (a ∷ ans) [] e h = ground arith
unregistered_lem id (a ∷ ans) (f ∷ fs) e h =
    ground (arith, unregistered_lem id ans fs (omega arith))

-- `AddDescriptor`, for a message with as many files as annotations, refuses a nil file, then the empty
-- identifier, then one that `GetDescriptor` already finds. Otherwise, and only then, `GetDescriptor`
-- finds the file and its purpose under the new identifier, and all others as before, in a message
-- that again has as many files as annotations. So `GetDescriptor` never meets the integrity
-- violation there.
pub add_descriptor_lem :
    (file : Option ℕ) (id purpose : String) (m : Message)
    → IsIntact m
    → AnyAddition file id purpose m (add_descriptor file id purpose m)
      × ((k : String) → get_descriptor k m ≢ err integrity_violation)
unfolding add_descriptor added
add_descriptor_lem file id purpose m e = (any file, safe)
  where
    safe : (k : String) → get_descriptor k m ≢ err integrity_violation
    safe k =
        rw (get_descriptor-eq-descriptor_of k m e)
          (reported_sound (descriptor_of k m.annotations m.files))

    go :
        (fd : ℕ)
        → (id == "") ≡ false
        → Addition fd id purpose m (add_descriptor (some fd) id purpose m)
    go fd named = elim (Bool-cases (is_registered id m.annotations)) [
      | inl there ↦ inl (
        (λ n. ground (
          arith,
          get_descriptor-eq-descriptor_of id m e,
          is_registered_lem id m.annotations m.files e there,
        )),
        ground arith,
      )
      | inr new ↦ inr (
        added fd id purpose m,
        ground (
          arith,
          get_descriptor-eq-descriptor_of id m e,
          unregistered_lem id m.annotations m.files e new,
        ),
        ground arith,
        added-IsIntact fd id purpose m e,
        (λ k. get_descriptor-added k id purpose fd m e new),
        refl,
        refl,
      )
    ]

    any : (file : Option ℕ) → AnyAddition file id purpose m (add_descriptor file id purpose m)
    any none = inl (refl, refl)
    any (some fd) = elim (Bool-cases (id == "")) [
      | inl h ↦ inr (inl ((λ n. cc), (eq_iff id "").0 h, ground arith))
      | inr h ↦ inr (inr (fd, refl, (λ n. ground (arith, eq_iff id "")), go fd h))
    ]
