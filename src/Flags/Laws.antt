-- ===== src/Flags/Laws.antt =====
-- pkg/config/config.go: names that pass, the addresses, and the settings that `Parse` gives.
use Prim.Native.Char.{Char, code}
use runkube.Common.{
  ℕ, suc, zero, ◌≡◌, ◌≢◌, refl, ap, sym, ◌∙◌, subst, String, Bool, true, false, not, ◌&&◌, Option,
  none, some, List, [], ◌∷◌, ◌==◌, eqb, leb, if◌then◌else◌, concat, join_path, join_path-ne-empty,
  ==_of_ne, here, there, Bool-cases, Option-cases, arith, eq_iff, inl, inr,
}
use text.Mathlib.TextLemmas.{append-eq-nil_iff}
use runkube.ControlPlane.{Config}
use runkube.Flags.{
  Flags, Platform, is_lower, is_alnum, is_label_char, matches_rest, matches_dns_label, copy_at,
  ula_bytes, default_root, with_defaults, validate, range_of, checked, with_range, parse_with,
  parse, settings_of,
}

-- The number of characters.
unfoldable pub size : String → ℕ
size String.[] = 0
size (String.◌∷◌ c s) = suc (size s)

unfoldable pub all_label : String → Bool
unfolding is_label_char
all_label String.[] = true
all_label (String.◌∷◌ c s) = is_label_char c && all_label s

unfoldable pub ends_hyphen : String → Bool
ends_hyphen String.[] = false
ends_hyphen (String.◌∷◌ c String.[]) = eqb (code c) 45
ends_hyphen (String.◌∷◌ c (String.◌∷◌ c' s)) = ends_hyphen (String.◌∷◌ c' s)

unfoldable pub starts_lower : String → Bool
unfolding is_lower
starts_lower String.[] = false
starts_lower (String.◌∷◌ c s) = is_lower c

hyphen_or_alnum : (c : Char) → is_alnum c ≡ (is_label_char c && not (eqb (code c) 45))
unfolding is_alnum is_label_char is_lower
hyphen_or_alnum c = ground arith

matches_rest_eq :
    (n : ℕ) (c : Char) (s : String)
    → matches_rest n (String.◌∷◌ c s)
      ≡ (all_label (String.◌∷◌ c s) && not (ends_hyphen (String.◌∷◌ c s)) && leb (size s) n)
unfolding matches_rest all_label ends_hyphen size
matches_rest_eq n c String.[] = ground (arith, hyphen_or_alnum c)
matches_rest_eq zero c (String.◌∷◌ c' s) = ground arith
matches_rest_eq (suc n) c (String.◌∷◌ c' s) = ground (arith, matches_rest_eq n c' s)

lower_label : (c : Char) → is_lower c ≡ true → (is_label_char c ≡ true) × (eqb (code c) 45 ≡ false)
unfolding is_label_char is_alnum is_lower
lower_label c h = (ground arith, ground arith)

-- The names that `Validate` takes: at most 63 characters out of a-z, 0-9 and the hyphen, a letter first
-- and no hyphen last.
pub matches_dns_label_eq :
    (s : String)
    → matches_dns_label s
      ≡ (starts_lower s && all_label s && not (ends_hyphen s) && leb (size s) 63)
unfolding matches_dns_label all_label ends_hyphen size starts_lower
matches_dns_label_eq String.[] = refl
matches_dns_label_eq (String.◌∷◌ c String.[]) = elim (Bool-cases (is_lower c)) [
  | inl low ↦ ground (arith, lower_label c low)
  | inr other ↦ ground arith
]
matches_dns_label_eq (String.◌∷◌ c (String.◌∷◌ c' s)) = elim (Bool-cases (is_lower c)) [
  | inl low ↦ ground (arith, lower_label c low, matches_rest_eq 61 c' s)
  | inr other ↦ ground arith
]

module _ (platform : Platform) where
  default_root-ne-empty : (name : String) → default_root platform name ≢ ""
  unfolding default_root
  default_root-ne-empty name =
      join_path-ne-empty "runkube"
        ((if platform.state_home == ""
            then join_path (platform.home ∷ ".local" ∷ "state" ∷ [])
            else platform.state_home)
          ∷ "runkube"
          ∷ name
          ∷ [])
        named (there (here refl))
    where
      named : ◌≢◌ {A = String} "runkube" ""
      named e = ground (arith, eq_iff "runkube" "")

  kept : (given fallback : String) → fallback ≢ "" → (if given == "" then fallback else given) ≢ ""
  kept given fallback ne = elim (Bool-cases (given == "")) [
    | inl empty ↦ rw empty ne
    | inr full ↦ rw full (ground (arith, eq_iff given ""))
  ]

  pub with_defaults-root : (c : Config) → (with_defaults platform c).root ≢ ""
  unfolding with_defaults
  with_defaults-root c = kept c.root (default_root platform c.name) (default_root-ne-empty c.name)

  pub with_defaults-external_hostname :
      (c : Config) → (with_defaults platform c).external_hostname ≢ ""
  unfolding with_defaults concat
  with_defaults-external_hostname c =
      kept c.external_hostname (concat (c.name ∷ ".runkube.local" ∷ [])) (λ e.
        suffix
          ((append-eq-nil_iff {p = ".runkube.local"} {q = ""}).0
            ((append-eq-nil_iff {p = c.name} {q = concat (".runkube.local" ∷ [])}).0 e).1).0)
    where
      suffix : ◌≢◌ {A = String} ".runkube.local" ""
      suffix e = ground (arith, eq_iff ".runkube.local" "")

  -- Settings with a root and a host name keep them.
  with_defaults_same :
      (c : Config) → c.root ≢ "" → c.external_hostname ≢ "" → with_defaults platform c ≡ c
  unfolding with_defaults
  with_defaults_same c root host =
      rw (==_of_ne c.root "" root, ==_of_ne c.external_hostname "" host) refl

  -- Settings that `Validate` can be run on again without a change.
  abbrev pub IsValid : Config → Type 0
  IsValid c =
      (matches_dns_label c.name ≡ true)
      × (platform.is_valid c.service_address_range ≡ true)
      × (c.root ≢ "")
      × (c.external_hostname ≢ "")

  validate_some :
      (c c' : Config)
      → validate platform c ≡ (none, c')
      → IsValid c' × (c' ≡ with_defaults platform c)
  unfolding validate
  validate_some c c' e = elim (Bool-cases (matches_dns_label c.name)) [
    | inr bad ↦ absurd (ground arith)
    | inl good ↦ elim (Bool-cases (platform.is_valid c.service_address_range)) [
      | inr bad ↦ absurd (ground arith)
      | inl valid ↦
          let same : with_defaults platform c ≡ c' = ground arith in
          (
            subst IsValid same
                (good, valid, with_defaults-root c, with_defaults-external_hostname c),
            sym same,
          )
    ]
  ]

  pub validate_named :
      (c : Config)
      → matches_dns_label c.name ≡ true
      → platform.is_valid c.service_address_range ≡ true
      → validate platform c ≡ (none, with_defaults platform c)
  unfolding validate
  validate_named c name range = rw (name, range) refl

  validate_valid : (c : Config) → IsValid c → validate platform c ≡ (none, c)
  unfolding validate
  validate_valid c (name, range, root, host) =
      rw (name, range) (ap (λ (d : Config). (none, d)) (with_defaults_same c root host))

  checked-result :
      (args rest : List String) (r : Option String × Config) (c : Config)
      → checked platform args r ≡ some (c, rest)
      → (r ≡ (none, c)) × (rest ≡ args)
  unfolding checked
  checked-result args rest (some e, d) c h = absurd (ground arith)
  checked-result args rest (none, d) c h = (ground arith, ground arith)

  parse_with-result :
      (f : Flags) (args rest : List String) (c : Config)
      → parse_with platform (some (f, args)) ≡ some (c, rest)
      → (rest ≡ args) × IsValid c × (c.name ≡ f.name) × (c.nodes ≡ f.nodes)
  unfolding parse_with with_range with_defaults
  parse_with-result f args rest c e = elim (Option-cases (range_of platform f)) [
    | inl no_range ↦ absurd (ground arith)
    | inr (range, is_range) ↦
        let given = settings_of platform f range in
        let (validated, same) =
          checked-result args rest (validate platform given) c (ground arith) in
        let (valid, result) = validate_some given c validated in
        (same, valid, ap (λ (d : Config). d.name) result, ap (λ (d : Config). d.nodes) result)
  ]

  -- The settings that `Parse` gives: the name and the nodes of the flags, a name that is a label, an
  -- address range that is valid, a root and a host name; and `Validate` leaves them as they are.
  pub parse_lem :
      (args rest : List String) (c : Config)
      → parse platform args ≡ some (c, rest)
      → (f : Flags) × (platform.parse_flags args ≡ some (f, rest))
        × (c.name ≡ f.name)
        × (c.nodes ≡ f.nodes)
        × IsValid c
        × (validate platform c ≡ (none, c))
  unfolding parse parse_with
  parse_lem args rest c e = elim (Option-cases (platform.parse_flags args)) [
    | inl ended ↦ absurd (nothing (sym (ap (parse_with platform) ended) ∙ e))
    | inr ((f, args'), is_parsed) ↦
        let (same, valid, name, nodes) =
          parse_with-result f args' rest c (sym (ap (parse_with platform) is_parsed) ∙ e) in
        (f, ground (arith, same), name, nodes, valid, validate_valid c valid)
  ]
    where
      nothing : parse_with platform none ≡ some (c, rest) → ⊥
      nothing h = ground arith

-- The address that is made of a hash: fd, seven bytes of the hash, and zeros.
pub ula_bytes_lem :
    (a b c d e f g : ℕ) (rest : List ℕ)
    → ula_bytes (a ∷ b ∷ c ∷ d ∷ e ∷ f ∷ g ∷ rest)
      ≡ 0xfd ∷ a ∷ b ∷ c ∷ d ∷ e ∷ f ∷ g ∷ 0 ∷ 0 ∷ 0 ∷ 0 ∷ 0 ∷ 0 ∷ 0 ∷ 0 ∷ []
unfolding ula_bytes copy_at
ula_bytes_lem a b c d e f g rest = refl
