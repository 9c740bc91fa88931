-- ===== src/Flags.antt =====
-- pkg/config/config.go: the settings of a control plane, from the flags to `Validate`. The packages
-- pflag, net/netip and crypto/sha256 and the environment are the parameter `Platform`.
use Prim.Native.Char.{Char, code}
use runkube.Common.{
  ℕ, ◌+◌, ◌≡◌, suc, zero, String, Bool, true, false, not, ◌&&◌, ◌||◌, Option, none, some, List, [],
  ◌∷◌, ◌++◌, ◌==◌, eqb, leb, if◌then◌else◌, concat, join_path, length, take, drop,
}
use runkube.ControlPlane.{Prefix, Config}
pub mod Laws

-- The variables that the flags are read into.
pub record Flags : Type 0 where
  pub name : String
  pub root : String
  pub external_hostname : String
  pub service_address_range : String
  pub nodes : List String

abbrev pub default_flags : Flags
default_flags = record {
  name = "default";
  root = "";
  external_hostname = "";
  service_address_range = "";
  nodes = "node-a" ∷ [];
}

-- `parse_flags` gives the flags and the arguments that are none, or ends the program; `home` is the
-- answer of `UserHomeDir`, empty where there is none; `prefix_from` takes the bytes of an address and
-- the number of bits.
pub record Platform : Type 0 where
  pub parse_flags : List String → Option (Flags × List String)
  pub state_home : String
  pub home : String
  pub sha256 : String → List ℕ
  pub prefix_from : List ℕ → ℕ → Prefix
  pub parse_prefix : String → Option Prefix
  pub is_valid : Prefix → Bool

-- `[a-z]`, `[a-z0-9]` and `[a-z0-9-]`.
unfoldable pub is_lower : Char → Bool
is_lower c = leb 97 (code c) && leb (code c) 122

unfoldable pub is_alnum : Char → Bool
unfolding is_lower
is_alnum c = is_lower c || (leb 48 (code c) && leb (code c) 57)

unfoldable pub is_label_char : Char → Bool
unfolding is_alnum
is_label_char c = is_alnum c || eqb (code c) 45

-- `[a-z0-9-]{0,n}[a-z0-9]$`
unfoldable pub matches_rest : ℕ → String → Bool
unfolding is_label_char
matches_rest n String.[] = false
matches_rest n (String.◌∷◌ c String.[]) = is_alnum c
matches_rest zero (String.◌∷◌ c (String.◌∷◌ c' s)) = false
matches_rest (suc n) (String.◌∷◌ c (String.◌∷◌ c' s)) =
    is_label_char c && matches_rest n (String.◌∷◌ c' s)

-- `dnsLabelRegexp`
unfoldable pub matches_dns_label : String → Bool
unfolding matches_rest is_lower
matches_dns_label String.[] = false
matches_dns_label (String.◌∷◌ c String.[]) = is_lower c
matches_dns_label (String.◌∷◌ c (String.◌∷◌ c' s)) = is_lower c && matches_rest 61 (String.◌∷◌ c' s)

-- `copy(dst[at:…], src)`, where the bytes of `src` fit.
unfoldable pub copy_at : ℕ → List ℕ → List ℕ → List ℕ
copy_at at src dst = take at dst ++ src ++ drop (at + length src) dst

zeros : ℕ → List ℕ
zeros zero = []
zeros (suc n) = 0 ∷ zeros n

-- The bytes of `addr`.
unfoldable pub ula_bytes : List ℕ → List ℕ
unfolding copy_at zeros
ula_bytes hash =
    copy_at 6 (take 2 (drop 5 hash)) (copy_at 1 (take 5 hash) (copy_at 0 (0xfd ∷ []) (zeros 16)))

module _ (platform : Platform) where
  unfoldable pub generate_ula : String → Prefix
  unfolding ula_bytes
  generate_ula seed = platform.prefix_from (ula_bytes (platform.sha256 seed)) 64

  unfoldable pub default_root : String → String
  unfolding join_path
  default_root name =
      let state_home =
        if platform.state_home == ""
        then join_path (platform.home ∷ ".local" ∷ "state" ∷ [])
        else platform.state_home in
      join_path (state_home ∷ "runkube" ∷ name ∷ [])

  -- The settings with the defaults that `Validate` puts in.
  unfoldable pub with_defaults : Config → Config
  unfolding default_root
  with_defaults c = record c {
    root = if c.root == "" then default_root c.name else c.root;
    external_hostname =
        if c.external_hostname == ""
        then concat (c.name ∷ ".runkube.local" ∷ [])
        else c.external_hostname;
  }

  -- `Validate`: its error, and the settings as they are after it.
  unfoldable pub validate : Config → Option String × Config
  unfolding matches_dns_label with_defaults
  validate c =
      if not (matches_dns_label c.name)
      then (some "invalid name", c)
      else if not (platform.is_valid c.service_address_range)
      then (some "invalid service-address-range", with_defaults c)
      else (none, with_defaults c)

  unfoldable pub range_of : Flags → Option Prefix
  unfolding generate_ula
  range_of f =
      if f.service_address_range == ""
      then some (generate_ula f.name)
      else platform.parse_prefix f.service_address_range

  abbrev pub settings_of : Flags → Prefix → Config
  settings_of f range = record {
    name = f.name;
    root = f.root;
    external_hostname = f.external_hostname;
    service_address_range = range;
    nodes = f.nodes;
  }

  unfoldable pub checked : List String → Option String × Config → Option (Config × List String)
  checked args (some e, c) = none
  checked args (none, c) = some (c, args)

  unfoldable pub with_range : Flags → List String → Option Prefix → Option (Config × List String)
  unfolding validate checked
  with_range f args none = none
  with_range f args (some range) = checked args (validate (settings_of f range))

  unfoldable pub parse_with : Option (Flags × List String) → Option (Config × List String)
  unfolding range_of with_range
  parse_with none = none
  parse_with (some (f, args)) = with_range f args (range_of f)

  -- `Parse`, for the arguments behind the name of the program: the settings and the other arguments.
  -- `none`: the program ends with an error.
  unfoldable pub parse : List String → Option (Config × List String)
  unfolding parse_with
  parse args = parse_with (platform.parse_flags args)
