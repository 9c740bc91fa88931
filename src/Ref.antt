-- ===== src/Ref.antt =====
-- pkg/ref/ref.go: configuration files and kubeconfigs.
use Prim.Native.Char.{Char, code}
use runkube.Common.{
  ℕ, String, Bool, true, false, Option, none, some, List, [], ◌∷◌, ◌&&◌, ◌||◌, ◌==◌, eqb, leb,
  if◌then◌else◌, concat, lookup,
}
use Prim.Native.String.{◌++◌ as append}
use runkube.Disk.{Disk, write_file}
pub mod Laws
pub mod Tests

-- `unicode.IsSpace`
unfoldable pub is_space : ℕ → Bool
is_space c =
    (leb 9 c && leb c 13)
    || eqb c 32
    || eqb c 133
    || eqb c 160
    || eqb c 5760
    || (leb 8192 c && leb c 8202)
    || eqb c 8232
    || eqb c 8233
    || eqb c 8239
    || eqb c 8287
    || eqb c 12288

-- `strings.TrimSpace`: from the left, and from the right.
unfoldable pub trim_left : String → String
trim_left String.[] = ""
trim_left (String.◌∷◌ c s) =
    let rest = trim_left s in if is_space (code c) then rest else String.◌∷◌ c s

unfoldable pub trim_right : String → String
trim_right String.[] = ""
trim_right (String.◌∷◌ c s) =
    let rest = trim_right s in if rest == "" && is_space (code c) then "" else String.◌∷◌ c rest

-- `strings.ReplaceAll(m, "\t", "  ")`
unfoldable pub replace_tabs : String → String
replace_tabs String.[] = ""
replace_tabs (String.◌∷◌ c s) =
    let rest = replace_tabs s in
    if eqb (code c) 9 then String.◌∷◌ " " (String.◌∷◌ " " rest) else String.◌∷◌ c rest

-- `strings.HasSuffix(m, "\n")`
unfoldable pub ends_line : String → Bool
ends_line String.[] = false
ends_line (String.◌∷◌ c String.[]) = eqb (code c) 10
ends_line (String.◌∷◌ c (String.◌∷◌ c' s)) = ends_line (String.◌∷◌ c' s)

-- What both `Write`s make of the text.
unfoldable pub normalise : String → String
unfolding trim_left trim_right replace_tabs ends_line
normalise text =
    let m = replace_tabs (trim_right (trim_left text)) in if ends_line m then m else append m "\n"

-- An error of the system.
pub data WriteError : Type 0 where
  mkdir encode open_file : WriteError

-- `Config.WriteObject`, by the encoding of the object.
unfoldable pub write_object :
    {B V : Type 0} (encode_json : V → Option B) → String → V → Disk B → Option WriteError × Disk B
write_object encode_json path o d = elim (encode_json o) [
  | none ↦ (if d.unmakeable path then some mkdir else some encode, d)
  | some b ↦
      let (good, d') = write_file path b d in
      if d.unmakeable path
      then (some mkdir, d)
      else if good
      then (none, d')
      else (some open_file, d')
]

module _ {B : Type 0} (of_text : String → B) where
  put : String → String → Disk B → Option WriteError × Disk B
  put path text d =
      let (good, d') = write_file path (of_text text) d in
      if d.unmakeable path
      then (some mkdir, d)
      else if good
      then (none, d')
      else (some open_file, d')

  -- `KubeConfig.Write` normalises the text, and writes what it was given.
  unfoldable pub write_kube_config : String → String → Disk B → Option WriteError × Disk B
  unfolding put
  write_kube_config path text d = put path text d

  -- `Config.Write`
  unfoldable pub write_config : String → String → Disk B → Option WriteError × Disk B
  unfolding put
  write_config path text d = put path (normalise text) d
