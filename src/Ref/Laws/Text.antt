-- ===== src/Ref/Laws/Text.antt =====
-- pkg/ref/ref.go: the text that `Config.Write` makes of its argument.
use Prim.Native.Char.{code}
use Prim.Native.String.{◌++◌ as append}
use text.Mathlib.TextLemmas.{nil-append, cons-append}
use runkube.Common.{
  ◌≡◌, ◌∙◌, refl, sym, ap, String, Bool, true, false, ◌||◌, none, some, arith, Bool-cases, inl, inr,
  eqb, eq_iff, if◌then◌else◌, lookup-insert, eq_refl,
}
use runkube.Disk.{Disk, read_file, write_file}
use runkube.Ref.{is_space, trim_left, trim_right, replace_tabs, ends_line, normalise, write_config}

-- The text without its white space.
unfoldable pub visible : String → String
visible String.[] = ""
visible (String.◌∷◌ c s) =
    let rest = visible s in if is_space (code c) then rest else String.◌∷◌ c rest

unfoldable pub has_tab : String → Bool
has_tab String.[] = false
has_tab (String.◌∷◌ c s) = eqb (code c) 9 || has_tab s

visible-trim_left : (s : String) → visible (trim_left s) ≡ visible s
unfolding visible trim_left
visible-trim_left String.[] = refl
visible-trim_left (String.◌∷◌ c s) = elim (Bool-cases (is_space (code c))) [
  | inl space ↦ rw space (visible-trim_left s)
  | inr solid ↦ rw (solid, visible, solid)
]

visible-trim_right : (s : String) → visible (trim_right s) ≡ visible s
unfolding visible trim_right
visible-trim_right String.[] = refl
visible-trim_right (String.◌∷◌ c s) = ground (arith, visible-trim_right s, eq_iff (trim_right s) "")

has_tab-append : (s t : String) → has_tab (append s t) ≡ (has_tab s || has_tab t)
unfolding has_tab
has_tab-append String.[] t = ap has_tab (nil-append t)
has_tab-append (String.◌∷◌ c s) t =
    ground (arith, ap has_tab (cons-append c s t), has_tab-append s t)

-- A new line at the end.
visible-append_line : (s : String) → visible (append s "\n") ≡ visible s
unfolding visible is_space
visible-append_line String.[] = refl
visible-append_line (String.◌∷◌ c s) =
    ground (arith, ap visible (cons-append c s "\n"), visible-append_line s)

ends_line-append : (s : String) → ends_line (append s "\n") ≡ true
unfolding ends_line
ends_line-append String.[] = refl
ends_line-append (String.◌∷◌ c String.[]) = ap ends_line (cons-append c "" "\n")
ends_line-append (String.◌∷◌ c (String.◌∷◌ c' s)) =
    ap ends_line (cons-append c (String.◌∷◌ c' s) "\n" ∙ ap (String.◌∷◌ c) (cons-append c' s "\n"))
    ∙ ap ends_line (sym (cons-append c' s "\n"))
    ∙ ends_line-append (String.◌∷◌ c' s)

has_tab-replace_tabs : (s : String) → has_tab (replace_tabs s) ≡ false
unfolding has_tab replace_tabs
has_tab-replace_tabs String.[] = refl
has_tab-replace_tabs (String.◌∷◌ c s) = ground (arith, has_tab-replace_tabs s)

visible-replace_tabs : (s : String) → visible (replace_tabs s) ≡ visible s
unfolding visible replace_tabs is_space
visible-replace_tabs String.[] = refl
visible-replace_tabs (String.◌∷◌ c s) = ground (arith, visible-replace_tabs s)

-- The text ends its last line, has no tabs, and differs from the argument in white space only.
normalise_lem :
    (text : String)
    → (ends_line (normalise text) ≡ true)
      × (has_tab (normalise text) ≡ false)
      × (visible (normalise text) ≡ visible text)
unfolding normalise has_tab
normalise_lem text =
    let m = replace_tabs (trim_right (trim_left text)) in
    ground (
      arith,
      ends_line-append m,
      has_tab-append m "\n",
      has_tab-replace_tabs (trim_right (trim_left text)),
      visible-append_line m,
      visible-replace_tabs (trim_right (trim_left text)),
      visible-trim_right (trim_left text),
      visible-trim_left text,
    )

-- What `Config.Write` leaves in the file when it returns no error: a text that ends its last line, has
-- no tabs, and differs from the argument in white space only. The file must be readable.
pub write_config_lem :
    {B : Type 0} (of_text : String → B) (path text : String) (d : Disk B)
    → (write_config of_text path text d).0 ≡ none
    → d.unreadable path ≡ false
    → (m : String) × (read_file path (write_config of_text path text d).1 ≡ some (of_text m))
      × (ends_line m ≡ true)
      × (has_tab m ≡ false)
      × (visible m ≡ visible text)
unfolding write_config write_file read_file
write_config_lem of_text path text d e open_p =
    let shape = normalise_lem text in
    (
      normalise text,
      ground (arith, lookup-insert path path (of_text (normalise text)) d.files, eq_refl path),
      shape.0,
      shape.1,
      shape.2,
    )
