-- ===== src/Ref/Tests.antt =====
-- Runs of pkg/ref/ref.go.
use runkube.Common.{◌≡◌, refl, String, true, false, none, some, []}
use runkube.Disk.{Disk, read_file, write_file}
use runkube.Ref.{normalise, is_space, ends_line, write_config}
use runkube.Ref.Laws.Text.{visible, has_tab, write_config_lem}

abbrev disk : Disk String
disk = record {
  files = [];
  unreadable = λ _. false;
  unwritable = λ _. false;
  unmakeable = λ _. false;
}

normalised : normalise "\n a:\tb \n\n" ≡ "a:  b\n"
unfolding normalise is_space
normalised = refl

normalised_empty : normalise " \t" ≡ "\n"
unfolding normalise is_space
normalised_empty = refl

written : (write_config (λ t. t) "/c" "\n\ta" disk).0 ≡ none
unfolding write_config write_file
written = refl

write_config_lem_example :
    (m : String) × (read_file "/c" (write_config (λ t. t) "/c" "\n\ta" disk).1 ≡ some m)
    × (ends_line m ≡ true)
    × (has_tab m ≡ false)
    × (visible m ≡ visible "\n\ta")
write_config_lem_example = write_config_lem (λ t. t) "/c" "\n\ta" disk written refl
