-- ===== src/Ref/Laws/Stored.antt =====
-- pkg/ref/ref.go: the calls that write lose no file, and without an error their own file is there.
use runkube.Common.{◌≡◌, String, Option, none, arith, Option-cases, inl, inr}
use runkube.Disk.{Disk, HasFile}
use runkube.Disk.Laws.{write_file-HasFile, write_file-HasFile_other}
use runkube.Ref.{normalise, write_kube_config, write_config, write_object}

module _ {B : Type 0} (of_text : String → B) (path text : String) (d : Disk B) where
  pub write_kube_config-HasFile_other :
      (q : String) → HasFile d q → HasFile (write_kube_config of_text path text d).1 q
  unfolding write_kube_config
  write_kube_config-HasFile_other q h =
      ground (arith, write_file-HasFile_other path q (of_text text) d h)

  pub write_kube_config-HasFile :
      (write_kube_config of_text path text d).0 ≡ none
      → HasFile (write_kube_config of_text path text d).1 path
  unfolding write_kube_config
  write_kube_config-HasFile e = ground (arith, write_file-HasFile path (of_text text) d)

  pub write_config-HasFile_other :
      (q : String) → HasFile d q → HasFile (write_config of_text path text d).1 q
  unfolding write_config
  write_config-HasFile_other q h =
      ground (arith, write_file-HasFile_other path q (of_text (normalise text)) d h)

  pub write_config-HasFile :
      (write_config of_text path text d).0 ≡ none
      → HasFile (write_config of_text path text d).1 path
  unfolding write_config
  write_config-HasFile e = ground (arith, write_file-HasFile path (of_text (normalise text)) d)

pub write_object-HasFile_other :
    {B V : Type 0} (encode_json : V → Option B) (path : String) (o : V) (d : Disk B) (q : String)
    → HasFile d q
    → HasFile (write_object encode_json path o d).1 q
unfolding write_object
write_object-HasFile_other encode_json path o d q h = elim (Option-cases (encode_json o)) [
  | inl fails ↦ ground arith
  | inr (b, is_b) ↦ ground (arith, write_file-HasFile_other path q b d h)
]
