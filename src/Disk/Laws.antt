-- ===== src/Disk/Laws.antt =====
-- Files stay where they are, and what is written is read back.
use runkube.Common.{
  ◌≡◌, String, true, some, lookup, insert, lookup-insert, ◌==◌, eq_iff, eq_refl, is_some,
  if◌then◌else◌, arith,
}
use runkube.Disk.{Disk, write_file, HasFile}

module _ {ℓ} {B : Type ℓ} where
  pub write_file-HasFile_other :
      (p q : String) (b : B) (d : Disk B) → HasFile d q → HasFile (write_file p b d).1 q
  unfolding write_file
  write_file-HasFile_other p q b d h = ground (arith, lookup-insert p q b d.files, eq_iff p q)

  pub write_file-HasFile :
      (p : String) (b : B) (d : Disk B)
      → (write_file p b d).0 ≡ true
      → HasFile (write_file p b d).1 p
  unfolding write_file
  write_file-HasFile p b d h = ground (arith, lookup-insert p p b d.files, eq_refl p)

  pub lookup-write_file :
      (p q : String) (b : B) (d : Disk B)
      → (write_file p b d).0 ≡ true
      → lookup q (write_file p b d).1.files ≡ (if p == q then some b else lookup q d.files)
  unfolding write_file
  lookup-write_file p q b d h = ground (arith, lookup-insert p q b d.files, eq_iff p q)

  pub HasFile-insert :
      (p q : String) (b : B) (d : Disk B)
      → HasFile d q
      → is_some (lookup q (insert p b d.files)) ≡ true
  HasFile-insert p q b d h = ground (arith, lookup-insert p q b d.files, eq_iff p q)
