-- ===== src/Controller/Files.antt =====
-- internal/kubenotation/controller/files.go.
pub mod Temporary
pub mod Written
pub mod Atomic
use notation_aws_verifier.Prelude.{
  Str, codes, ◌==◌, ◌++◌, Bool, true, false, ◌||◌, Option, none, some, [], ◌∷◌, if◌then◌else◌,
}
use notation_aws_verifier.Prelude.Exec.{Exec, pure, fail, attempt, ◌>>=◌}
use notation_aws_verifier.Prelude.Result.{Result, ok, err}
use notation_aws_verifier.Prelude.Text.Scan.{contains_any}
use notation_aws_verifier.Disk.{
  Os, Machine, System, read_file, create_temp, write_file, touch, rename, remove,
}

abbrev pub separators : Str
separators = codes "/\\"

module _ (os : Os) where
  unfoldable pub validate_file_name : Str → Result (Unit {0})
  validate_file_name name =
      if name == [] || name == codes "." || name == codes ".." || contains_any name separators
      then err (
          codes "invalid name "
          ++ (os.quote name ++ codes ": must be a single, non-empty path element"))
      else ok tt

  abbrev pub answer_with : {A : Type 0} → Result A → System os A
  answer_with (ok a) = pure a
  answer_with (err e) = fail e

  -- `_ = tmp.Close()` behind an error.
  unfoldable pub or_close : System os (Unit {0}) → System os (Unit {0})
  or_close m = do
    r ← attempt m
    elim r [ ok u ↦ pure tt | err e ↦ (do closed ← attempt (touch os); fail e) ]

  -- What is done with the temporary file before it is removed.
  unfoldable pub fill_and_rename : Str → Str → Str → System os Bool
  unfolding or_close
  fill_and_rename tmp path text = do
    written ← or_close (write_file os tmp text)
    changed ← or_close (touch os)
    closed ← touch os
    renamed ← rename os tmp path
    pure true

  unfoldable pub replace_file : Str → Str → Str → System os Bool
  unfolding fill_and_rename
  replace_file path tmp_dir text = do
    tmp ← create_temp os tmp_dir
    r ← attempt (fill_and_rename tmp path text)
    removed ← attempt (remove os tmp)
    answer_with r

  -- Behind the reading of the file that is there.
  unfoldable pub compare_file : Str → Str → Str → Result Str → System os Bool
  unfolding replace_file
  compare_file path tmp_dir text (ok current) =
      if current == text then pure false else replace_file path tmp_dir text
  compare_file path tmp_dir text (err e) =
      if os.is_not_exist e then replace_file path tmp_dir text else fail e

  unfoldable pub write_file_if_changed : Str → Str → Str → System os Bool
  unfolding compare_file
  write_file_if_changed path tmp_dir text = do
    current ← attempt (read_file os path)
    compare_file path tmp_dir text current

  abbrev pub fill_slot : Option Bool → Option Bool
  fill_slot none = none
  fill_slot (some waiting) = some true

  -- A send that does not block: it has no effect on `nil`, nor when a notification waits.
  unfoldable pub notify : System os (Unit {0})
  notify w = (ok tt, record w { channel = fill_slot w.channel })
