-- ===== src/Controller/Files/Atomic.antt =====
-- `writeFileIfChanged`, run on a machine: all of the new text, or all of what was there.
use notation_aws_verifier.Prelude.{Str, Bool, true, false, some, ◌≡◌, refl, ap, arith}
use notation_aws_verifier.Prelude.Exec.Triple.{Triple, Triple-map, Triple-ok, Triple-err}
use notation_aws_verifier.Prelude.Map.{Map, lookup}
use notation_aws_verifier.Prelude.Result.{ok, err}
use notation_aws_verifier.Controller.Files.{write_file_if_changed}
use notation_aws_verifier.Controller.Files.Written.{Written, Failed, Does-write_file_if_changed}
use notation_aws_verifier.Disk.{Os, Machine}
use notation_aws_verifier.Disk.Frames.{Except, Except-refl, Except-lookup, OsLaws, IsTemp, At}
use notation_aws_verifier.Disk.Tree.{Node, file}

module _ (os : Os) (laws : OsLaws os) (path tmp_dir text : Str) (apart : ¬ IsTemp tmp_dir path)
    (w w' : Machine os) where
  run_lem :
      Triple
        (λ s. s ≡ w)
        (write_file_if_changed os path tmp_dir text)
        (λ b.
          At os w.channel w.sent
            (Written os laws w.channel w.sent path tmp_dir text apart w.files b))
        (λ _.
          At os w.channel w.sent (Failed os laws w.channel w.sent path tmp_dir text apart w.files))
  run_lem =
      Triple-map _
        (λ s e. record {
          files = ap (λ x. x.files) e;
          same_channel = ap (λ x. x.channel) e;
          same_sent = ap (λ x. x.sent) e;
        })
        (λ a s h. h) (λ e s h. h)
        (Does-write_file_if_changed os laws w.channel w.sent path tmp_dir text apart w.files)

  of_Written :
      (b : Bool) (f : Map Node)
      → Written os laws w.channel w.sent path tmp_dir text apart w.files b f
      → (lookup path f ≡ some (file text))
        × Except (λ q. q ≡ path) w.files f
        × (b ≡ false → (f ≡ w.files))
  of_Written true f (holds, same) = (holds, same, λ e. absurd (ground arith))
  of_Written false f (held, same) = (rw same held, rw same (Except-refl _ w.files), λ _. same)

  -- If `writeFileIfChanged` succeeds, the file at the path holds the text, every other path is as it
  -- was, the temporary file included, and where it reports no change the whole disk is as it was.
  pub write_file_if_changed-ok :
      (b : Bool)
      → write_file_if_changed os path tmp_dir text w ≡ (ok b, w')
      → (lookup path w'.files ≡ some (file text))
        × Except (λ q. q ≡ path) w.files w'.files
        × (b ≡ false → w'.files ≡ w.files)
  write_file_if_changed-ok b e = of_Written b w'.files (Triple-ok _ run_lem w w' b refl e).files

  -- If `writeFileIfChanged` fails, at whichever system call, then every path is as it was but those
  -- of temporary files: the file at the path is never left partly written.
  pub write_file_if_changed-error :
      (x : Str)
      → write_file_if_changed os path tmp_dir text w ≡ (err x, w')
      → Except (IsTemp tmp_dir) w.files w'.files × (lookup path w'.files ≡ lookup path w.files)
  write_file_if_changed-error x e =
      let same = (Triple-err _ run_lem w w' x refl e).files in
      (same, Except-lookup (IsTemp tmp_dir) w.files w'.files path same apart)
