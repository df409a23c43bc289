-- ===== src/Controller/Files/Written.antt =====
-- `writeFileIfChanged`: the file holds the text afterwards, or it is as it was.
use notation_aws_verifier.Prelude.{
  Str, ◌==◌, ==_iff, Bool, true, false, Option, none, some, List, [], ◌≡◌, ◌⊎◌, inl, inr, refl, sym,
  ◌∙◌,
}
use notation_aws_verifier.Prelude.Exec.{pure, fail, attempt, ◌>>=◌}
use notation_aws_verifier.Prelude.Exec.Triple.{
  Triple, Outcome, Triple-pure, Triple-fail, Triple-attempt, Triple-if, Triple-bind,
}
use notation_aws_verifier.Prelude.Map.{Map, lookup}
use notation_aws_verifier.Prelude.Result.{Result, ok, err}
use notation_aws_verifier.Controller.Files.{
  answer_with, fill_and_rename, replace_file, compare_file, write_file_if_changed,
}
use notation_aws_verifier.Disk.{Os, temp_path, read_node, add_temp, read_file, create_temp, remove}
use notation_aws_verifier.Disk.Frames.{
  Except, Except-refl, Except-map, Except-insert, OsLaws, IsTemp, At, At-map, Triple-plain, Does,
  Does-map, Does-ignore, Does-assume,
}
use notation_aws_verifier.Disk.Tree.{Node, file, directory}
use notation_aws_verifier.Controller.Files.Temporary.{
  Temp, Renamed, Does-fill_and_rename, Does-remove_Renamed, Does-remove_Temp,
}

module _ (os : Os) (laws : OsLaws os) (channel : Option Bool) (sent : List os.Object)
    (path tmp_dir text : Str) (apart : ¬ IsTemp tmp_dir path) (f0 : Map Node) where
  abbrev pub Failed : Map Node → Type 0
  Failed = Except (IsTemp tmp_dir) f0

  abbrev pub Replaced : Map Node → Type 0
  Replaced f = (lookup path f ≡ some (file text)) × Except (λ q. q ≡ path) f0 f

  -- What the value of `writeFileIfChanged` says of the files behind it.
  abbrev pub Written : Bool → Map Node → Type 0
  Written true f = Replaced f
  Written false f = (lookup path f0 ≡ some (file text)) × (f ≡ f0)

  abbrev Created : Str → Map Node → Type 0
  Created t f = (IsTemp tmp_dir t × (lookup t f0 ≡ none)) × Temp os channel sent t f0 f

  created :
      (t : Str)
      → IsTemp tmp_dir t
      → (f : Map Node) → f ≡ f0
      → lookup t f ≡ none
      → (o : Option Node)
      → Outcome Created (λ _. Failed) (add_temp os t o f).0 (add_temp os t o f).1
  created t temp f e fresh none = rw e (Except-refl _ f0)
  created t temp f e fresh (some (file b)) = rw e (Except-refl _ f0)
  created t temp f e fresh (some directory) =
      ((temp, rw e at fresh), rw e (Except-insert _ t (file []) f0 refl))

  Does-create_temp : Does os channel sent (λ f. f ≡ f0) (create_temp os tmp_dir) Created Failed
  unfolding create_temp
  Does-create_temp = record {
    run = λ w h.
        (Triple-plain os channel sent
            (λ files. add_temp os (temp_path os w.calls files tmp_dir) (lookup tmp_dir files) files)
            (λ f. f ≡ f0) Created Failed
            (λ f e.
              created (temp_path os w.calls f tmp_dir)
                (
                  os.random w.calls f tmp_dir,
                  refl,
                  laws.no_slash w.calls f tmp_dir,
                  laws.no_dot w.calls f tmp_dir,
                )
                f e (laws.fresh w.calls f tmp_dir) (lookup tmp_dir f))
            (λ f e. rw e (Except-refl _ f0))).run
          w h;
  }

  replaced :
      (t : Str)
      → IsTemp tmp_dir t
      → lookup t f0 ≡ none
      → (f : Map Node)
      → (lookup path f ≡ some (file text))
        × (lookup t f ≡ none)
        × Except (λ q. (q ≡ path) ⊎ (q ≡ t)) f0 f
      → Replaced f
  replaced t temp fresh f (holds, gone, same) = (
    holds,
    λ q. elim (same q) [
      | inl (inl e) ↦ inl e
      | inl (inr e) ↦ inr (rw e (gone ∙ sym fresh))
      | inr e ↦ inr e
    ],
  )

  finish :
      (t : Str) (temp : IsTemp tmp_dir t)
      → lookup t f0 ≡ none
      → (r : Result Bool)
      → Triple
          (Outcome
            (λ b. At os channel sent (λ f.
              (b ≡ true) × Renamed os channel sent t f0 path text (λ e. apart (rw e at temp)) f))
            (λ _. At os channel sent (Temp os channel sent t f0))
            r)
          (attempt (remove os t) >>= λ _. answer_with os r)
          (λ b. At os channel sent (λ f. (b ≡ true) × Replaced f))
          (λ _. At os channel sent Failed)
  finish t temp fresh (ok b) = Does-assume os channel sent _ (λ e.
      Does-ignore os channel sent (remove os t) (pure b)
        (Does-remove_Renamed os channel sent t f0 path text (λ e. apart (rw e at temp)))
        (Triple-pure b (At-map os channel sent _ _ (λ f h. (e, replaced t temp fresh f h)))))
  finish t temp fresh (err e) =
      Does-ignore os channel sent (remove os t) (fail e) (Does-remove_Temp os channel sent t f0) (
        Triple-fail e
          (At-map os channel sent _ _ (λ f h. Except-map _ _ (λ q x. rw x temp) f0 f h)))

  Does-replace_file :
      Does os channel sent
        (λ f. f ≡ f0)
        (replace_file os path tmp_dir text)
        (λ b f. (b ≡ true) × Replaced f)
        Failed
  unfolding replace_file
  Does-replace_file = Triple-bind _ _ Does-create_temp with_temp
    where
      with_temp :
          (t : Str)
          → Does os channel sent
              (Created t)
              (attempt (fill_and_rename os t path text) >>= λ r.
                attempt (remove os t) >>= λ _. answer_with os r)
              (λ b f. (b ≡ true) × Replaced f)
              Failed
      with_temp t = Does-assume os channel sent _ (λ (temp, fresh).
          Triple-bind _ _
            (Triple-attempt
              (λ b. At os channel sent (λ f.
                (b ≡ true) × Renamed os channel sent t f0 path text (λ e. apart (rw e at temp)) f))
              (λ _. At os channel sent (Temp os channel sent t f0)) (λ _. At os channel sent Failed)
              _ (Does-fill_and_rename os channel sent t f0 path text (λ e. apart (rw e at temp))))
            (finish t temp fresh))

  -- What was read is what the file holds.
  abbrev Reads : Result Str → Map Node → Type 0
  Reads (ok b) f = (lookup path f0 ≡ some (file b)) × (f ≡ f0)
  Reads (err e) f = f ≡ f0

  Does-replaced :
      Does os channel sent (λ f. f ≡ f0) (replace_file os path tmp_dir text) Written Failed
  Does-replaced =
      Does-map os channel sent _ (λ f h. h) (λ b f (e, h). rw e h) (λ f h. h) Does-replace_file

  Does-compare_file :
      (current : Result Str)
      → Does os channel sent
          (Reads current)
          (compare_file os path tmp_dir text current)
          Written
          Failed
  unfolding compare_file
  Does-compare_file (ok b) =
      Triple-if (b == text) (pure false) (replace_file os path tmp_dir text)
        (λ same.
          Triple-pure false (
            At-map os channel sent _ _
              (λ f (holds, e). (rw (← ((==_iff b text).0 same)) holds, e))))
        (λ _. Does-map os channel sent _ (λ f h. h.1) (λ b f h. h) (λ f h. h) Does-replaced)
  Does-compare_file (err e) =
      Triple-if (os.is_not_exist e) (replace_file os path tmp_dir text) (fail e)
        (λ _. Does-replaced)
        (λ _. Triple-fail e (At-map os channel sent _ _ (λ f h. rw h (Except-refl _ f0))))

  read_lem :
      (f : Map Node)
      → f ≡ f0
      → (o : Option Node) → lookup path f ≡ o
      → Outcome
          (λ b g. (lookup path f0 ≡ some (file b)) × (g ≡ f0))
          (λ _ g. g ≡ f0)
          (read_node os o)
          f
  read_lem f e none h = e
  read_lem f e (some (file b)) h = (rw e at h, e)
  read_lem f e (some directory) h = e

  Does-read_file :
      Does os channel sent
        (λ f. f ≡ f0)
        (read_file os path)
        (λ b f. (lookup path f0 ≡ some (file b)) × (f ≡ f0))
        (λ f. f ≡ f0)
  unfolding read_file
  Does-read_file =
      Triple-plain os channel sent _ (λ f. f ≡ f0) _ (λ f. f ≡ f0)
        (λ f e. read_lem f e (lookup path f) refl) (λ f e. e)

  -- If `path` is no path of a temporary file, `writeFileIfChanged` returns false only with the disk
  -- as it was and the text in the file, and true only with the text in the file and every other
  -- path as it was; after an error no path has changed but those of temporary files.
  pub Does-write_file_if_changed :
      Does os channel sent (λ f. f ≡ f0) (write_file_if_changed os path tmp_dir text) Written Failed
  unfolding write_file_if_changed
  Does-write_file_if_changed =
      Triple-bind _ _
        (Triple-attempt (λ b. At os channel sent (λ f. (lookup path f0 ≡ some (file b)) × (f ≡ f0)))
          (λ _. At os channel sent (λ f. f ≡ f0)) (λ _. At os channel sent Failed) _ Does-read_file)
        by_read
    where
      by_read :
          (r : Result Str)
          → Triple
              (Outcome
                (λ b. At os channel sent (λ f. (lookup path f0 ≡ some (file b)) × (f ≡ f0)))
                (λ _. At os channel sent (λ f. f ≡ f0))
                r)
              (compare_file os path tmp_dir text r)
              (λ b. At os channel sent (Written b))
              (λ _. At os channel sent Failed)
      by_read (ok b) = Does-compare_file (ok b)
      by_read (err e) = Does-compare_file (err e)
