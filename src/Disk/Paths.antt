-- ===== src/Disk/Paths.antt =====
-- `filepath.Join` and `filepath.Dir` on clean paths.
use notation_aws_verifier.Prelude.{
  Str, codes, ◌==◌, ◌++◌, ◌||◌, List, [], ◌∷◌, is_empty, if◌then◌else◌,
}
use notation_aws_verifier.Prelude.Text.Scan.{contains_char}
use notation_aws_verifier.Prelude.Text.Split.{split}

-- `filepath.Dir` of a clean path.
unfoldable pub parent : Str → Str
parent [] = []
parent (x ∷ s) = let rest = parent s in if contains_char s b'/' then x ∷ rest else []

-- One element of a path on top of a clean path that is not the root.
unfoldable pub enter : Str → Str → Str
enter dir e =
    if is_empty e || e == codes "."
    then dir
    else if e == codes ".."
    then parent dir
    else dir ++ b'/' ∷ e

unfoldable pub walk : Str → List Str → Str
unfolding enter
walk dir [] = dir
walk dir (e ∷ es) = walk (enter dir e) es

-- `filepath.Join(dir, rel)`.
unfoldable pub join : Str → Str → Str
unfolding walk
join dir rel = walk dir (split rel b'/')
