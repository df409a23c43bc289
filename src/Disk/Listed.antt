-- ===== src/Disk/Listed.antt =====
-- Every file that a directory lists is on the disk, where no path has two nodes; and making
-- directories gives no path two nodes.
use notation_aws_verifier.Prelude.{
  Str, ==_iff, false, Option, none, some, List, [], ◌∷◌, ◌≡◌, refl, arith, All, All-map,
}
use notation_aws_verifier.Prelude.Exec.{continue, ◌>>=◌}
use notation_aws_verifier.Prelude.Map.{
  Map, NodupKeys, insert-NodupKeys, count, lookup, lookup-eq-some-count,
}
use notation_aws_verifier.Prelude.Result.{Result, ok, err}
use notation_aws_verifier.Deps.{DirEntry}
use notation_aws_verifier.Disk.{Os, make_dir, make_dirs}
use notation_aws_verifier.Disk.Names.{child_path, child-eq-some}
use notation_aws_verifier.Disk.Tree.{Node, file, directory, child, add_child, children}

module _ (dir : Str) where
  -- The entry is a file that the disk has.
  abbrev pub IsHere : Map Node → DirEntry → Type 0
  IsHere f e = e.is_dir ≡ false → (b : Str) × (lookup (child_path dir e.name) f ≡ some (file b))

  NodupKeys-tail : (x : Str × Node) (f : Map Node) → NodupKeys (x ∷ f) → NodupKeys f
  unfolding count
  NodupKeys-tail x f h k = omega (arith, h k)

  -- A path that the rest of the disk has is not that of the first node.
  IsHere-cons :
      (p : Str) (n : Node) (f : Map Node) (e : DirEntry)
      → NodupKeys ((p, n) ∷ f)
      → IsHere f e
      → IsHere ((p, n) ∷ f) e
  unfolding lookup count
  IsHere-cons p n f e once h is_file =
      let (b, held) = h is_file in
      (
        b,
        ground (
          arith,
          once (child_path dir e.name),
          lookup-eq-some-count (child_path dir e.name) (file b) f held,
          held,
        ),
      )

  All-IsHere :
      (p : Str) (n : Node) (f : Map Node) (o : Option Str) (es : List DirEntry)
      → child dir p ≡ o
      → All (IsHere ((p, n) ∷ f)) es
      → All (IsHere ((p, n) ∷ f)) (add_child o n es)
  unfolding lookup
  All-IsHere p n f none es at h = h
  All-IsHere p (file b) f (some name) es at h =
      (λ _. (b, ground (arith, child-eq-some dir p name at, ==_iff p (child_path dir name))), h)
  All-IsHere p directory f (some name) es at h = ((λ d. absurd (ground arith)), h)

  -- Every file that a directory lists is on the disk.
  pub listed-IsHere : (f : Map Node) → NodupKeys f → All (IsHere f) (children dir f)
  unfolding children
  listed-IsHere [] once = tt
  listed-IsHere ((p, n) ∷ f) once = All-IsHere p n f (child dir p) (children dir f) refl (
      All-map (IsHere f) (IsHere ((p, n) ∷ f)) (λ e h. IsHere-cons p n f e once h) (children dir f)
        (listed-IsHere f (NodupKeys-tail (p, n) f once)))

module _ (os : Os) where
  make_dir-NodupKeys :
      (p : Str) (f : Map Node) (o : Option Node) → NodupKeys f → NodupKeys (make_dir os p o f).1
  make_dir-NodupKeys p f none h = insert-NodupKeys p directory f h
  make_dir-NodupKeys p f (some (file b)) h = h
  make_dir-NodupKeys p f (some directory) h = h

  pub make_dirs-NodupKeys :
      (ps : List Str) (f : Map Node) → NodupKeys f → NodupKeys (make_dirs os ps f).1
  unfolding make_dirs ◌>>=◌
  make_dirs-NodupKeys [] f h = h
  make_dirs-NodupKeys (p ∷ ps) f h =
      go (make_dir os p (lookup p f) f).0 (make_dir os p (lookup p f) f).1
        (make_dir-NodupKeys p f (lookup p f) h) (make_dirs-NodupKeys ps)
    where
      go :
          (r : Result (Unit {0})) (g : Map Node)
          → NodupKeys g
          → ((g : Map Node) → NodupKeys g → NodupKeys (make_dirs os ps g).1)
          → NodupKeys (continue r (λ made. make_dirs os ps) g).1
      go (ok u) g h rest = rest g h
      go (err e) g h rest = h
