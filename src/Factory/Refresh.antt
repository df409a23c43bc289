-- ===== src/Factory/Refresh.antt =====
-- internal/notationfactory: the trust policy files become verifiers, all of them or none.
use notation_aws_verifier.Prelude.{Str, codes, ◌==◌, ◌++◌, not, ◌||◌, List, [], ◌∷◌, if◌then◌else◌}
use notation_aws_verifier.Prelude.Exec.{Exec, pure, fail, lift, wrap, ◌>>=◌}
use notation_aws_verifier.Prelude.Map.{Map, insert}
use notation_aws_verifier.Prelude.Result.{ok}
use notation_aws_verifier.Prelude.Text.Scan.{contains_char, after_last}
use notation_aws_verifier.Deps.{Deps, DirEntry}
use notation_aws_verifier.World.{World, ask}

-- `filepath.Base` of a path with a name at its end.
abbrev pub base : Str → Str
base path = after_last path b'/'

-- `filepath.Ext`: from the last dot of the last element on.
unfoldable pub ext : Str → Str
ext path = if contains_char (base path) b'.' then b'.' ∷ after_last (base path) b'.' else []

-- `strings.TrimSuffix`.
unfoldable pub trim_suffix : Str → Str → Str
trim_suffix [] suffix = []
trim_suffix (x ∷ s) suffix =
    let rest = trim_suffix s suffix in if (x ∷ s) == suffix then [] else x ∷ rest

module _ (d : Deps) where
  open d use {Verifier, Document, notation_path}

  -- The error of `os.Lstat` or `os.Open`, worded.
  abbrev pub stat_error : Str → Str → Str
  stat_error path e = if d.is_not_exist e then codes "trust policy is not present " ++ path else e

  abbrev pub open_error : Str → Str → Str
  open_error path e =
      if d.is_permission e
      then codes
          "unable to read trust policy due to file permissions, please verify the permissions of "
        ++ path
      else e

  unfoldable pub load_trust_policy : Str → Exec (World d) Document
  load_trust_policy path = do
    mode ← wrap (stat_error path) (ask d (λ n. d.lstat n path))
    if mode.is_dir || mode.is_symlink
        then fail
            (codes "trust policy is not a regular file (symlinks are not supported) path: " ++ path)
        else (do
          text ← wrap (open_error path) (ask d (λ n. d.open_file n path))
          wrap (λ e. codes "malformed trust policy path " ++ (path ++ (codes ": " ++ e)))
              (lift (d.decode_document text)))

  -- `filepath.Join(utils.NotationPath, name)`
  abbrev pub policy_file : Str → Str
  policy_file name = notation_path ++ (b'/' ∷ name)

  abbrev pub policy_name : Str → Str
  policy_name name = trim_suffix (base (policy_file name)) (ext (policy_file name))

  -- The verifier of one file, added to the new map.
  unfoldable pub add_verifier : Str → Map Verifier → Exec (World d) (Map Verifier)
  unfolding load_trust_policy
  add_verifier name verifiers = do
    trust_policy ← load_trust_policy (policy_file name)
    verifier ← ask d (λ n. d.new_verifier n trust_policy)
    pure (insert (policy_name name) verifier verifiers)

  -- The loop over the entries of the directory; an error ends it.
  unfoldable pub add_verifiers : List DirEntry → Map Verifier → Exec (World d) (Map Verifier)
  unfolding add_verifier
  add_verifiers [] verifiers = pure verifiers
  add_verifiers (e ∷ es) verifiers =
      let skipped = add_verifiers es verifiers in
      let added = (do more ← add_verifier e.name verifiers; add_verifiers es more) in
      if e.is_dir || not (ext e.name == codes ".json") then skipped else added

  unfoldable pub read_verifiers : Exec (World d) (Map Verifier)
  unfolding add_verifiers
  read_verifiers = do entries ← ask d (λ n. d.read_dir n notation_path); add_verifiers entries []

  -- `f.verifiers = verifiers`
  abbrev pub set_verifiers : Map Verifier → Exec (World d) (Unit {0})
  set_verifiers verifiers w = (ok tt, record w { verifiers = verifiers })

  unfoldable pub refresh_verifiers : Exec (World d) (Unit {0})
  unfolding read_verifiers
  refresh_verifiers = do verifiers ← read_verifiers; set_verifiers verifiers
