-- ===== src/Factory/Names.antt =====
-- The names that `NewNotationVerifierFactory` of internal/notationfactory keys its verifiers by:
-- file names without their extension.
use notation_aws_verifier.Prelude.{
  Str, codes, ℕ, suc, ◌==◌, ==_iff, ◌++◌, not, ◌||◌, List, [], ◌∷◌, ◌≡◌, refl, arith, All,
}
use notation_aws_verifier.Prelude.Exec.{◌>>=◌}
use notation_aws_verifier.Prelude.Exec.Triple.{
  Triple, Outcome, Triple-pure, Triple-if, Triple-bind, Triple-any,
}
use notation_aws_verifier.Prelude.Map.{Map, insert, lookup, lookup-insert}
use notation_aws_verifier.Prelude.Result.{Result, ok, err}
use notation_aws_verifier.Prelude.Text.Scan.{contains_char, after_last, after_last-append}
use notation_aws_verifier.Cache.Keys.{Lacks}
use notation_aws_verifier.Deps.{Deps, DirEntry}
use notation_aws_verifier.Factory.Refresh.{
  ext, base, trim_suffix, policy_file, policy_name, add_verifier, add_verifiers, read_verifiers,
  refresh_verifiers,
}
use notation_aws_verifier.Verify.Sound.References.{PlainNames}
use notation_aws_verifier.World.{World, ask}

Lacks-after_last : (c k : ℕ) (s : Str) → Lacks c s → Lacks c (after_last s k)
unfolding after_last contains_char
Lacks-after_last c k [] h = refl
Lacks-after_last c k (x ∷ s) h = ground (arith, Lacks-after_last c k s)

Lacks-trim_suffix : (c : ℕ) (s t : Str) → Lacks c s → Lacks c (trim_suffix s t)
unfolding trim_suffix contains_char
Lacks-trim_suffix c [] t h = refl
Lacks-trim_suffix c (x ∷ s) t h = ground (arith, Lacks-trim_suffix c s t)

-- What stands behind the directory.
base-slash : (dir name : Str) → base (dir ++ b'/' ∷ name) ≡ after_last (b'/' ∷ name) b'/'
unfolding contains_char
base-slash dir name = after_last-append dir (b'/' ∷ name) b'/' refl

Lacks-behind_slash : (c : ℕ) (name : Str) → Lacks c name → Lacks c (after_last (b'/' ∷ name) b'/')
unfolding after_last
Lacks-behind_slash c name h = ground (arith, Lacks-after_last c b'/' name h)

module _ (d : Deps) where
  open d use {Verifier}

  Lacks-policy_name : (c : ℕ) (name : Str) → Lacks c name → Lacks c (policy_name d name)
  Lacks-policy_name c name h =
      Lacks-trim_suffix c (base (policy_file d name)) (ext (policy_file d name))
        (rw (base-slash d.notation_path name) (Lacks-behind_slash c name h))

  insert-PlainNames :
      (k : Str) (v : Verifier) (vs : Map Verifier)
      → Lacks b';' k
      → PlainNames vs
      → PlainNames (insert k v vs)
  insert-PlainNames k v vs h names j w e =
      ground (arith, lookup-insert k j v vs, ==_iff k j, names j w)

  -- The directory of the trust policies lists no name with a semicolon.
  abbrev pub PlainFiles : Type 0
  PlainFiles =
      (n : ℕ) (es : List DirEntry)
      → d.read_dir n d.notation_path ≡ ok es
      → All (λ (e : DirEntry). Lacks b';' e.name) es

  Triple-asked :
      {A : Type 0} {P : World d → Type 0} (f : ℕ → Result A)
      → Triple P (ask d f) (λ a _. (n : ℕ) × (f n ≡ ok a)) (λ _ _. Unit {0})
  unfolding ask
  Triple-asked {A = A} f = record {
    run = λ w p. by_result (record w { calls = suc w.calls }) w.calls (f w.calls) refl;
  }
    where
      by_result :
          (w : World d) (m : ℕ) (r : Result A)
          → f m ≡ r
          → Outcome (λ a (_ : World d). (n : ℕ) × (f n ≡ ok a)) (λ _ _. Unit {0}) r w
      by_result w m (ok a) e = (m, e)
      by_result w m (err x) e = tt

  Triple-add_verifier :
      (name : Str) (vs : Map Verifier)
      → Lacks b';' name
      → PlainNames vs
      → Triple (λ _. Unit) (add_verifier d name vs) (λ vs _. PlainNames vs) (λ _ _. Unit {0})
  unfolding add_verifier
  Triple-add_verifier name vs h names = Triple-bind _ _ (Triple-any _) (λ document.
      Triple-bind _ _ (Triple-any _) (λ verifier. Triple-pure _ (λ w _.
        insert-PlainNames (policy_name d name) verifier vs (Lacks-policy_name b';' name h) names)))

  Triple-add_verifiers :
      (es : List DirEntry) (vs : Map Verifier)
      → All (λ (e : DirEntry). Lacks b';' e.name) es
      → Triple
          (λ _. PlainNames vs)
          (add_verifiers d es vs)
          (λ vs _. PlainNames vs)
          (λ _ _. Unit {0})
  unfolding add_verifiers
  Triple-add_verifiers [] vs h = Triple-pure vs (λ w names. names)
  Triple-add_verifiers (e ∷ es) vs h =
      Triple-if (e.is_dir || not (ext e.name == codes ".json")) (add_verifiers d es vs)
        (add_verifier d e.name vs >>= λ more. add_verifiers d es more)
        (λ _. Triple-add_verifiers es vs h.1)
        (λ _. record {
          run = λ w names.
              (Triple-bind (add_verifier d e.name vs) (λ more. add_verifiers d es more)
                  (Triple-add_verifier e.name vs h.0 names)
                  (λ more. Triple-add_verifiers es more h.1)).run
                w tt;
        })

  -- Verifiers that were read are named without semicolons if the files are.
  pub read_verifiers-PlainNames :
      PlainFiles
      → Triple (λ _. Unit {0}) (read_verifiers d) (λ vs _. PlainNames vs) (λ _ _. Unit {0})
  unfolding read_verifiers lookup
  read_verifiers-PlainNames plain =
      Triple-bind _ _ (Triple-asked (λ n. d.read_dir n d.notation_path)) (λ es. record {
        run = λ w (n, e).
            (Triple-add_verifiers es [] (plain n es e)).run w (λ k v h. absurd (ground arith));
      })

  -- So are the verifiers in force after the factory was refreshed.
  pub refresh_verifiers-PlainNames :
      PlainFiles
      → Triple
          (λ _. Unit {0})
          (refresh_verifiers d)
          (λ _ w. PlainNames w.verifiers)
          (λ _ _. Unit {0})
  unfolding refresh_verifiers
  refresh_verifiers-PlainNames plain =
      Triple-bind _ _ (read_verifiers-PlainNames plain) (λ vs. record { run = λ w names. names })
