-- ===== src/Handler/Refresh.antt =====
-- internal/verifier/client.go: `UpdateNotationVerifier`, which the reconcilers call when a trust
-- policy or a trust store has changed.
use notation_aws_verifier.Prelude.{
  Str, subst, sym, ℕ, arith, ◌≡◌, refl, List, [], ◌∷◌, ◌||◌, ◌==◌, not, codes,
}
use notation_aws_verifier.Prelude.Exec.{Exec, fail, continue, ◌>>=◌}
use notation_aws_verifier.Prelude.Exec.Keeps.{
  Keeps, Returns-of, Keeps-pure, Keeps-fail, Keeps-lift, Keeps-wrap, Keeps-if, Keeps-bind,
}
use notation_aws_verifier.Prelude.Map.{Map}
use notation_aws_verifier.Prelude.Result.{Result, ok, err}
use notation_aws_verifier.Cache.{clear_cache}
use notation_aws_verifier.Cache.Sound.{clear_cache-IsSound}
use notation_aws_verifier.Deps.{Deps, DirEntry, RistrettoLaws}
use notation_aws_verifier.Factory.Refresh.{
  ext, load_trust_policy, policy_file, add_verifier, add_verifiers, read_verifiers, set_verifiers,
  refresh_verifiers,
}
use notation_aws_verifier.Verify.Evidence.{ImageOk, AttestationOk}
use notation_aws_verifier.Verify.Sound.References.{Sound}
use notation_aws_verifier.World.{World, ask}

module _ (d : Deps) where
  unfoldable pub update_notation_verifier : Exec (World d) (Unit {0})
  unfolding refresh_verifiers clear_cache
  update_notation_verifier = do r ← refresh_verifiers d; clear_cache d

module _ (d : Deps) (w0 : World d) where
  -- Neither the verifiers nor the cache have changed.
  abbrev Same : World d → Type 0
  Same w = (w.verifiers ≡ w0.verifiers) × (w.store ≡ w0.store)

  Keeps-asked : {A : Type 0} (f : ℕ → Result A) → Keeps Same (ask d f) (λ _. Unit)
  unfolding ask
  Keeps-asked f = record {
    at = λ w h. h;
    returns = λ w h. Returns-of (λ _. Unit) (f w.calls) (λ a e. tt);
  }

  Keeps-load_trust_policy : (path : Str) → Keeps Same (load_trust_policy d path) (λ _. Unit)
  unfolding load_trust_policy
  Keeps-load_trust_policy path =
      Keeps-bind _ _ (Keeps-wrap _ _ _ (Keeps-asked (λ n. d.lstat n path))) (λ mode _.
        Keeps-if (mode.is_dir || mode.is_symlink) (fail _) _ (λ _. Unit) (λ _. Keeps-fail _ _)
          (λ _.
            Keeps-bind _ _ (Keeps-wrap _ _ _ (Keeps-asked (λ n. d.open_file n path)))
              (λ text _. Keeps-wrap _ _ _ (Keeps-lift _ _ (λ a e. tt)))))

  Keeps-add_verifier :
      (name : Str) (verifiers : Map d.Verifier)
      → Keeps Same (add_verifier d name verifiers) (λ _. Unit)
  unfolding add_verifier
  Keeps-add_verifier name verifiers =
      Keeps-bind _ _ (Keeps-load_trust_policy (policy_file d name)) (λ trust_policy _.
        Keeps-bind _ _ (Keeps-asked (λ n. d.new_verifier n trust_policy))
          (λ verifier _. Keeps-pure _ tt))

  Keeps-add_verifiers :
      (es : List DirEntry) (verifiers : Map d.Verifier)
      → Keeps Same (add_verifiers d es verifiers) (λ _. Unit)
  unfolding add_verifiers
  Keeps-add_verifiers [] verifiers = Keeps-pure _ tt
  Keeps-add_verifiers (e ∷ es) verifiers =
      Keeps-if (e.is_dir || not (ext e.name == codes ".json")) (add_verifiers d es verifiers)
        (add_verifier d e.name verifiers >>= λ more. add_verifiers d es more) (λ _. Unit)
        (λ _. Keeps-add_verifiers es verifiers)
        (λ _.
          Keeps-bind {Q = λ _. Unit} _ _ (Keeps-add_verifier e.name verifiers)
            (λ more _. Keeps-add_verifiers es more))

  Keeps-read_verifiers : Keeps Same (read_verifiers d) (λ _. Unit)
  unfolding read_verifiers
  Keeps-read_verifiers =
      Keeps-bind _ _ (Keeps-asked (λ n. d.read_dir n d.notation_path))
        (λ entries _. Keeps-add_verifiers entries [])

module _ (d : Deps) where
  -- The end of the update, behind the verifiers that were read or the error of reading them.
  abbrev finish : Result (Map d.Verifier) → World d → Result (Unit {0}) × World d
  finish r w = let (o, w') = continue r (set_verifiers d) w in continue o (λ _. clear_cache d) w'

  -- A failed update leaves the verifiers and the cache as they were.
  pub update_notation_verifier-err :
      (w : World d) (e : Str)
      → (update_notation_verifier d w).0 ≡ err e
      → ((update_notation_verifier d w).1.verifiers ≡ w.verifiers)
        × ((update_notation_verifier d w).1.store ≡ w.store)
  unfolding update_notation_verifier refresh_verifiers ◌>>=◌ clear_cache
  update_notation_verifier-err w e =
      go (read_verifiers d w).0 (read_verifiers d w).1
        ((Keeps-read_verifiers d w).at w (refl, refl))
    where
      go :
          (r : Result (Map d.Verifier)) (w' : World d)
          → Same d w w'
          → (finish r w').0 ≡ err e
          → Same d w (finish r w').1
      go (ok vs) w' same h = absurd (ground arith)
      go (err x) w' same h = same

  -- If the cache is sound for the verifiers in force, then after an update, whether it failed or
  -- not, it is sound for those that are in force then.
  pub update_notation_verifier-IsSound :
      (laws : RistrettoLaws d.ristretto) (w : World d)
      → Sound d laws w.verifiers w
      → Sound d laws (update_notation_verifier d w).1.verifiers (update_notation_verifier d w).1
  unfolding update_notation_verifier refresh_verifiers ◌>>=◌
  update_notation_verifier-IsSound laws w sound =
      go (read_verifiers d w).0 (read_verifiers d w).1
        ((Keeps-read_verifiers d w).at w (refl, refl))
    where
      go :
          (r : Result (Map d.Verifier)) (w' : World d)
          → Same d w w'
          → Sound d laws (finish r w').1.verifiers (finish r w').1
      go (ok vs) w' same =
          clear_cache-IsSound d laws (ImageOk d vs) (AttestationOk d vs) vs
            (record w' { verifiers = vs }) refl
      go (err x) w' (p, q) =
          subst (λ vs. Sound d laws vs w') (sym p)
            (record { same = p; held = λ k e h. sound.held k e (rw q at h) })
