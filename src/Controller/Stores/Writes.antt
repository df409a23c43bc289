-- ===== src/Controller/Stores/Writes.antt =====
-- The writing of the desired trust stores.
use notation_aws_verifier.Prelude.{
  Str, codes, ◌++◌, Bool, true, false, ◌||◌, Option, none, some, List, [], ◌∷◌, ◌≡◌, inl, inr, refl,
  sym, ap, ◌∙◌, arith, All,
}
use notation_aws_verifier.Prelude.Exec.{wrap, continue, ◌>>=◌}
use notation_aws_verifier.Prelude.Exec.Triple.{
  Triple-then, Outcome, Triple-pure, Triple-wrap, Triple-bind,
}
use notation_aws_verifier.Prelude.Map.{Map, lookup, lookup-insert}
use notation_aws_verifier.Prelude.Result.{Result, ok, err}
use notation_aws_verifier.Prelude.Text.Scan.{contains_char}
use notation_aws_verifier.Cache.Keys.{Lacks}
use notation_aws_verifier.Disk.{Os, make_dir, make_dirs, mkdir_all}
use notation_aws_verifier.Disk.Frames.{
  Except, Except-lookup, OsLaws, IsTemp, At-map, Triple-plain, Does, Does-map, Does-each,
}
use notation_aws_verifier.Disk.Names.{IsName, child_path, child_path_inj, join-child_path}
use notation_aws_verifier.Disk.Paths.{join}
use notation_aws_verifier.Disk.Tree.{Node, file, directory, ancestors}
use notation_aws_verifier.Controller.Files.{write_file_if_changed}
use notation_aws_verifier.Controller.Files.Written.{Written, Does-write_file_if_changed}
use notation_aws_verifier.Controller.Policies.Exact.{SameFiles, make_dirs-SameFiles}
use notation_aws_verifier.Controller.Stores.Defs.{cert_file, write_stores}
use notation_aws_verifier.Controller.Stores.Paths.{
  IsStoreKey, cert_path, cert_path_inj, type-ne-cert_path, key-ne-below, child_path_assoc,
  join-store_path, not_Lacks,
}

pub cert_file-IsName : IsName cert_file
unfolding codes contains_char
cert_file-IsName = record {
  filled = λ e. absurd (ground arith);
  no_dot = λ e. absurd (ground arith);
  no_dots = λ e. absurd (ground arith);
  no_slash = refl;
}

-- Every directory stays one.
abbrev pub DirsKept : Map Node → Map Node → Type 0
DirsKept f g = (q : Str) → lookup q f ≡ some directory → lookup q g ≡ some directory

module _ (os : Os) where
  make_dir-DirsKept :
      (p : Str) (f : Map Node) (o : Option Node) → lookup p f ≡ o → DirsKept f (make_dir os p o f).1
  make_dir-DirsKept p f none h q d = ground (arith, lookup-insert p q directory f)
  make_dir-DirsKept p f (some (file b)) h q d = d
  make_dir-DirsKept p f (some directory) h q d = d

  pub make_dirs-DirsKept : (ps : List Str) (f : Map Node) → DirsKept f (make_dirs os ps f).1
  unfolding make_dirs ◌>>=◌
  make_dirs-DirsKept [] f q d = d
  make_dirs-DirsKept (p ∷ ps) f q d =
      go (make_dir os p (lookup p f) f).0 (make_dir os p (lookup p f) f).1
        (make_dirs-DirsKept ps (make_dir os p (lookup p f) f).1 q)
        (make_dir-DirsKept p f (lookup p f) refl q d)
    where
      go :
          (r : Result (Unit {0})) (g : Map Node)
          → (lookup q g ≡ some directory → lookup q (make_dirs os ps g).1 ≡ some directory)
          → lookup q g ≡ some directory
          → lookup q (continue r (λ made. make_dirs os ps) g).1 ≡ some directory
      go (ok u) g later here = later here
      go (err e) g later here = here

module _ (os : Os) (laws : OsLaws os) (channel : Option Bool) (sent : List os.Object) (root : Str)
    (desired : Map Str) (good : (k v : Str) → lookup k desired ≡ some v → IsStoreKey k) where
  -- The bundle of a desired store.
  abbrev pub Held : Map Node → Str × Str → Type 0
  Held f e = lookup (cert_path root e.0) f ≡ some (file e.1)

  abbrev pub Desired : Str × Str → Type 0
  Desired e = lookup e.0 desired ≡ some e.1

  -- The bundle of a store that is not desired lies in the directories of its type and its name.
  abbrev pub StaleGrounded : Map Node → Type 0
  StaleGrounded f =
      (k b : Str) (key : IsStoreKey k)
      → lookup k desired ≡ none
      → lookup (cert_path root k) f ≡ some (file b)
      → (lookup (child_path root key.type) f ≡ some directory)
        × (lookup (child_path root k) f ≡ some directory)

  pub Does-mkdir_all_kept :
      (dir : Str) (g : Map Node)
      → Does os channel sent
          (λ f. f ≡ g)
          (mkdir_all os dir)
          (λ _ f. SameFiles g f × DirsKept g f)
          (λ f. Unit)
  unfolding mkdir_all
  Does-mkdir_all_kept dir g =
      Triple-plain os channel sent _ (λ f. f ≡ g) _ (λ f. Unit)
        (λ f e. rw e (
          made (make_dirs os (ancestors [] dir) g).0 _ (make_dirs-SameFiles os (ancestors [] dir) g)
            (make_dirs-DirsKept os (ancestors [] dir) g)))
        (λ f e. tt)
    where
      made :
          (r : Result (Unit {0})) (f : Map Node)
          → SameFiles g f
          → DirsKept g f
          → Outcome (λ _ f. SameFiles g f × DirsKept g f) (λ _ f. Unit) r f
      made (ok u) f s d = (s, d)
      made (err e) f s d = tt

  pub StaleGrounded-made :
      (f g : Map Node) → SameFiles f g → DirsKept f g → StaleGrounded f → StaleGrounded g
  StaleGrounded-made f g same kept h k b key stale at =
      let (t, s) = h k b key stale ((same (cert_path root k) b).0 at) in (kept _ t, kept _ s)

  -- The path of a bundle is no path of a temporary file.
  apart : (k : Str) → IsStoreKey k → ¬ IsTemp root (cert_path root k)
  apart k key (r, e, no_slash, no_dot) =
      let same =
        child_path_inj root _ (codes ".tmp-" ++ r) (sym (child_path_assoc root k cert_file) ∙ e) in
      not_Lacks k cert_file (rw (← same) at (temp_lacks r no_slash))
    where
      temp_lacks : (r : Str) → Lacks b'/' r → Lacks b'/' (codes ".tmp-" ++ r)
      temp_lacks r h = unfold contains_char codes in ground arith

  -- A bundle that is written is no other path that matters.
  StaleGrounded-written :
      (e : Str × Str) (f g : Map Node)
      → Desired e
      → Except (λ q. q ≡ cert_path root e.0) f g
      → StaleGrounded f
      → StaleGrounded g
  StaleGrounded-written e f g d same h k b key stale at =
      let of = good e.0 e.1 d in
      let other =
        Except-lookup _ f g (cert_path root k) same
          (λ p. absurd (not_stale (cert_path_inj root k e.0 key of p) stale d)) in
      let (t, s) = h k b key stale (sym other ∙ at) in
      (
        Except-lookup _ f g _ same (λ p. type-ne-cert_path root key.type e.0 key.is_type of p) ∙ t,
        Except-lookup _ f g _ same (λ p.
              key-ne-below k e.0 cert_file key of
                (child_path_inj root k _ (p ∙ child_path_assoc root e.0 cert_file)))
            ∙ s,
      )
    where
      not_stale : k ≡ e.0 → lookup k desired ≡ none → lookup e.0 desired ≡ some e.1 → ⊥
      not_stale p stale d = absurd (ground (arith, ap (λ x. lookup x desired) p))

  -- What some writes have done to the files `g`.
  pub record Wrote (g : Map Node) (changed : Bool) (entries : Map Str) (c : Bool) (f : Map Node)
      : Type 0 where
    pub untouched : c ≡ false → (changed ≡ false) × SameFiles g f
    pub grounded : StaleGrounded f
    pub held : All (Held f) entries
    pub kept : (e : Str × Str) → Desired e → Held g e → Held f e

  Held-written :
      (e d : Str × Str) (f g : Map Node)
      → Desired e
      → Desired d
      → lookup (cert_path root e.0) g ≡ some (file e.1)
      → Except (λ q. q ≡ cert_path root e.0) f g
      → Held f d
      → Held g d
  Held-written e d f g de dd new same h = elim (same (cert_path root d.0)) [
    | inr other ↦ other ∙ h
    | inl p ↦
        let q : d.0 ≡ e.0 = cert_path_inj root d.0 e.0 (good d.0 d.1 dd) (good e.0 e.1 de) p in
        let r : e.1 ≡ d.1 = ground (arith, ap (λ x. lookup x desired) q) in rw q (rw (← r) new)
  ]

  -- What one write does behind the making of the directory.
  abbrev One : Str × Str → Map Node → Bool → Map Node → Type 0
  One e g written f =
      (written ≡ false → SameFiles g f)
      × StaleGrounded f
      × Held f e
      × ((d : Str × Str) → Desired d → Held g d → Held f d)

  One-of :
      (e : Str × Str) (de : Desired e) (g h f : Map Node) (written : Bool)
      → SameFiles g h
      → StaleGrounded h
      → Written os laws channel sent
          (cert_path root e.0)
          root
          e.1
          (apart e.0 (good e.0 e.1 de))
          h
          written
          f
      → One e g written f
  One-of e de g h f true same gr (new, except) = (
    λ x. absurd (ground arith),
    StaleGrounded-written e h f de except gr,
    new,
    λ d dd held. Held-written e d h f de dd new except ((same (cert_path root d.0) d.1).1 held),
  )
  One-of e de g h f false same gr (old, p) = (
    λ x. rw p same,
    rw p gr,
    rw p old,
    λ d dd held. rw p ((same (cert_path root d.0) d.1).1 held),
  )

  Does-One :
      (e : Str × Str) (g : Map Node) (f1 f2 : Str → Str)
      → Desired e
      → StaleGrounded g
      → Does os channel sent
          (λ f. f ≡ g)
          (wrap f1 (mkdir_all os (join root e.0)) >>= λ made.
            wrap f2 (write_file_if_changed os (join (join root e.0) cert_file) root e.1))
          (One e g)
          (λ f. Unit)
  Does-One e g f1 f2 de gr =
      let key = good e.0 e.1 de in
      let p = join-store_path root e.0 key in
      let p' = join-child_path (child_path root e.0) cert_file cert_file-IsName in
      rw (p, p')
        (Triple-bind _ _ (Triple-wrap _ _ _ _ (Does-mkdir_all_kept (child_path root e.0) g))
          (λ made. Does-each os channel sent _ (λ h (same, kept).
            Does-map os channel sent _ (λ f x. x)
              (λ written f w.
                One-of e de g h f written same (StaleGrounded-made g h same kept gr) w)
              (λ f x. tt)
              (Triple-wrap _ _ _ _ (
                Does-write_file_if_changed os laws channel sent (cert_path root e.0) root e.1
                  (apart e.0 key) h)))))

  pub Does-write_stores :
      (entries : Map Str) (changed : Bool) (g : Map Node)
      → All Desired entries
      → StaleGrounded g
      → Does os channel sent
          (λ f. f ≡ g)
          (write_stores os root entries changed)
          (Wrote g changed entries)
          (λ f. Unit)
  unfolding write_stores
  Does-write_stores [] changed g d gr = Triple-pure changed (
      At-map os channel sent _ _ (λ f e. rw e (record {
        untouched = λ h. (h, λ q b. (λ x. x, λ x. x));
        grounded = gr;
        held = tt;
        kept = λ e d h. h;
      })))
  Does-write_stores ((rel, text) ∷ rest) changed g d gr =
      Triple-then _ _ _ (Does-One (rel, text) g _ _ d.0 gr) (λ written.
        Does-each os channel sent _ (λ h (same, grounded, held, kept).
          Does-map os channel sent _ (λ f x. x)
            (λ c f w. record {
              untouched = λ none_changed. (
                ground (arith, w.untouched none_changed),
                trans_same g h f (same (ground (arith, w.untouched none_changed)))
                    (w.untouched none_changed).1,
              );
              grounded = w.grounded;
              held = (w.kept (rel, text) d.0 held, w.held);
              kept = λ e de x. w.kept e de (kept e de x);
            })
            (λ f x. x) (Does-write_stores rest (changed || written) h d.1 grounded)))
    where
      trans_same : (f g h : Map Node) → SameFiles f g → SameFiles g h → SameFiles f h
      trans_same f g h p q x b = (λ y. (p x b).0 ((q x b).0 y), λ y. (q x b).1 ((p x b).1 y))
