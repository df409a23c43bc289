-- ===== src/Controller/Policies/Cleaned.antt =====
-- The removal of the files that are not desired.
use notation_aws_verifier.Prelude.{
  Str, codes, ◌==◌, ==_iff, ==_refl, Bool, true, false, not, ◌||◌, Option, none, some, List, [],
  ◌∷◌, ◌≡◌, ◌⊎◌, inl, inr, refl, ◌∙◌, arith, is_empty, All, All-map, In, if_both,
}
use notation_aws_verifier.Prelude.Exec.{pure, fail}
use notation_aws_verifier.Prelude.Exec.Triple.{
  Triple, Outcome, Triple-pure, Triple-fail, Triple-attempt, Triple-if, Triple-bind,
}
use notation_aws_verifier.Prelude.Map.{Map, lookup, delete, lookup-delete}
use notation_aws_verifier.Prelude.Result.{Result, ok, err}
use notation_aws_verifier.Deps.{DirEntry}
use notation_aws_verifier.Disk.{Os, remove_node, remove}
use notation_aws_verifier.Disk.Frames.{
  Except, Except-refl, Except-delete, OsLaws, At, At-map, Triple-syscall, Does, Does-map, Does-each,
}
use notation_aws_verifier.Disk.Names.{IsName, child_path, join-child_path}
use notation_aws_verifier.Disk.Paths.{join}
use notation_aws_verifier.Disk.Tree.{Node, file, directory, children}
use notation_aws_verifier.Factory.Refresh.{ext}
use notation_aws_verifier.Controller.Policies.{is_desired, removed_or, remove_stale, clean_policies}

module _ (os : Os) (laws : OsLaws os) (channel : Option Bool) (sent : List os.Object) where
  -- Nothing is at `p`, and the other paths are as they were.
  abbrev Gone : Str → Map Node → Map Node → Type 0
  Gone p f g = (lookup p g ≡ none) × Except (λ q. q ≡ p) f g

  -- An error that says so means that the file is gone.
  abbrev GoneIf : Str → Map Node → Str → Map Node → Type 0
  GoneIf p g0 e f = os.is_not_exist e ≡ true → Gone p g0 f

  deleted-Gone : (p : Str) (f : Map Node) → Gone p f (delete p f)
  deleted-Gone p f = (ground (arith, lookup-delete p p f, ==_refl p), Except-delete _ p f refl)

  removed :
      (p : Str) (f : Map Node) (o : Option Node)
      → lookup p f ≡ o
      → Outcome (λ _. Gone p f) (GoneIf p f) (remove_node os p o f).0 (remove_node os p o f).1
  removed p f none h = λ _. (h, Except-refl _ f)
  removed p f (some (file b)) h = deleted-Gone p f
  removed p f (some directory) h =
      if_both (λ (x : Result (Unit {0}) × Map Node). Outcome (λ _. Gone p f) (GoneIf p f) x.0 x.1)
        (is_empty (children p f)) (ok tt, delete p f) (err os.not_empty, f) (λ _. deleted-Gone p f)
        (λ _ is. absurd (ground (arith, laws.other_not_empty)))

  Triple-remove :
      (p : Str) (g0 : Map Node)
      → Triple
          (At os channel sent (λ f. f ≡ g0))
          (remove os p)
          (λ _. At os channel sent (Gone p g0))
          (λ e. At os channel sent (GoneIf p g0 e))
  unfolding remove
  Triple-remove p g0 =
      Triple-syscall os channel sent _ (λ f. f ≡ g0) (λ _. Gone p g0) (GoneIf p g0)
        (λ f e. rw e (removed p g0 (lookup p g0) refl))
        (λ e f n real h is. absurd (ground (arith, laws.other_fault n e real)))

  Does-remove_stale :
      (dir name : Str) (g0 : Map Node)
      → Does os channel sent
          (λ f. f ≡ g0)
          (remove_stale os dir name)
          (λ _. Gone (join dir name) g0)
          (λ f. Unit)
  unfolding remove_stale
  Does-remove_stale dir name g0 =
      Triple-bind _ _
        (Triple-attempt (λ _. At os channel sent (Gone (join dir name) g0))
          (λ e. At os channel sent (GoneIf (join dir name) g0 e))
          (λ _. At os channel sent (λ f. Unit)) _ (Triple-remove (join dir name) g0))
        (finish _ (Gone (join dir name) g0))
    where
      finish :
          (f : Str → Str) (G : Map Node → Type 0) (r : Result (Unit {0}))
          → Triple
              (Outcome
                (λ _. At os channel sent G)
                (λ e. At os channel sent (λ g. os.is_not_exist e ≡ true → G g))
                r)
              (removed_or os f r)
              (λ _. At os channel sent G)
              (λ _. At os channel sent (λ f. Unit))
      finish f G (ok u) = Triple-pure tt (λ s h. h)
      finish f G (err e) =
          Triple-if (not (os.is_not_exist e)) (fail (f e)) (pure tt)
            (λ _. Triple-fail (f e) (At-map os channel sent _ _ (λ g h. tt)))
            (λ is. Triple-pure tt (At-map os channel sent _ _ (λ g h. h (ground arith))))

  module _ (dir : Str) (desired : Map Str) (f1 : Map Node) (c1 : Bool) where
    abbrev Handled : Map Node → DirEntry → Type 0
    Handled f e =
        e.is_dir ≡ false
        → ext e.name ≡ codes ".json"
        → lookup e.name desired ≡ none
        → lookup (child_path dir e.name) f ≡ none

    -- What holds between the removals of the entries.
    pub record Cleaning (seen : List DirEntry) (changed : Bool) (f : Map Node) : Type 0 where
      pub untouched : changed ≡ false → (c1 ≡ false) × (f ≡ f1)
      pub removed_only :
          (q : Str)
          → (lookup q f ≡ lookup q f1)
            ⊎ ((lookup q f ≡ none)
                × (name : Str) × (q ≡ child_path dir name)
                × (lookup name desired ≡ none))
      pub handled : All (Handled f) seen

    Cleaning-removed :
        (seen : List DirEntry) (e : DirEntry) (changed : Bool) (f g : Map Node)
        → IsName e.name
        → lookup e.name desired ≡ none
        → Gone (join dir e.name) f g
        → Cleaning seen changed f
        → Cleaning (e ∷ seen) true g
    Cleaning-removed seen e changed f g n stale (gone, same) c =
        let p = join-child_path dir e.name n in
        let gone' : lookup (child_path dir e.name) g ≡ none = rw (← p) gone in
        record {
          untouched = λ h. absurd (ground arith);
          removed_only = λ q. elim (same q) [
            | inl at ↦ inr (rw at gone, e.name, at ∙ p, stale)
            | inr kept ↦ elim (c.removed_only q) [
              | inl before ↦ inl (kept ∙ before)
              | inr (before, name, where_is, no_more) ↦ inr (kept ∙ before, name, where_is, no_more)
            ]
          ];
          handled = (
            λ _ _ _. gone',
            All-map (Handled f) (Handled g)
                (λ d h x y z.
                  stays f g (join dir e.name) (child_path dir d.name) gone same (h x y z))
                seen c.handled,
          );
        }
      where
        stays :
            (f g : Map Node) (p q : Str)
            → lookup p g ≡ none
            → Except (λ r. r ≡ p) f g
            → lookup q f ≡ none
            → lookup q g ≡ none
        stays f g p q gone same h = elim (same q) [ inl at ↦ rw at gone | inr kept ↦ kept ∙ h ]

    Cleaning-skip :
        (seen : List DirEntry) (e : DirEntry) (changed : Bool) (f : Map Node)
        → Handled f e
        → Cleaning seen changed f
        → Cleaning (e ∷ seen) changed f
    Cleaning-skip seen e changed f h c = record {
      untouched = c.untouched;
      removed_only = c.removed_only;
      handled = (h, c.handled);
    }

    not_desired : (o : Option Str) → is_desired os o ≡ false → o ≡ none
    not_desired none h = refl
    not_desired (some text) h = ground arith

    abbrev pub Cleaned : List DirEntry → List DirEntry → Bool → Map Node → Type 0
    Cleaned es seen c f =
        (seen' : List DirEntry) × ((e : DirEntry) → In e es ⊎ In e seen → In e seen')
        × Cleaning seen' c f

    Cleaned-cons :
        (e : DirEntry) (es seen : List DirEntry) (c : Bool) (f : Map Node)
        → Cleaned es (e ∷ seen) c f
        → Cleaned (e ∷ es) seen c f
    Cleaned-cons e es seen c f (seen', more, w) = (
      seen',
      λ x i.
          more x (elim i [ inl (inl p) ↦ inr (inl p) | inl (inr j) ↦ inl j | inr j ↦ inr (inr j) ]),
      w,
    )

    -- An entry that needs no removal.
    Does-skip :
        (e : DirEntry) (es seen : List DirEntry) (changed : Bool)
        → ((f : Map Node) → Handled f e)
        → Does os channel sent
            (Cleaning (e ∷ seen) changed)
            (clean_policies os dir desired es changed)
            (Cleaned es (e ∷ seen))
            (λ f. Unit)
        → Does os channel sent
            (Cleaning seen changed)
            (clean_policies os dir desired es changed)
            (Cleaned (e ∷ es) seen)
            (λ f. Unit)
    Does-skip e es seen changed h rest =
        Does-map os channel sent _ (λ f c. Cleaning-skip seen e changed f (h f) c)
          (Cleaned-cons e es seen) (λ f u. u) rest

    pub Does-clean_policies :
        (es seen : List DirEntry) (changed : Bool)
        → All (λ (e : DirEntry). IsName e.name) es
        → Does os channel sent
            (Cleaning seen changed)
            (clean_policies os dir desired es changed)
            (Cleaned es seen)
            (λ f. Unit)
    unfolding clean_policies
    Does-clean_policies [] seen changed names = Triple-pure changed (
        At-map os channel sent _ _
          (λ f c. (seen, λ e i. elim i [ inl n ↦ elim n [ ] | inr j ↦ j ], c)))
    Does-clean_policies (e ∷ es) seen changed names =
        Triple-if (e.is_dir || not (ext e.name == codes ".json")) _ _
          (λ other.
            Does-skip e es seen changed
              (λ f x y z. absurd (ground (arith, ==_iff (ext e.name) (codes ".json"))))
              (Does-clean_policies es (e ∷ seen) changed names.1))
          (λ json.
            Triple-if (is_desired os (lookup e.name desired)) _ _
              (λ wanted.
                Does-skip e es seen changed (λ f x y z. absurd (ground arith))
                  (Does-clean_policies es (e ∷ seen) changed names.1))
              (λ stale.
                Triple-bind {Q = λ _. At os channel sent (Cleaning (e ∷ seen) true)} _ _
                  (Does-each os channel sent _ (λ g c.
                    Does-map os channel sent _ (λ f h. h)
                      (λ _ f gone.
                        Cleaning-removed seen e changed g f names.0
                          (not_desired (lookup e.name desired) stale) gone c)
                      (λ f h. tt) (Does-remove_stale dir e.name g)))
                  (λ _.
                    Does-map os channel sent _ (λ f h. h) (Cleaned-cons e es seen) (λ f u. u)
                      (Does-clean_policies es (e ∷ seen) true names.1))))
