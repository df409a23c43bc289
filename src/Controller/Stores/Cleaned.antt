-- ===== src/Controller/Stores/Cleaned.antt =====
-- The removal of the trust stores that are not desired.
use notation_aws_verifier.Prelude.{
  Str, Bool, Bool-cases, true, false, not, Option, none, some, List, [], ◌∷◌, ◌≡◌, inl, inr, refl,
  sym, ap, ◌∙◌, arith, All, All-In,
}
use notation_aws_verifier.Prelude.Exec.{◌>>=◌}
use notation_aws_verifier.Prelude.Exec.Triple.{
  Outcome, Triple-pure, Triple-if, Triple-wrap, Triple-bind, Triple-then,
}
use notation_aws_verifier.Prelude.Map.{Map, lookup}
use notation_aws_verifier.Deps.{DirEntry}
use notation_aws_verifier.Disk.{Os, Machine, removed_all, remove_all, read_dir}
use notation_aws_verifier.Disk.Frames.{OsLaws, At, At-map, Does, Does-map, Does-each, Does-assume}
use notation_aws_verifier.Disk.Names.{IsName, child_path, join-child_path, In-listed, listed-IsName}
use notation_aws_verifier.Disk.Paths.{join}
use notation_aws_verifier.Disk.Tree.{
  Node, file, directory, is_below, delete_below, children, sort_entries,
}
use notation_aws_verifier.Controller.Policies.{is_desired}
use notation_aws_verifier.Controller.Policies.Exact.{Does-read_dir}
use notation_aws_verifier.Controller.Stores.Defs.{cert_file, clean_type, clean_stores}
use notation_aws_verifier.Controller.Stores.Paths.{
  IsStoreKey, cert_path, child_path_assoc, join-store_path, below-cert_path, below-store_path,
  below-type_path, below_child, lookup-delete_below,
}
use notation_aws_verifier.Controller.Stores.Writes.{StaleGrounded, Held}

pub key_of : (t n : Str) → IsName t → IsName n → IsStoreKey (child_path t n)
key_of t n ht hn = record { type = t; name = n; is_type = ht; is_name = hn; joined = refl }

-- Files are only removed.
abbrev pub Less : Map Node → Map Node → Type 0
Less f g = (q b : Str) → lookup q g ≡ some (file b) → lookup q f ≡ some (file b)

module _ (os : Os) (laws : OsLaws os) (channel : Option Bool) (sent : List os.Object) (root : Str)
    (desired : Map Str) (good : (k v : Str) → lookup k desired ≡ some v → IsStoreKey k) where
  abbrev Grounded : Map Node → Type 0
  Grounded = StaleGrounded os laws channel sent root desired good

  abbrev pub AllHeld : Map Node → Type 0
  AllHeld f =
      (k v : Str) → lookup k desired ≡ some v → Held os laws channel sent root desired good f (k, v)

  -- The store has no bundle.
  abbrev pub Gone : Map Node → Str → Type 0
  Gone f k = (b : Str) → lookup (cert_path root k) f ≡ some (file b) → ⊥

  -- What some removals have done to the files `g`.
  pub record Cleaned (g : Map Node) (changed c : Bool) (f : Map Node) : Type 0 where
    pub untouched : c ≡ false → (changed ≡ false) × (f ≡ g)
    pub held : AllHeld f
    pub grounded : Grounded f
    pub less : Less g f

  Cleaned-refl : (g : Map Node) (c : Bool) → AllHeld g → Grounded g → Cleaned g c c g
  Cleaned-refl g c h gr = record {
    untouched = λ e. (e, refl);
    held = h;
    grounded = gr;
    less = λ q b e. e;
  }

  Cleaned-trans :
      (g h f : Map Node) (c0 c1 c2 : Bool)
      → Cleaned g c0 c1 h
      → Cleaned h c1 c2 f
      → Cleaned g c0 c2 f
  Cleaned-trans g h f c0 c1 c2 x y = record {
    untouched = λ e. let (e1, p) = y.untouched e in let (e0, q) = x.untouched e1 in (e0, p ∙ q);
    held = y.held;
    grounded = y.grounded;
    less = λ q b e. x.less q b (y.less q b e);
  }

  module _ (k : Str) (key : IsStoreKey k) (stale : lookup k desired ≡ none) (g : Map Node) where
    abbrev rest : Map Node
    rest = delete_below (λ q. false) (child_path root k) g

    survives : (q : Str) → is_below (child_path root k) q ≡ false → lookup q rest ≡ lookup q g
    survives q h = ground (arith, lookup-delete_below (child_path root k) q g)

    not_below :
        (q : Str) (n : Node) → lookup q rest ≡ some n → is_below (child_path root k) q ≡ false
    not_below q n h = ground (arith, lookup-delete_below (child_path root k) q g)

    -- Another store's paths are not below this one's.
    apart :
        (j q : Str)
        → (is_below (child_path root k) q ≡ true → j ≡ k)
        → (j ≡ k → ⊥)
        → is_below (child_path root k) q ≡ false
    apart j q h other = elim (Bool-cases (is_below (child_path root k) q)) [
      | inl below ↦ absurd (other (h below))
      | inr no_more ↦ no_more
    ]

    removed : AllHeld g → Grounded g → (changed : Bool) → Cleaned g changed true rest × Gone rest k
    removed held gr changed = (
      record {
        untouched = λ e. absurd (ground arith);
        held = λ j v d.
            survives (cert_path root j) (
              apart j (cert_path root j) (below-cert_path root k j key (good j v d))
                (λ p. absurd (not_stale j v p d)))
            ∙ held j v d;
        grounded = λ j b kj s at.
            let clear = not_below (cert_path root j) (file b) at in
            let (t, d) = gr j b kj s (sym (survives (cert_path root j) clear) ∙ at) in
            (
              survives _ (below-type_path root k kj.type key kj.is_type) ∙ t,
              survives _ (
                    apart j (child_path root j) (below-store_path root k j key kj)
                      (λ p. absurd (gone j p b at)))
                  ∙ d,
            );
        less = λ q b at. sym (survives q (not_below q (file b) at)) ∙ at;
      },
      λ b at. gone k refl b at,
    )
      where
        not_stale : (j v : Str) → j ≡ k → lookup j desired ≡ some v → ⊥
        not_stale j v p d = ground (arith, ap (λ x. lookup x desired) p)

        gone : (j : Str) → j ≡ k → (b : Str) → lookup (cert_path root j) rest ≡ some (file b) → ⊥
        gone j p b at =
            let here : lookup (cert_path root k) rest ≡ some (file b) =
              ap (λ x. lookup (cert_path root x) rest) (sym p) ∙ at in
            ground (
              arith,
              lookup-delete_below (child_path root k) (cert_path root k) g,
              below_child (child_path root k) cert_file,
              here,
            )

    Does-remove_all :
        Does os channel sent
          (λ f. f ≡ g)
          (remove_all os (child_path root k))
          (λ _ f. f ≡ rest)
          (λ f. Unit)
    unfolding remove_all
    Does-remove_all = record { run = λ w h. by_fault (os.fault w.calls) w h }
      where
        by_fault :
            (o : Option Str) (w : Machine os)
            → At os channel sent (λ f. f ≡ g) w
            → Outcome
                (λ _. At os channel sent (λ f. f ≡ rest))
                (λ _. At os channel sent (λ f. Unit))
                (removed_all os o (child_path root k) w).0
                (removed_all os o (child_path root k) w).1
        by_fault none w h = record {
          files = ap (delete_below (λ q. false) (child_path root k)) h.files;
          same_channel = h.same_channel;
          same_sent = h.same_sent;
        }
        by_fault (some e) w h = record {
          files = tt;
          same_channel = h.same_channel;
          same_sent = h.same_sent;
        }

  -- An entry of a type's directory that is not desired has no bundle.
  abbrev StaleGone : Str → Map Node → DirEntry → Type 0
  StaleGone t f s =
      IsName s.name → lookup (child_path t s.name) desired ≡ none → Gone f (child_path t s.name)

  not_desired : (o : Option Str) → is_desired os o ≡ false → o ≡ none
  not_desired none h = refl
  not_desired (some text) h = absurd (ground arith)

  Does-clean_type :
      (t : Str) (ht : IsName t) (es : List DirEntry) (changed : Bool) (g : Map Node)
      → All (λ (e : DirEntry). IsName e.name) es
      → AllHeld g
      → Grounded g
      → Does os channel sent
          (λ f. f ≡ g)
          (clean_type os root t desired es changed)
          (λ c f. Cleaned g changed c f × All (StaleGone t f) es)
          (λ f. Unit)
  unfolding clean_type
  Does-clean_type t ht [] changed g names held gr =
      Triple-pure changed
        (At-map os channel sent _ _ (λ f e. rw e (Cleaned-refl g changed held gr, tt)))
  Does-clean_type t ht (s ∷ es) changed g names held gr =
      let p = join-child_path t s.name names.0 in
      let key = key_of t s.name ht names.0 in
      let q = join-store_path root (child_path t s.name) key in
      rw (p, q)
        (Triple-if (is_desired os (lookup (child_path t s.name) desired)) _ _
          (λ wanted.
            Does-map os channel sent _ (λ f x. x)
              (λ c f (cleaned, gone). (cleaned, (λ n stale. absurd (ground arith), gone)))
              (λ f x. x) (Does-clean_type t ht es changed g names.1 held gr))
          (λ not_wanted.
            let stale = not_desired _ not_wanted in
            let (first, gone) = removed (child_path t s.name) key stale g held gr changed in
            Triple-bind _ _
              (Triple-wrap _ _ _ _ (Does-remove_all (child_path t s.name) key stale g))
              (λ _.
                Does-map os channel sent _ (λ f x. x)
                  (λ c f (cleaned, others). (
                    Cleaned-trans g _ f changed true c first cleaned,
                    (λ n s b at. gone b (cleaned.less _ b at), others),
                  ))
                  (λ f x. x)
                  (Does-clean_type t ht es true (rest (child_path t s.name) key stale g) names.1
                    first.held first.grounded))))

  -- No store of a listed type that is not desired has a bundle.
  abbrev pub TypeGone : Map Node → DirEntry → Type 0
  TypeGone f t =
      t.is_dir ≡ true
      → (n : Str) (ht : IsName t.name) → IsName n
      → lookup (child_path t.name n) desired ≡ none
      → Gone f (child_path t.name n)

  -- The entries of a type's directory name every store that has a bundle.
  stale-Gone :
      (t : Str) (ht : IsName t) (g f : Map Node) (changed c : Bool)
      → Grounded g
      → Cleaned g changed c f
      → All (StaleGone t f) (sort_entries (children (child_path root t) g))
      → (n : Str) → IsName n
      → lookup (child_path t n) desired ≡ none
      → Gone f (child_path t n)
  stale-Gone t ht g f changed c gr cleaned gone n hn stale b at =
      let (_, d) = gr (child_path t n) b (key_of t n ht hn) stale (cleaned.less _ b at) in
      All-In (StaleGone t f) (sort_entries (children (child_path root t) g)) _ gone
        (In-listed (child_path root t) n hn directory g
          (ap (λ x. lookup x g) (child_path_assoc root t n) ∙ d))
        hn stale b at

  Does-one_type :
      (t : Str) (ht : IsName t) (changed : Bool) (g : Map Node)
      → AllHeld g
      → Grounded g
      → Does os channel sent
          (λ f. f ≡ g)
          (read_dir os (join root t) >>= λ stores. clean_type os root t desired stores changed)
          (λ c f.
            Cleaned g changed c f
            × ((n : Str)
                → IsName n
                → lookup (child_path t n) desired ≡ none
                → Gone f (child_path t n)))
          (λ f. Unit)
  Does-one_type t ht changed g held gr = rw (join-child_path root t ht) (
      Triple-bind _ _
        (Does-map os channel sent _ (λ f h. h)
          (λ es f (listed, e).
            (listed ∙ ap (λ x. sort_entries (children (child_path root t) x)) e, e))
          (λ f h. h) (Does-read_dir os laws channel sent (λ f. f ≡ g) (child_path root t)))
        (λ es. Does-assume os channel sent _ (λ listed. rw listed (
          Does-map os channel sent _ (λ f h. h)
            (λ c f (cleaned, gone). (cleaned, stale-Gone t ht g f changed c gr cleaned gone))
            (λ f h. h)
            (Does-clean_type t ht (sort_entries (children (child_path root t) g)) changed g
              (listed-IsName (child_path root t) g) held gr)))))

  pub Does-clean_stores :
      (types : List DirEntry) (changed : Bool) (g : Map Node)
      → All (λ (e : DirEntry). IsName e.name) types
      → AllHeld g
      → Grounded g
      → Does os channel sent
          (λ f. f ≡ g)
          (clean_stores os root desired types changed)
          (λ c f. Cleaned g changed c f × All (TypeGone f) types)
          (λ f. Unit)
  unfolding clean_stores
  Does-clean_stores [] changed g names held gr =
      Triple-pure changed
        (At-map os channel sent _ _ (λ f e. rw e (Cleaned-refl g changed held gr, tt)))
  Does-clean_stores (t ∷ types) changed g names held gr =
      Triple-if (not t.is_dir) _ _
        (λ other.
          Does-map os channel sent _ (λ f x. x)
            (λ c f (cleaned, gone). (cleaned, (λ is. absurd (ground arith), gone))) (λ f x. x)
            (Does-clean_stores types changed g names.1 held gr))
        (λ is_dir. Triple-then _ _ _ (Does-one_type t.name names.0 changed g held gr) (λ c1.
          Does-each os channel sent _ (λ h (first, gone).
            Does-map os channel sent _ (λ f x. x)
              (λ c f (cleaned, others). (
                Cleaned-trans g h f changed c1 c first cleaned,
                (λ is n ht hn s b at. gone n hn s b (cleaned.less _ b at), others),
              ))
              (λ f x. x) (Does-clean_stores types c1 h names.1 first.held first.grounded))))
