-- ===== src/Controller/Policies/Exact.antt =====
-- The steps of `syncTrustPolicyFiles`, and the files that its two loops leave.
use notation_aws_verifier.Prelude.{
  Str, ==_iff, Bool, Option, Option-cases, none, some, List, [], ◌∷◌, ◌≡◌, ◌↔◌, inl, inr, refl, sym,
  ◌∙◌, arith, All, All-In, In,
}
use notation_aws_verifier.Prelude.Exec.{continue, ◌>>=◌}
use notation_aws_verifier.Prelude.Exec.Triple.{Outcome}
use notation_aws_verifier.Prelude.Map.{
  Map, keys, lookup, lookup-insert, In-entries_at, All-entries_at, lookup-eq-some-count,
}
use notation_aws_verifier.Prelude.Result.{Result, ok, err}
use notation_aws_verifier.Deps.{DirEntry}
use notation_aws_verifier.Disk.{Os, make_dir, make_dirs, list_node, mkdir_all, read_dir}
use notation_aws_verifier.Disk.Frames.{OsLaws, Triple-plain, Does}
use notation_aws_verifier.Disk.Names.{child_path, child_path_inj, In-listed}
use notation_aws_verifier.Disk.Tree.{Node, file, directory, children, sort_entries, ancestors}
use notation_aws_verifier.Controller.Policies.{range_desired}
use notation_aws_verifier.Controller.Policies.Cleaned.{Cleaning}
use notation_aws_verifier.Controller.Policies.Writes.{IsPolicyFile, Writing}

-- The two disks hold the same files.
abbrev pub SameFiles : Map Node → Map Node → Type 0
SameFiles f g = (q b : Str) → (lookup q g ≡ some (file b)) ↔ (lookup q f ≡ some (file b))

-- The *.json files in the directory are exactly the desired ones.
abbrev pub IsExact : Str → Map Str → Map Node → Type 0
IsExact dir desired f =
    (name : Str)
    → IsPolicyFile name
    → (text : Str)
    → (lookup (child_path dir name) f ≡ some (file text)) ↔ (lookup name desired ≡ some text)

module _ (os : Os) where
  make_dir-SameFiles :
      (p : Str) (f : Map Node) (o : Option Node)
      → lookup p f ≡ o
      → SameFiles f (make_dir os p o f).1
  make_dir-SameFiles p f none h q b = (
    λ e. ground (arith, lookup-insert p q directory f, ==_iff p q),
    λ e. ground (arith, lookup-insert p q directory f, ==_iff p q),
  )
  make_dir-SameFiles p f (some (file c)) h q b = (λ e. e, λ e. e)
  make_dir-SameFiles p f (some directory) h q b = (λ e. e, λ e. e)

  pub make_dirs-SameFiles : (ps : List Str) (f : Map Node) → SameFiles f (make_dirs os ps f).1
  unfolding make_dirs ◌>>=◌
  make_dirs-SameFiles [] f q b = (λ e. e, λ e. e)
  make_dirs-SameFiles (p ∷ ps) f q b =
      let here = make_dir-SameFiles p f (lookup p f) refl q b in
      go (make_dir os p (lookup p f) f).0 (make_dir os p (lookup p f) f).1
        (make_dirs-SameFiles ps (make_dir os p (lookup p f) f).1 q b) here
    where
      go :
          (r : Result (Unit {0})) (g : Map Node)
          → (lookup q (make_dirs os ps g).1 ≡ some (file b)) ↔ (lookup q g ≡ some (file b))
          → (lookup q g ≡ some (file b)) ↔ (lookup q f ≡ some (file b))
          → (lookup q (continue r (λ made. make_dirs os ps) g).1 ≡ some (file b))
            ↔ (lookup q f ≡ some (file b))
      go (ok u) g later here = (λ e. here.0 (later.0 e), λ e. later.1 (here.1 e))
      go (err x) g later here = here

module _ (os : Os) (laws : OsLaws os) (channel : Option Bool) (sent : List os.Object) where
  same_outcome :
      (f0 : Map Node) (r : Result (Unit {0})) (g : Map Node)
      → SameFiles f0 g
      → Outcome (λ _. SameFiles f0) (λ _ f. Unit) r g
  same_outcome f0 (ok u) g h = h
  same_outcome f0 (err e) g h = tt

  pub Does-mkdir_all :
      (dir : Str) (f0 : Map Node)
      → Does os channel sent (λ f. f ≡ f0) (mkdir_all os dir) (λ _. SameFiles f0) (λ f. Unit)
  unfolding mkdir_all
  Does-mkdir_all dir f0 =
      Triple-plain os channel sent _ (λ f. f ≡ f0) (λ _. SameFiles f0) (λ f. Unit)
        (λ f e. rw e (
          same_outcome f0 (make_dirs os (ancestors [] dir) f0).0 _
            (make_dirs-SameFiles os (ancestors [] dir) f0)))
        (λ f e. tt)

  listed :
      (P : Map Node → Type 0) (dir : Str) (f : Map Node) (o : Option Node)
      → P f
      → Outcome
          (λ es g. (es ≡ sort_entries (children dir g)) × P g)
          (λ _ g. Unit)
          (list_node os dir o f)
          f
  listed P dir f none h = tt
  listed P dir f (some (file b)) h = tt
  listed P dir f (some directory) h = (refl, h)

  pub Does-read_dir :
      (P : Map Node → Type 0) (dir : Str)
      → Does os channel sent P
          (read_dir os dir)
          (λ es g. (es ≡ sort_entries (children dir g)) × P g)
          (λ f. Unit)
  unfolding read_dir
  Does-read_dir P dir =
      Triple-plain os channel sent _ P _ (λ f. Unit) (λ f h. listed P dir f (lookup dir f) h)
        (λ f h. tt)

  -- The loop's entries are those of the map.
  pub Does-range_desired :
      (P : Map Node → Type 0) (desired : Map Str)
      → Does os channel sent P
          (range_desired os desired)
          (λ es f.
            (All (λ (e : Str × Str). lookup e.0 desired ≡ some e.1) es
              × ((k v : Str) → lookup k desired ≡ some v → In (k, v) es))
            × P f)
          (λ f. Unit)
  unfolding range_desired
  Does-range_desired P desired = record {
    run = λ w h. record {
      files = (
        (
          All-entries_at (os.range_order w.calls (keys desired)) desired,
          λ k v e. In-entries_at k v (os.range_order w.calls (keys desired)) desired e (
              omega (
                arith,
                laws.count_order w.calls (keys desired) k,
                lookup-eq-some-count k v desired e,
              )),
        ),
        h.files,
      );
      same_channel = h.same_channel;
      same_sent = h.same_sent;
    };
  }

  module _ (dir : Str) (desired : Map Str)
      (good : (k v : Str) → lookup k desired ≡ some v → IsPolicyFile k) where
    kept :
        (g f : Map Node) (c1 c : Bool) (seen : List DirEntry)
        → Cleaning os laws channel sent dir desired g c1 seen c f
        → (name text : Str) → lookup name desired ≡ some text
        → lookup (child_path dir name) g ≡ some (file text)
        → lookup (child_path dir name) f ≡ some (file text)
    kept g f c1 c seen w name text e h = elim (w.removed_only (child_path dir name)) [
      | inl same ↦ same ∙ h
      | inr (gone, other, at, stale) ↦
          let p : name ≡ other = child_path_inj dir name other at in absurd (ground arith)
    ]

    was_there :
        (g f : Map Node) (c1 c : Bool) (seen : List DirEntry)
        → Cleaning os laws channel sent dir desired g c1 seen c f
        → (q text : Str) → lookup q f ≡ some (file text)
        → lookup q g ≡ some (file text)
    was_there g f c1 c seen w q text h = elim (w.removed_only q) [
      | inl same ↦ sym same ∙ h
      | inr (gone, other, at, stale) ↦ absurd (ground arith)
    ]

    pub exact :
        (f0 g f : Map Node) (done : Map Str) (c1 c : Bool) (seen : List DirEntry)
        → ((k v : Str) → lookup k desired ≡ some v → In (k, v) done)
        → Writing os laws channel sent dir desired good f0 done c1 g
        → ((e : DirEntry) → In e (sort_entries (children dir g)) → In e seen)
        → Cleaning os laws channel sent dir desired g c1 seen c f
        → IsExact dir desired f
    exact f0 g f done c1 c seen complete written all w name is_file text = (
      λ h.
          let before = was_there g f c1 c seen w (child_path dir name) text h in
          elim (Option-cases (lookup name desired)) [
            | inl stale ↦ absurd (
                gone_not h (
                  All-In _ seen _ w.handled
                    (all _ (In-listed dir name is_file.is_name (file text) g before)) refl
                    is_file.json stale))
            | inr (v, e) ↦
                let held = All-In _ done (name, v) written.held (complete name v e) in
                let same : v ≡ text = ground arith in rw (← same) e
          ],
      λ e.
          kept g f c1 c seen w name text e
            (All-In _ done (name, text) written.held (complete name text e)),
    )
      where
        gone_not : {o : Option Node} {n : Node} → o ≡ some n → o ≡ none → ⊥
        gone_not h g = ground arith
