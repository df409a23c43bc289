-- ===== src/Controller/Policies/Idle.antt =====
-- A sync of a directory that already holds the desired files.
use notation_aws_verifier.Prelude.{
  Str, codes, ◌==◌, ==_iff, Bool, false, not, ◌||◌, Option, none, some, List, [], ◌∷◌, ◌≡◌, refl,
  ◌∙◌, arith, ap, All, All-map, All-both,
}
use notation_aws_verifier.Prelude.Exec.{◌>>=◌}
use notation_aws_verifier.Prelude.Exec.Triple.{
  Triple, Outcome, Triple-pure, Triple-fail, Triple-attempt, Triple-if, Triple-wrap, Triple-bind,
}
use notation_aws_verifier.Prelude.Map.{Map, NodupKeys, lookup}
use notation_aws_verifier.Prelude.Result.{Result, ok, err}
use notation_aws_verifier.Deps.{DirEntry}
use notation_aws_verifier.Disk.{Os, make_dirs, mkdir_all, read_node, read_file, read_dir}
use notation_aws_verifier.Disk.Frames.{
  OsLaws, At, At-map, Triple-syscall, Triple-plain, Does, Does-map, Does-assume, Does-each,
}
use notation_aws_verifier.Disk.Listed.{IsHere, listed-IsHere, make_dirs-NodupKeys}
use notation_aws_verifier.Disk.Names.{
  IsName, child_path, join-child_path, listed-IsName, All-sort_entries,
}
use notation_aws_verifier.Disk.Paths.{join}
use notation_aws_verifier.Disk.Tree.{Node, file, ancestors, children, sort_entries}
use notation_aws_verifier.Factory.Refresh.{ext}
use notation_aws_verifier.Controller.Files.{compare_file, write_file_if_changed}
use notation_aws_verifier.Controller.Policies.{
  write_policies, is_desired, clean_policies, sync_trust_policy_files,
}
use notation_aws_verifier.Controller.Policies.Writes.{IsPolicyFile}
use notation_aws_verifier.Controller.Policies.Exact.{
  SameFiles, IsExact, make_dirs-SameFiles, Does-range_desired, Does-read_dir,
}

module _ (os : Os) (laws : OsLaws os) (channel : Option Bool) (sent : List os.Object)
    (f0 : Map Node) where
  -- The disk is as it was, and the report is this one.
  abbrev pub Unchanged : Bool → Bool → Map Node → Type 0
  Unchanged c b f = (b ≡ c) × (f ≡ f0)

  module _ (path tmp_dir text : Str) (holds : lookup path f0 ≡ some (file text)) where
    -- What was read is the text, or the error of a fault.
    abbrev Current : Result Str → Type 0
    Current (ok b) = b ≡ text
    Current (err e) = os.is_not_exist e ≡ false

    read-Current :
        (f : Map Node)
        → f ≡ f0
        → Outcome
            (λ b g. Current (ok b) × (g ≡ f0))
            (λ e g. Current (err e) × (g ≡ f0))
            (read_node os (lookup path f))
            f
    read-Current f e = rw (e, holds) (refl, refl)

    Triple-read_file :
        Triple
          (At os channel sent (λ f. f ≡ f0))
          (read_file os path)
          (λ b. At os channel sent (λ f. Current (ok b) × (f ≡ f0)))
          (λ e. At os channel sent (λ f. Current (err e) × (f ≡ f0)))
    unfolding read_file
    Triple-read_file =
        Triple-syscall os channel sent _ (λ f. f ≡ f0) (λ b f. Current (ok b) × (f ≡ f0))
          (λ e f. Current (err e) × (f ≡ f0)) read-Current
          (λ e f n real h. (laws.other_fault n e real, h))

    compared :
        (r : Result Str)
        → Does os channel sent
            (λ f. Current r × (f ≡ f0))
            (compare_file os path tmp_dir text r)
            (Unchanged false)
            (λ f. f ≡ f0)
    unfolding compare_file
    compared (ok b) = Does-assume os channel sent _ (λ same.
        rw (same, (==_iff text text).1 refl)
          (Triple-pure false (At-map os channel sent _ _ (λ f e. (refl, e)))))
    compared (err e) = Does-assume os channel sent _ (λ other. rw other (Triple-fail e (λ s h. h)))

    pub Does-write_idle :
        Does os channel sent
          (λ f. f ≡ f0)
          (write_file_if_changed os path tmp_dir text)
          (Unchanged false)
          (λ f. f ≡ f0)
    unfolding write_file_if_changed
    Does-write_idle =
        Triple-bind _ _
          (Triple-attempt (λ b. At os channel sent (λ f. Current (ok b) × (f ≡ f0)))
            (λ e. At os channel sent (λ f. Current (err e) × (f ≡ f0)))
            (λ _. At os channel sent (λ f. f ≡ f0)) _ Triple-read_file)
          by_read
      where
        by_read :
            (r : Result Str)
            → Triple
                (Outcome
                  (λ b. At os channel sent (λ f. Current (ok b) × (f ≡ f0)))
                  (λ e. At os channel sent (λ f. Current (err e) × (f ≡ f0)))
                  r)
                (compare_file os path tmp_dir text r)
                (λ b. At os channel sent (Unchanged false b))
                (λ _. At os channel sent (λ f. f ≡ f0))
        by_read (ok b) = compared (ok b)
        by_read (err e) = compared (err e)

  module _ (dir : Str) where
    abbrev Kept : Str × Str → Type 0
    Kept e = IsName e.0 × (lookup (child_path dir e.0) f0 ≡ some (file e.1))

    pub Does-write_policies_idle :
        (entries : Map Str) (changed : Bool)
        → All Kept entries
        → Does os channel sent
            (λ f. f ≡ f0)
            (write_policies os dir entries changed)
            (Unchanged changed)
            (λ f. f ≡ f0)
    unfolding write_policies
    Does-write_policies_idle [] changed h =
        Triple-pure changed (At-map os channel sent _ _ (λ f e. (refl, e)))
    Does-write_policies_idle ((name, text) ∷ rest) changed h =
        Triple-bind _ _
          (Triple-wrap _ _ _ _
            (Does-write_idle (join dir name) dir text (rw (join-child_path dir name h.0.0) h.0.1)))
          (λ written. Does-assume os channel sent _ (λ e. rw e (
            Does-map os channel sent _ (λ f h. h) (λ c f (p, q). (ground arith, q)) (λ f h. h)
              (Does-write_policies_idle rest (changed || false) h.1))))

    -- An entry that is left alone.
    abbrev pub IsWanted : Map Str → DirEntry → Type 0
    IsWanted desired e =
        e.is_dir ≡ false
        → ext e.name ≡ codes ".json"
        → (text : Str) × (lookup e.name desired ≡ some text)

    pub Does-clean_policies_idle :
        (desired : Map Str) (es : List DirEntry) (changed : Bool)
        → All (IsWanted desired) es
        → Does os channel sent
            (λ f. f ≡ f0)
            (clean_policies os dir desired es changed)
            (Unchanged changed)
            (λ f. f ≡ f0)
    unfolding clean_policies
    Does-clean_policies_idle desired [] changed h =
        Triple-pure changed (At-map os channel sent _ _ (λ f e. (refl, e)))
    Does-clean_policies_idle desired (e ∷ es) changed h =
        Triple-if (e.is_dir || not (ext e.name == codes ".json")) _ _
          (λ other. Does-clean_policies_idle desired es changed h.1)
          (λ json.
            Triple-if (is_desired os (lookup e.name desired)) _ _
              (λ wanted. Does-clean_policies_idle desired es changed h.1)
              (λ stale. absurd (
                not_stale (lookup e.name desired) stale
                  (h.0 (ground arith) (ground (arith, ==_iff (ext e.name) (codes ".json")))))))
      where
        not_stale : (o : Option Str) → is_desired os o ≡ false → (text : Str) × (o ≡ some text) → ⊥
        not_stale none s (text, k) = ground arith
        not_stale (some t) s k = ground arith

module _ (os : Os) (laws : OsLaws os) (channel : Option Bool) (sent : List os.Object) (dir : Str)
    (desired : Map Str) (good : (k v : Str) → lookup k desired ≡ some v → IsPolicyFile k)
    (f0 : Map Node) (once : NodupKeys f0) (exact : IsExact dir desired f0) where
  Does-mkdir_all_once :
      Does os channel sent
        (λ f. f ≡ f0)
        (mkdir_all os dir)
        (λ _ f. NodupKeys f × SameFiles f0 f)
        (λ f. Unit)
  unfolding mkdir_all
  Does-mkdir_all_once =
      Triple-plain os channel sent _ (λ f. f ≡ f0) _ (λ f. Unit)
        (λ f e. rw e (
          made (make_dirs os (ancestors [] dir) f0).0 _
            (make_dirs-NodupKeys os (ancestors [] dir) f0 once)
            (make_dirs-SameFiles os (ancestors [] dir) f0)))
        (λ f e. tt)
    where
      made :
          (r : Result (Unit {0})) (g : Map Node)
          → NodupKeys g
          → SameFiles f0 g
          → Outcome (λ _ f. NodupKeys f × SameFiles f0 f) (λ _ f. Unit) r g
      made (ok u) g n h = (n, h)
      made (err e) g n h = tt

  -- What a listed file is on a disk that holds the same files.
  wanted :
      (g : Map Node)
      → SameFiles f0 g
      → (e : DirEntry) → IsHere dir g e × IsName e.name
      → IsWanted os laws channel sent f0 dir desired e
  wanted g same e (here, n) is_file json =
      let (b, held) = here is_file in
      (
        b,
        (exact e.name (record { is_name = n; json = json }) b).0
            ((same (child_path dir e.name) b).0 held),
      )

  entry-Kept :
      (g : Map Node)
      → SameFiles f0 g
      → (e : Str × Str) → lookup e.0 desired ≡ some e.1
      → Kept os laws channel sent g dir e
  entry-Kept g same e d =
      let is_file = good e.0 e.1 d in
      (is_file.is_name, (same (child_path dir e.0) e.1).1 ((exact e.0 is_file e.1).1 d))

  Does-clean_idle :
      (g : Map Node)
      → NodupKeys g
      → SameFiles f0 g
      → Does os channel sent
          (λ f. f ≡ g)
          (do entries ← read_dir os dir; clean_policies os dir desired entries false)
          (λ b f. (b ≡ false) × SameFiles f0 f)
          (λ f. Unit)
  Does-clean_idle g n same =
      Triple-bind _ _
        (Does-map os channel sent _ (λ f h. h)
          (λ es f (listed, e). (listed ∙ ap (λ x. sort_entries (children dir x)) e, e)) (λ f h. h)
          (Does-read_dir os laws channel sent (λ f. f ≡ g) dir))
        (λ es. Does-assume os channel sent _ (λ listed.
          Does-map os channel sent _ (λ f h. h) (λ c f (p, q). (p, rw q same)) (λ f h. tt)
            (Does-clean_policies_idle os laws channel sent g dir desired es false (
              rw listed (
                All-map _ _ (wanted g same) (sort_entries (children dir g)) (
                  All-both _ _ (sort_entries (children dir g))
                    (All-sort_entries (IsHere dir g) (children dir g) (listed-IsHere dir g n))
                    (listed-IsName dir g)))))))

  pub Does-sync_idle :
      Does os channel sent
        (λ f. f ≡ f0)
        (sync_trust_policy_files os dir desired)
        (λ b f. (b ≡ false) × SameFiles f0 f)
        (λ f. Unit)
  unfolding sync_trust_policy_files
  Does-sync_idle =
      Triple-bind {Q = λ _. At os channel sent (λ f. NodupKeys f × SameFiles f0 f)} _ _
        (Triple-wrap _ _ _ _ Does-mkdir_all_once)
        (λ _. Does-each os channel sent _ (λ g (n, same).
          Triple-bind _ _ (Does-range_desired os laws channel sent (λ f. f ≡ g) desired) (λ entries.
            Does-assume os channel sent _ (λ (each, complete).
              Triple-bind _ _
                (Does-map os channel sent _ (λ f h. h) (λ c f h. h) (λ f h. tt)
                  (Does-write_policies_idle os laws channel sent g dir entries false
                    (All-map _ _ (entry-Kept g same) entries each)))
                (λ changed.
                  Does-assume os channel sent _ (λ e. rw e (Does-clean_idle g n same)))))))
