-- ===== src/Controller/Policies/Synced.antt =====
-- `syncTrustPolicyFiles` as a whole.
use notation_aws_verifier.Prelude.{
  Str, Bool, false, Option, some, List, [], ◌≡◌, inl, refl, ◌∙◌, All, In,
}
use notation_aws_verifier.Prelude.Exec.{◌>>=◌}
use notation_aws_verifier.Prelude.Exec.Triple.{Triple-wrap, Triple-bind}
use notation_aws_verifier.Prelude.Map.{Map, lookup}
use notation_aws_verifier.Deps.{DirEntry}
use notation_aws_verifier.Disk.{Os, read_dir}
use notation_aws_verifier.Disk.Frames.{OsLaws, At, Does, Does-map, Does-assume, Does-each}
use notation_aws_verifier.Disk.Names.{listed-IsName}
use notation_aws_verifier.Disk.Tree.{Node, children, sort_entries}
use notation_aws_verifier.Controller.Policies.{
  write_policies, clean_policies, sync_trust_policy_files,
}
use notation_aws_verifier.Controller.Policies.Cleaned.{Does-clean_policies}
use notation_aws_verifier.Controller.Policies.Writes.{IsPolicyFile, Writing, Does-write_policies}
use notation_aws_verifier.Controller.Policies.Exact.{
  SameFiles, IsExact, Does-mkdir_all, Does-read_dir, Does-range_desired, exact,
}

module _ (os : Os) (laws : OsLaws os) (channel : Option Bool) (sent : List os.Object) (dir : Str)
    (desired : Map Str) (good : (k v : Str) → lookup k desired ≡ some v → IsPolicyFile k) where
  abbrev pub Synced : Map Node → Bool → Map Node → Type 0
  Synced f0 changed f = IsExact dir desired f × (changed ≡ false → SameFiles f0 f)

  -- The writes are over: every desired file is there.
  abbrev AllWritten : Map Node → Bool → Map Node → Type 0
  AllWritten g0 changed f =
      (done : Map Str) × ((k v : Str) → lookup k desired ≡ some v → In (k, v) done)
      × Writing os laws channel sent dir desired good g0 done changed f

  Does-clean :
      (f0 g0 : Map Node) (changed : Bool) (es : List DirEntry)
      → SameFiles f0 g0
      → Does os channel sent
          (λ g. (es ≡ sort_entries (children dir g)) × AllWritten g0 changed g)
          (clean_policies os dir desired es changed)
          (Synced f0)
          (λ f. Unit)
  Does-clean f0 g0 changed es same = Does-each os channel sent _ (λ g (listed, (done, complete, w)).
      Does-map os channel sent _
        (λ f e. record {
          untouched = λ h. (h, e);
          removed_only = λ q. inl (rw e refl);
          handled = tt;
        })
        (λ c f (seen, more, cleaning). (
          exact os laws channel sent dir desired good g0 g f done changed c seen complete w
              (λ e i. more e (inl (rw listed i))) cleaning,
          λ h.
              let (unchanged, kept) = cleaning.untouched h in
              rw (kept ∙ w.untouched unchanged) same,
        ))
        (λ f u. u)
        (Does-clean_policies os laws channel sent dir desired g changed es [] changed
          (rw listed (listed-IsName dir g))))

  Does-write :
      (f0 g0 : Map Node) (entries : Map Str)
      → SameFiles f0 g0
      → All (λ (e : Str × Str). lookup e.0 desired ≡ some e.1) entries
      → ((k v : Str) → lookup k desired ≡ some v → In (k, v) entries)
      → Does os channel sent
          (λ f. f ≡ g0)
          (do
            changed ← write_policies os dir entries false
            es ← read_dir os dir
            clean_policies os dir desired es changed)
          (Synced f0)
          (λ f. Unit)
  Does-write f0 g0 entries same each complete =
      Triple-bind {Q = λ changed. At os channel sent (AllWritten g0 changed)} _ _
        (Does-map os channel sent _ (λ f e. record { untouched = λ _. e; held = tt })
          (λ changed f (done, more, w). (done, λ k v h. more (k, v) (inl (complete k v h)), w))
          (λ f u. u)
          (Does-write_policies os laws channel sent dir desired good g0 entries [] false each tt))
        (λ changed.
          Triple-bind _ _ (Does-read_dir os laws channel sent (AllWritten g0 changed) dir)
            (λ es. Does-clean f0 g0 changed es same))

  pub Does-sync_trust_policy_files :
      (f0 : Map Node)
      → Does os channel sent
          (λ f. f ≡ f0)
          (sync_trust_policy_files os dir desired)
          (Synced f0)
          (λ f. Unit)
  unfolding sync_trust_policy_files
  Does-sync_trust_policy_files f0 =
      Triple-bind {Q = λ _. At os channel sent (SameFiles f0)} _ _
        (Triple-wrap _ _ _ _ (Does-mkdir_all os laws channel sent dir f0))
        (λ _. Does-each os channel sent _ (λ g0 same.
          Triple-bind _ _ (Does-range_desired os laws channel sent (λ f. f ≡ g0) desired)
            (λ entries.
              Does-assume os channel sent _
                (λ (each, complete). Does-write f0 g0 entries same each complete))))
