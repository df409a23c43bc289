-- ===== src/Controller/Policies/Writes.antt =====
-- The writing of the desired files: each is on the disk when the loop is over.
use notation_aws_verifier.Prelude.{
  Str, codes, ℕ, ◌++◌, Bool, true, false, ◌||◌, Option, some, List, [], ◌∷◌, ◌≡◌, ◌≢◌, ◌⊎◌, inl,
  inr, refl, sym, ◌∙◌, ap, arith, All, In,
}
use notation_aws_verifier.Prelude.Exec.Triple.{Triple-pure, Triple-wrap, Triple-bind}
use notation_aws_verifier.Prelude.Map.{Map, lookup}
use notation_aws_verifier.Prelude.Text.Scan.{contains_char, after_last}
use notation_aws_verifier.Cache.Keys.{Lacks}
use notation_aws_verifier.Disk.{Os}
use notation_aws_verifier.Disk.Frames.{
  Except, OsLaws, IsTemp, At, At-map, Does, Does-map, Does-each,
}
use notation_aws_verifier.Disk.Names.{IsName, child_path, child_path_inj, join-child_path}
use notation_aws_verifier.Disk.Paths.{join}
use notation_aws_verifier.Disk.Tree.{Node, file}
use notation_aws_verifier.Factory.Refresh.{ext}
use notation_aws_verifier.Controller.Files.Written.{Written, Does-write_file_if_changed}
use notation_aws_verifier.Controller.Policies.{write_policies}

-- The name of a trust policy file.
pub record IsPolicyFile (name : Str) : Type 0 where
  pub is_name : IsName name
  pub json : ext name ≡ codes ".json"

pub plain_after_last : (s : Str) (c : ℕ) → Lacks c s → after_last s c ≡ s
unfolding after_last contains_char
plain_after_last [] c h = refl
plain_after_last (x ∷ s) c h = ground arith

ext-temp : (r : Str) → Lacks b'/' r → Lacks b'.' r → ext (codes ".tmp-" ++ r) ≡ codes ".tmp-" ++ r
unfolding ext after_last contains_char codes
ext-temp r no_slash no_dot = ground (arith, plain_after_last r b'/', plain_after_last r b'.')

not_json : (r : Str) → (codes ".tmp-" ++ r) ≢ codes ".json"
unfolding codes
not_json r e = ground arith

module _ (os : Os) (laws : OsLaws os) (channel : Option Bool) (sent : List os.Object) (dir : Str)
    (desired : Map Str) (good : (k v : Str) → lookup k desired ≡ some v → IsPolicyFile k) where
  -- The path of a policy file is no path of a temporary file.
  apart : (name : Str) → IsPolicyFile name → ¬ IsTemp dir (join dir name)
  apart name p (r, e, no_slash, no_dot) =
      let same : name ≡ codes ".tmp-" ++ r =
        child_path_inj dir name (codes ".tmp-" ++ r)
          (sym (join-child_path dir name p.is_name) ∙ e) in
      not_json r (sym (ext-temp r no_slash no_dot) ∙ (ap ext (sym same) ∙ p.json))

  abbrev pub Desired : Str × Str → Type 0
  Desired e = lookup e.0 desired ≡ some e.1

  abbrev pub Held : Map Node → Str × Str → Type 0
  Held f e = lookup (child_path dir e.0) f ≡ some (file e.1)

  -- What holds between the writes: those done are on the disk, and without a change it is as it was.
  pub record Writing (f0 : Map Node) (done : Map Str) (changed : Bool) (f : Map Node) : Type 0 where
    pub untouched : changed ≡ false → f ≡ f0
    pub held : All (Held f) done

  -- A write of a desired file loses no other.
  Held-write :
      (f g : Map Node) (e d : Str × Str)
      → Desired e
      → Desired d
      → lookup (child_path dir e.0) g ≡ some (file e.1)
      → Except (λ q. q ≡ child_path dir e.0) f g
      → Held f d
      → Held g d
  Held-write f g e d de dd new same h = elim (same (child_path dir d.0)) [
    | inr kept ↦ kept ∙ h
    | inl p ↦
        let q : d.0 ≡ e.0 = child_path_inj dir d.0 e.0 p in
        let r : e.1 ≡ d.1 = ground (arith, de, dd) in rw q (rw (← r) new)
  ]

  Held-All :
      (f g : Map Node) (e : Str × Str) (done : Map Str)
      → Desired e
      → All Desired done
      → lookup (child_path dir e.0) g ≡ some (file e.1)
      → Except (λ q. q ≡ child_path dir e.0) f g
      → All (Held f) done
      → All (Held g) done
  Held-All f g e [] de dd new same h = tt
  Held-All f g e (d ∷ done) de dd new same h =
      (Held-write f g e d de dd.0 new same h.0, Held-All f g e done de dd.1 new same h.1)

  Writing-step :
      (f0 f g : Map Node) (done : Map Str) (changed written : Bool) (e : Str × Str) (de : Desired e)
      → All Desired done
      → Writing f0 done changed f
      → Written os laws channel sent
          (join dir e.0)
          dir
          e.1
          (apart e.0 (good e.0 e.1 de))
          f
          written
          g
      → Writing f0 (e ∷ done) (changed || written) g
  Writing-step f0 f g done changed true e de dd w (new, same) =
      let p = join-child_path dir e.0 (good e.0 e.1 de).is_name in
      let new' : lookup (child_path dir e.0) g ≡ some (file e.1) = rw (← p) new in
      record {
        untouched = λ h. absurd (ground arith);
        held = (new', Held-All f g e done de dd new' (rw (← p) same) w.held);
      }
  Writing-step f0 f g done changed false e de dd w (old, same) =
      let p = join-child_path dir e.0 (good e.0 e.1 de).is_name in
      rw same
        (record { untouched = λ h. w.untouched (ground arith); held = (rw (← p) old, w.held) })

  pub Does-write_policies :
      (f0 : Map Node) (entries done : Map Str) (changed : Bool)
      → All Desired entries
      → All Desired done
      → Does os channel sent
          (Writing f0 done changed)
          (write_policies os dir entries changed)
          (λ c f.
            (done' : Map Str) × ((e : Str × Str) → In e entries ⊎ In e done → In e done')
            × Writing f0 done' c f)
          (λ f. Unit)
  unfolding write_policies
  Does-write_policies f0 [] done changed he hd = Triple-pure changed (
      At-map os channel sent _ _
        (λ f w. (done, λ e i. elim i [ inl n ↦ elim n [ ] | inr j ↦ j ], w)))
  Does-write_policies f0 ((name, text) ∷ rest) done changed he hd =
      Triple-bind
        {Q = λ written. At os channel sent (Writing f0 ((name, text) ∷ done) (changed || written))}
        _ _
        (Triple-wrap _ _ _ _ (
          Does-each os channel sent _ (λ g w.
            Does-map os channel sent _ (λ f h. h)
              (λ b f new. Writing-step f0 g f done changed b (name, text) he.0 hd w new) (λ f h. tt)
              (Does-write_file_if_changed os laws channel sent (join dir name) dir text
                (apart name (good name text he.0)) g))))
        (λ written.
          Does-map os channel sent _ (λ f h. h)
            (λ c f (done', more, w). (
              done',
              λ e i. more e (elim i [
                | inl (inl p) ↦ inr (inl p)
                | inl (inr j) ↦ inl j
                | inr j ↦ inr (inr j)
              ]),
              w,
            ))
            (λ f h. h)
            (Does-write_policies f0 rest ((name, text) ∷ done) (changed || written) he.1
              (he.0, hd)))
