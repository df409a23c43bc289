-- ===== src/Verify/Outcome/Groups.antt =====
-- The loops over the groups of images.
use notation_aws_verifier.Prelude.{Str, codes, Bool, true, some, List, [], ◌∷◌, ◌≡◌, All, arith}
use notation_aws_verifier.Prelude.Map.{Map, lookup}
use notation_aws_verifier.Deps.{Deps, RistrettoLaws, KyvernoLaws}
use notation_aws_verifier.Response.{Response}
use notation_aws_verifier.Types.{ImageInfo}
use notation_aws_verifier.Verify.Evidence.{Under}
use notation_aws_verifier.Verify.Registry.{RequestVerifier}
use notation_aws_verifier.Verify.Outcome.Responses.{one_from, images_from, group_from, groups_from}
use notation_aws_verifier.Verify.Outcome.Progress.{
  Progress, Progress-refl, Progress-trans, Checked, Checked-Extends, Extends, report_lem,
}
use notation_aws_verifier.Verify.Sound.Attestations.{P, Keeps-range}
use notation_aws_verifier.Prelude.Exec.Keeps.{
  Keeps, Keeps-pure, Keeps-wrap, Keeps-if, Keeps-bind, Keeps-map,
}
use notation_aws_verifier.Types.{ImageInfos}
use notation_aws_verifier.Deps.{RangeLaws}
use notation_aws_verifier.Prelude.{not, All-In}
use notation_aws_verifier.Verify.Sound.References.{Keeps-verify_image_info}
use notation_aws_verifier.Verify.Sound.References.{PlainNames}

both_ways : (b : Bool) → not b ≡ true → b ≡ true → ⊥
both_ways b h k = ground arith

module _ (d : Deps) (laws : RistrettoLaws d.ristretto) (fair : RangeLaws d)
    (kl : KyvernoLaws d.kyverno) (vs : Map d.Verifier) (names : PlainNames vs)
    (rv : RequestVerifier d) (under : Under d vs rv.trust_policy rv) (refs : List Str) where
  open d use {Info, Condition, info_string, info_digest}

  abbrev Grows : Response Condition → Response Condition → Type 0
  Grows = Progress d laws kl vs names rv under

  abbrev pub IsChecked : ImageInfo Info → Response Condition → Type 0
  IsChecked = Checked d laws kl vs names rv under refs

  Keeps-one_from :
      (kind : Str) (image : ImageInfo Info) (r : Response Condition)
      → Keeps
          (P d laws vs)
          (one_from d rv refs kind image r)
          (λ r'. Grows r r' × IsChecked image r')
  unfolding one_from
  Keeps-one_from kind image r =
      Keeps-if _ _ _ _
        (λ other. Keeps-pure r (
          Progress-refl d laws kl vs names rv under r,
          λ selected. absurd (both_ways _ other selected),
        ))
        (λ _.
          Keeps-bind _ _
            (Keeps-wrap _ _ _ (Keeps-verify_image_info d laws vs rv kl names under image))
            (λ result v.
              Keeps-pure _ (report_lem d laws kl vs names rv under refs image result r v)))

  abbrev AllChecked : Map (ImageInfo Info) → Response Condition → Type 0
  AllChecked es r = All (λ (e : Str × ImageInfo Info). IsChecked e.1 r) es

  Keeps-images_from :
      (kind : Str) (es : Map (ImageInfo Info)) (r : Response Condition)
      → Keeps (P d laws vs) (images_from d rv refs kind es r) (λ r'. Grows r r' × AllChecked es r')
  unfolding images_from
  Keeps-images_from kind [] r = Keeps-pure r (Progress-refl d laws kl vs names rv under r, tt)
  Keeps-images_from kind ((name, image) ∷ rest) r =
      Keeps-bind _ _ (Keeps-one_from kind image r) (λ r1 (p, c).
        Keeps-map _ _ _
          (λ r2 (q, cs). (
            Progress-trans d laws kl vs names rv under r r1 r2 p q,
            (Checked-Extends d laws kl vs names rv under refs image r1 r2 q.extends c, cs),
          ))
          (Keeps-images_from kind rest r1))

  -- Every image of the group is checked in the response.
  abbrev pub GroupChecked : Map (ImageInfo Info) → Response Condition → Type 0
  GroupChecked images r =
      (name : Str) (image : ImageInfo Info) → lookup name images ≡ some image → IsChecked image r

  Keeps-group_from :
      (kind : Str) (images : Map (ImageInfo Info)) (r : Response Condition)
      → Keeps
          (P d laws vs)
          (group_from d rv refs kind images r)
          (λ r'. Grows r r' × GroupChecked images r')
  unfolding group_from
  Keeps-group_from kind images r = Keeps-bind _ _ (Keeps-range d laws vs fair images) (λ es all.
      Keeps-map _ _ _
        (λ r' (p, cs). (
          p,
          λ name image found.
              All-In (λ (e : Str × ImageInfo Info). IsChecked e.1 r') es (name, image) cs
                (all name image found),
        ))
        (Keeps-images_from kind es r))

  -- The images of the three groups are all checked.
  pub record GroupsChecked (images : ImageInfos Info) (r : Response Condition) : Type 0 where
    pub containers : GroupChecked images.containers r
    pub init_containers : GroupChecked images.init_containers r
    pub ephemeral_containers : GroupChecked images.ephemeral_containers r

  later :
      (images : Map (ImageInfo Info)) (r r' : Response Condition)
      → Extends d laws kl vs names rv under r r'
      → GroupChecked images r
      → GroupChecked images r'
  later images r r' p c name image found =
      Checked-Extends d laws kl vs names rv under refs image r r' p (c name image found)

  pub GroupsChecked-Extends :
      (images : ImageInfos Info) (r r' : Response Condition)
      → Extends d laws kl vs names rv under r r'
      → GroupsChecked images r
      → GroupsChecked images r'
  GroupsChecked-Extends images r r' p c = record {
    containers = later images.containers r r' p c.containers;
    init_containers = later images.init_containers r r' p c.init_containers;
    ephemeral_containers = later images.ephemeral_containers r r' p c.ephemeral_containers;
  }

  pub Keeps-groups_from :
      (images : ImageInfos Info) (r : Response Condition)
      → Keeps
          (P d laws vs)
          (groups_from d rv refs images r)
          (λ r'. Grows r r' × GroupsChecked images r')
  unfolding groups_from
  Keeps-groups_from images r =
      Keeps-bind _ _ (Keeps-group_from (codes "container") images.containers r) (λ r1 (p1, c1).
        Keeps-bind _ _ (Keeps-group_from (codes "init container") images.init_containers r1)
          (λ r2 (p2, c2).
            Keeps-map _ _ _
              (λ r3 (p3, c3). (
                Progress-trans d laws kl vs names rv under r r1 r3 p1
                    (Progress-trans d laws kl vs names rv under r1 r2 r3 p2 p3),
                record {
                  containers =
                      later images.containers r1 r3
                        (Progress-trans d laws kl vs names rv under r1 r2 r3 p2 p3).extends c1;
                  init_containers = later images.init_containers r2 r3 p3.extends c2;
                  ephemeral_containers = c3;
                },
              ))
              (Keeps-group_from (codes "ephemeral container") images.ephemeral_containers r2)))
