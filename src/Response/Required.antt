-- ===== src/Response/Required.antt =====
-- What a policy requires of one image, read off the attestations without the response's map.
use mathlib.Core.List.{append-nil}
use mathlib.Core.Option
use notation_aws_verifier.Prelude.{
  Str, ◌==◌, ==_iff, ==_refl, ap, ◌++◌, not, ◌||◌, Option, some, List, [], ◌∷◌, ◌≡◌, refl, arith,
  is_empty, if◌then◌else◌,
}
use notation_aws_verifier.Prelude.Map.{lookup, lookup-insert}
use notation_aws_verifier.Types.{
  AnyAllConditions, AttestationType, AttestationsInfo, AttestationList,
}
use notation_aws_verifier.Deps.{Kyverno}
use notation_aws_verifier.Response.{add_type}

module _ (k : Kyverno) where
  open k use {Condition, wildcard_match}

  -- The types that the policy asks for at an image, in the order of the policy.
  unfoldable pub types_for :
      Str → List (AttestationsInfo Condition) → List (AttestationType Condition)
  types_for img [] = []
  types_for img (a ∷ as') =
      let rest = types_for img as' in
      if wildcard_match a.image_reference img then a.types ++ rest else rest

  unfoldable pub add_types :
      List (AttestationType Condition) → AttestationList Condition → AttestationList Condition
  add_types [] l = l
  add_types (t ∷ ts) l = add_types ts (add_type k t l)

  -- The conditions that one type adds: an empty `any` and `all` adds none.
  abbrev pub own_conditions : AttestationType Condition → List (AnyAllConditions Condition)
  own_conditions t =
      if not (is_empty t.conditions.all_conditions) || not (is_empty t.conditions.any_conditions)
      then t.conditions ∷ []
      else []

  -- `none` if no type has the name, otherwise the conditions of all the types with that name.
  abbrev pub join :
      Option (List (AnyAllConditions Condition))
      → AttestationType Condition
      → Option (List (AnyAllConditions Condition))
  join o t = some (Option.get_or o [] ++ own_conditions t)

  unfoldable pub conditions_named :
      Str
      → List (AttestationType Condition)
      → Option (List (AnyAllConditions Condition))
      → Option (List (AnyAllConditions Condition))
  conditions_named name [] o = o
  conditions_named name (t ∷ ts) o =
      conditions_named name ts (if t.name == name then join o t else o)

  lookup-add_type :
      (name : Str) (t : AttestationType Condition) (l : AttestationList Condition)
      → lookup name (add_type k t l)
        ≡ (if t.name == name then join (lookup name l) t else lookup name l)
  unfolding add_type
  lookup-add_type name t l =
      grind (arith, lookup-insert, ==_iff t.name name, ==_refl t.name, append-nil)

  -- After types are added to a map, each name has what it had, followed by the conditions of the
  -- types with that name.
  pub lookup-add_types :
      (name : Str) (ts : List (AttestationType Condition)) (l : AttestationList Condition)
      → lookup name (add_types ts l) ≡ conditions_named name ts (lookup name l)
  unfolding add_types conditions_named
  lookup-add_types name [] l = refl
  lookup-add_types name (t ∷ ts) l =
      rw (lookup-add_types name ts (add_type k t l))
        (ap (conditions_named name ts) (lookup-add_type name t l))
