-- ===== src/Flags/Joined.antt =====
-- `splitList` of utils.go against the lists that a flag can spell.
use notation_aws_verifier.Prelude.{
  Str, ◌++◌, List, [], ◌∷◌, All, ◌≡◌, ◌≢◌, if◌then◌else◌, refl, ap, is_empty,
}
use notation_aws_verifier.Prelude.Text.Split.{
  split, split-append, split-plain, trim_space, trim_space-fixed,
}
use notation_aws_verifier.Cache.Keys.{Lacks}
use notation_aws_verifier.Flags.{keep_items, split_list}
use notation_aws_verifier.Flags.Checked.{IsTrimmed}

-- The value of a flag that lists these elements.
abbrev pub join_items : List Str → Str
join_items [] = []
join_items (x ∷ []) = x
join_items (x ∷ y ∷ xs) = x ++ b',' ∷ join_items (y ∷ xs)

-- What can be an element.
abbrev pub IsItem : Str → Type 0
IsItem item = IsTrimmed item × Lacks b',' item

keep_items-item :
    (x : Str) (parts : List Str) → IsItem x → keep_items (x ∷ parts) ≡ x ∷ keep_items parts
unfolding keep_items
keep_items-item x parts ((full, first, last), _) =
    rw (trim_space-fixed x first last) (by_text x full)
  where
    by_text :
        (y : Str)
        → y ≢ []
        → (let out = keep_items parts in if is_empty y then out else y ∷ out) ≡ y ∷ keep_items parts
    by_text [] h = absurd (h refl)
    by_text (c ∷ y) h = refl

-- If the elements are not empty, have no blank at either end and no comma, then `splitList` gives
-- back the list whose elements are joined by commas.
pub split_list-join_items : (xs : List Str) → All IsItem xs → split_list (join_items xs) ≡ xs
unfolding split_list split keep_items trim_space
split_list-join_items [] h = refl
split_list-join_items (x ∷ []) h = rw (split-plain x b',' h.0.1) (keep_items-item x [] h.0)
split_list-join_items (x ∷ y ∷ xs) h = rw (split-append x (join_items (y ∷ xs)) b',' h.0.1) (
    rw (keep_items-item x (split (join_items (y ∷ xs)) b',') h.0)
      (ap (λ zs. x ∷ zs) (split_list-join_items (y ∷ xs) h.1)))
