-- ===== src/Controller/Stores/Paths.antt =====
-- The paths of the trust stores: a store's key is its type, a slash and its name.
use mathlib.Core.List.{append_assoc}
use notation_aws_verifier.Prelude.{
  Str, ◌==◌, ==_iff, ◌++◌, Bool-cases, true, false, Option, none, some, [], ◌∷◌, ◌≡◌, inl, inr,
  refl, sym, ap₂, ◌⊎◌, ◌∙◌, arith, if◌then◌else◌,
}
use notation_aws_verifier.Prelude.Map.{Map, lookup}
use notation_aws_verifier.Prelude.Text.Scan.{contains_char, cut_prefix, cut_prefix-eq-some}
use notation_aws_verifier.Prelude.Text.Split.{split-append}
use notation_aws_verifier.Cache.Keys.{Lacks}
use notation_aws_verifier.Disk.Names.{
  IsName, child_path, child_path_inj, enter-child_path, split_plain, cut_prefix-child_path,
}
use notation_aws_verifier.Disk.Paths.{enter, walk, join}
use notation_aws_verifier.Disk.Tree.{Node, is_below, delete_below}
use notation_aws_verifier.Controller.Stores.Defs.{cert_file}

-- A type and a name joined.
pub record IsStoreKey (k : Str) : Type 0 where
  pub type : Str
  pub name : Str
  pub is_type : IsName type
  pub is_name : IsName name
  pub joined : k ≡ child_path type name

-- The bundle of a store.
abbrev pub cert_path : Str → Str → Str
cert_path root k = child_path (child_path root k) cert_file

-- What stands before the first slash, and behind it.
pub slash_inj :
    (s t u v : Str)
    → Lacks b'/' s
    → Lacks b'/' t
    → s ++ b'/' ∷ u ≡ t ++ b'/' ∷ v
    → (s ≡ t) × (u ≡ v)
unfolding contains_char
slash_inj [] [] u v hs ht e = ground arith
slash_inj [] (y ∷ t) u v hs ht e = absurd (ground arith)
slash_inj (x ∷ s) [] u v hs ht e = absurd (ground arith)
slash_inj (x ∷ s) (y ∷ t) u v hs ht e = ground (arith, slash_inj s t u v)

pub not_Lacks : (s u : Str) → Lacks b'/' (s ++ b'/' ∷ u) → ⊥
unfolding contains_char
not_Lacks [] u h = ground arith
not_Lacks (x ∷ s) u h = ground (arith, not_Lacks s u)

-- A path below a directory of a directory.
pub child_path_assoc :
    (root t n : Str) → child_path (child_path root t) n ≡ child_path root (child_path t n)
child_path_assoc root t n = append_assoc root (b'/' ∷ t) (b'/' ∷ n)

-- Joining the key of a store to the root gives the store's directory.
pub join-store_path : (root k : Str) → IsStoreKey k → join root k ≡ child_path root k
unfolding join walk
join-store_path root k key =
    rw
      (
        key.joined,
        split-append key.type key.name b'/' key.is_type.no_slash,
        split_plain key.name b'/' key.is_name.no_slash,
      )
      (rw (enter_name root key.type key.is_type) (
        enter_name (child_path root key.type) key.name key.is_name
        ∙ child_path_assoc root key.type key.name))
  where
    enter_name : (dir s : Str) → IsName s → enter dir s ≡ child_path dir s
    enter_name dir s n = enter-child_path dir s n.filled n.no_dot n.no_dots

-- The directory of a type is no bundle, and neither is that of a store.
pub type-ne-cert_path :
    (root t k : Str) → IsName t → IsStoreKey k → child_path root t ≡ cert_path root k → ⊥
type-ne-cert_path root t k n key e = not_Lacks k cert_file (
    rw (child_path_inj root t (child_path k cert_file) (e ∙ child_path_assoc root k cert_file)) at
      n.no_slash)

-- What lies below a key lies below its type.
key_spread :
    (k r : Str) (key : IsStoreKey k) → child_path k r ≡ child_path key.type (child_path key.name r)
key_spread k r key = rw key.joined (child_path_assoc key.type key.name r)

-- Paths below two keys are equal only if the keys are.
pub key_prefix_inj :
    (k j r s : Str) → IsStoreKey k → IsStoreKey j → child_path k r ≡ child_path j s → k ≡ j
key_prefix_inj k j r s hk hj e =
    let (p, q) =
      slash_inj hk.type hj.type _ _ hk.is_type.no_slash hj.is_type.no_slash
        (sym (key_spread k r hk) ∙ (e ∙ key_spread j s hj)) in
    let (p', q') = slash_inj hk.name hj.name r s hk.is_name.no_slash hj.is_name.no_slash q in
    hk.joined ∙ (ap₂ child_path p p' ∙ sym hj.joined)

-- A key has one slash: it is nothing below another key.
pub key-ne-below : (k j r : Str) → IsStoreKey k → IsStoreKey j → k ≡ child_path j r → ⊥
key-ne-below k j r hk hj e =
    let (p, q) =
      slash_inj hk.type hj.type hk.name _ hk.is_type.no_slash hj.is_type.no_slash
        (sym hk.joined ∙ (e ∙ key_spread j r hj)) in
    not_Lacks hj.name r (rw q at hk.is_name.no_slash)

pub name-ne-key : (t k : Str) → IsName t → IsStoreKey k → t ≡ k → ⊥
name-ne-key t k n key e = not_Lacks key.type key.name (rw (e ∙ key.joined) at n.no_slash)

pub name-ne-below : (t k r : Str) → IsName t → t ≡ child_path k r → ⊥
name-ne-below t k r n e = not_Lacks k r (rw e at n.no_slash)

pub cert_path_inj :
    (root k j : Str) → IsStoreKey k → IsStoreKey j → cert_path root k ≡ cert_path root j → k ≡ j
cert_path_inj root k j hk hj e = key_prefix_inj k j cert_file cert_file hk hj (
    child_path_inj root _ _
      (sym (child_path_assoc root k cert_file) ∙ (e ∙ child_path_assoc root j cert_file)))

-- A path at or below a directory.
below-cases :
    (dir path : Str)
    → is_below dir path ≡ true
    → (path ≡ dir) ⊎ ((r : Str) × (path ≡ child_path dir r))
unfolding is_below
below-cases dir path h = elim (Bool-cases (path == dir)) [
  | inl same ↦ inl ((==_iff path dir).0 same)
  | inr other ↦ by_cut (cut_prefix path (dir ++ b'/' ∷ [])) refl (ground arith)
]
  where
    by_cut :
        (o : Option Str)
        → cut_prefix path (dir ++ b'/' ∷ []) ≡ o
        → (elim o [ none ↦ false | some rest ↦ true ]) ≡ true
        → (path ≡ dir) ⊎ ((r : Str) × (path ≡ child_path dir r))
    by_cut none e t = absurd (ground arith)
    by_cut (some r) e t =
        inr (r, cut_prefix-eq-some path (dir ++ b'/' ∷ []) r e ∙ append_assoc dir (b'/' ∷ []) r)

pub below_child : (dir s : Str) → is_below dir (child_path dir s) ≡ true
unfolding is_below
below_child dir s = ground (arith, cut_prefix-child_path dir s)

-- Of the paths of the stores, only a store's own directory and bundle lie at or below the
-- directory.
pub below-cert_path :
    (root k j : Str)
    → IsStoreKey k
    → IsStoreKey j
    → is_below (child_path root k) (cert_path root j) ≡ true
    → j ≡ k
below-cert_path root k j hk hj h = elim (below-cases _ _ h) [
  | inl e ↦ absurd (
      key-ne-below k j cert_file hk hj
        (child_path_inj root k _ (sym e ∙ child_path_assoc root j cert_file)))
  | inr (r, e) ↦ key_prefix_inj j k cert_file r hj hk (
      child_path_inj root _ _
        (sym (child_path_assoc root j cert_file) ∙ (e ∙ child_path_assoc root k r)))
]

pub below-store_path :
    (root k j : Str)
    → IsStoreKey k
    → IsStoreKey j
    → is_below (child_path root k) (child_path root j) ≡ true
    → j ≡ k
below-store_path root k j hk hj h = elim (below-cases _ _ h) [
  | inl e ↦ child_path_inj root j k e
  | inr (r, e) ↦
      absurd (key-ne-below j k r hj hk (child_path_inj root j _ (e ∙ child_path_assoc root k r)))
]

pub below-type_path :
    (root k t : Str)
    → IsStoreKey k
    → IsName t
    → is_below (child_path root k) (child_path root t) ≡ false
below-type_path root k t hk n =
    elim (Bool-cases (is_below (child_path root k) (child_path root t))) [
      | inr no_more ↦ no_more
      | inl h ↦ elim (below-cases _ _ h) [
        | inl e ↦ absurd (name-ne-key t k n hk (child_path_inj root t k e))
        | inr (r, e) ↦
            absurd (name-ne-below t k r n (child_path_inj root t _ (e ∙ child_path_assoc root k r)))
      ]
    ]

pub lookup-delete_below :
    (dir q : Str) (f : Map Node)
    → lookup q (delete_below (λ _. false) dir f) ≡ (if is_below dir q then none else lookup q f)
unfolding lookup delete_below
lookup-delete_below dir q [] = ground arith
lookup-delete_below dir q ((p, n) ∷ f) = ground (arith, lookup-delete_below dir q f, ==_iff p q)
