-- ===== src/Disk/Names.antt =====
-- Names of files: a single element of a path joins to a child of the directory, and `ReadDir`
-- lists every child.
use notation_aws_verifier.Prelude.{
  ap, Str, codes, ℕ, ◌==◌, ==_iff, ◌++◌, Bool, Bool-cases, true, false, Option, none, some, List,
  [], ◌∷◌, ◌≡◌, ◌≢◌, ◌∙◌, ◌⊎◌, inl, inr, refl, arith, In, All, if◌then◌else◌, if_both,
}
use mathlib.Core.List.{append_assoc}
use notation_aws_verifier.Prelude.Map.{Map, lookup}
use notation_aws_verifier.Prelude.Text.Scan.{contains_char, cut_prefix, cut_prefix-eq-some}
use notation_aws_verifier.Prelude.Text.Split.{split}
use notation_aws_verifier.Cache.Keys.{Lacks}
use notation_aws_verifier.Deps.{DirEntry}
use notation_aws_verifier.Disk.Paths.{enter, walk, join}
use notation_aws_verifier.Disk.Tree.{
  Node, file, directory, is_no_name, child, add_child, children, name_leb, insert_entry,
  sort_entries,
}

-- A single element of a path that is no `.` or `..`.
pub record IsName (s : Str) : Type 0 where
  pub filled : s ≢ []
  pub no_dot : s ≢ codes "."
  pub no_dots : s ≢ codes ".."
  pub no_slash : Lacks b'/' s

abbrev pub child_path : Str → Str → Str
child_path dir name = dir ++ b'/' ∷ name

pub split_plain : (s : Str) (c : ℕ) → Lacks c s → split s c ≡ s ∷ []
unfolding split contains_char
split_plain [] c h = refl
split_plain (x ∷ s) c h = ground (arith, split_plain s c)

pub enter-child_path :
    (dir s : Str) → s ≢ [] → s ≢ codes "." → s ≢ codes ".." → enter dir s ≡ child_path dir s
unfolding enter
enter-child_path dir [] filled h k = absurd (filled refl)
enter-child_path dir (x ∷ s) filled h k =
    ground (arith, ==_iff (x ∷ s) (codes "."), ==_iff (x ∷ s) (codes ".."))

-- Joining a single element of a path to a directory gives a child of the directory, never a path
-- outside it.
pub join-child_path : (dir s : Str) → IsName s → join dir s ≡ child_path dir s
unfolding join walk
join-child_path dir s n =
    rw (split_plain s b'/' n.no_slash) (enter-child_path dir s n.filled n.no_dot n.no_dots)

pub child_path_inj : (dir s t : Str) → child_path dir s ≡ child_path dir t → s ≡ t
child_path_inj [] s t e = ground arith
child_path_inj (x ∷ dir) s t e = child_path_inj dir s t (ground arith)

pub cut_prefix-child_path :
    (dir s : Str) → cut_prefix (child_path dir s) (dir ++ b'/' ∷ []) ≡ some s
unfolding cut_prefix
cut_prefix-child_path [] s = refl
cut_prefix-child_path (x ∷ dir) s = ground (arith, cut_prefix-child_path dir s)

plain-IsName : (s : Str) → is_no_name s ≡ false → IsName s
plain-IsName s h = record {
  filled = λ e. absurd (ground arith);
  no_dot = λ e. absurd (ground (arith, ==_iff s (codes ".")));
  no_dots = λ e. absurd (ground (arith, ==_iff s (codes "..")));
  no_slash = ground arith;
}

of_IsName : (s : Str) → IsName s → is_no_name s ≡ false
of_IsName [] n = absurd (n.filled refl)
of_IsName (x ∷ s) n = ground (
  arith,
  ==_iff (x ∷ s) (codes "."),
  ==_iff (x ∷ s) (codes ".."),
  n.no_dot,
  n.no_dots,
  n.no_slash,
)

child-child_path : (dir s : Str) → IsName s → child dir (child_path dir s) ≡ some s
unfolding child
child-child_path dir s n = ground (arith, cut_prefix-child_path dir s, of_IsName s n)

child-IsName : (dir path s : Str) → child dir path ≡ some s → IsName s
unfolding child
child-IsName dir path s h = by_cut (cut_prefix path (dir ++ b'/' ∷ [])) h
  where
    by_cut :
        (o : Option Str)
        → (elim o [ none ↦ none | some rest ↦ if is_no_name rest then none else some rest ])
          ≡ some s
        → IsName s
    by_cut none h = absurd (ground arith)
    by_cut (some rest) h = elim (Bool-cases (is_no_name rest)) [
      | inl bad ↦ absurd (ground arith)
      | inr good ↦ let e : rest ≡ s = ground arith in rw (← e) (plain-IsName rest good)
    ]

-- The entry stands for the path that it was found at.
pub child-eq-some : (dir path s : Str) → child dir path ≡ some s → path ≡ child_path dir s
unfolding child
child-eq-some dir path s h = by_cut (cut_prefix path (dir ++ b'/' ∷ [])) refl h
  where
    by_cut :
        (o : Option Str)
        → cut_prefix path (dir ++ b'/' ∷ []) ≡ o
        → (elim o [ none ↦ none | some rest ↦ if is_no_name rest then none else some rest ])
          ≡ some s
        → path ≡ child_path dir s
    by_cut none at h = absurd (ground arith)
    by_cut (some rest) at h = elim (Bool-cases (is_no_name rest)) [
      | inl bad ↦ absurd (ground arith)
      | inr good ↦
          let e : rest ≡ s = ground arith in
          cut_prefix-eq-some path (dir ++ b'/' ∷ []) rest at
          ∙ (append_assoc dir (b'/' ∷ []) rest ∙ ap (child_path dir) e)
    ]

All-add_child :
    (dir path : Str) (o : Option Str)
    → child dir path ≡ o
    → (node : Node) (es : List DirEntry) → All (λ (e : DirEntry). IsName e.name) es
    → All (λ (e : DirEntry). IsName e.name) (add_child o node es)
All-add_child dir path none h node es rest = rest
All-add_child dir path (some s) h (file b) es rest = (child-IsName dir path s h, rest)
All-add_child dir path (some s) h directory es rest = (child-IsName dir path s h, rest)

children-IsName :
    (dir : Str) (f : Map Node) → All (λ (e : DirEntry). IsName e.name) (children dir f)
unfolding children
children-IsName dir [] = tt
children-IsName dir ((path, node) ∷ f) =
    All-add_child dir path (child dir path) refl node (children dir f) (children-IsName dir f)

abbrev pub is_directory : Node → Bool
is_directory (file b) = false
is_directory directory = true

In-add_child :
    (x : DirEntry) (o : Option Str) (node : Node) (es : List DirEntry)
    → In x es
    → In x (add_child o node es)
In-add_child x none node es i = i
In-add_child x (some s) (file b) es i = inr i
In-add_child x (some s) directory es i = inr i

In-children :
    (dir s : Str)
    → IsName s
    → (node : Node) (f : Map Node) → lookup (child_path dir s) f ≡ some node
    → In (record { name = s; is_dir = is_directory node }) (children dir f)
unfolding children lookup
In-children dir s n node [] h = absurd (ground arith)
In-children dir s n node ((path, m) ∷ f) h = elim (Bool-cases (path == child_path dir s)) [
  | inl same ↦
      let e : path ≡ child_path dir s = (==_iff path (child_path dir s)).0 same in
      let e' : m ≡ node = ground arith in rw (e, child-child_path dir s n, e') (here node)
  | inr other ↦
      In-add_child _ (child dir path) m (children dir f) (In-children dir s n node f (ground arith))
]
  where
    here :
        (node : Node)
        → In
            (record { name = s; is_dir = is_directory node })
            (add_child (some s) node (children dir f))
    here (file b) = inl refl
    here directory = inl refl

In-insert_entry :
    (x e : DirEntry) (es : List DirEntry) → (x ≡ e) ⊎ In x es → In x (insert_entry e es)
unfolding insert_entry
In-insert_entry x e [] h = h
In-insert_entry x e (f ∷ fs) h =
    if_both (In x) (name_leb e.name f.name) (e ∷ f ∷ fs) (f ∷ insert_entry e fs) (λ _. h)
      (λ _. elim h [
        | inl p ↦ inr (In-insert_entry x e fs (inl p))
        | inr (inl p) ↦ inl p
        | inr (inr i) ↦ inr (In-insert_entry x e fs (inr i))
      ])

In-sort_entries : (x : DirEntry) (es : List DirEntry) → In x es → In x (sort_entries es)
unfolding sort_entries
In-sort_entries x [] i = i
In-sort_entries x (e ∷ es) (inl p) = In-insert_entry x e (sort_entries es) (inl p)
In-sort_entries x (e ∷ es) (inr i) =
    In-insert_entry x e (sort_entries es) (inr (In-sort_entries x es i))

All-insert_entry {κ} :
    (P : DirEntry → Type κ) (e : DirEntry) (es : List DirEntry)
    → P e
    → All P es
    → All P (insert_entry e es)
unfolding insert_entry
All-insert_entry P e [] p h = (p, tt)
All-insert_entry P e (f ∷ fs) p h =
    if_both (All P) (name_leb e.name f.name) (e ∷ f ∷ fs) (f ∷ insert_entry e fs) (λ _. (p, h))
      (λ _. (h.0, All-insert_entry P e fs p h.1))

pub All-sort_entries {κ} :
    (P : DirEntry → Type κ) (es : List DirEntry) → All P es → All P (sort_entries es)
unfolding sort_entries
All-sort_entries P [] h = tt
All-sort_entries P (e ∷ es) h =
    All-insert_entry P e (sort_entries es) h.0 (All-sort_entries P es h.1)

-- What `ReadDir` lists are names, and every child is listed.
pub listed-IsName :
    (dir : Str) (f : Map Node)
    → All (λ (e : DirEntry). IsName e.name) (sort_entries (children dir f))
listed-IsName dir f = All-sort_entries _ (children dir f) (children-IsName dir f)

pub In-listed :
    (dir s : Str)
    → IsName s
    → (node : Node) (f : Map Node) → lookup (child_path dir s) f ≡ some node
    → In (record { name = s; is_dir = is_directory node }) (sort_entries (children dir f))
In-listed dir s n node f h = In-sort_entries _ (children dir f) (In-children dir s n node f h)
