-- ===== src/Disk/Tree.antt =====
-- The nodes of a disk by their clean paths: what a directory lists, and what lies below a path.
use notation_aws_verifier.Prelude.{
  Str, codes, ltb, eqb, ◌==◌, ◌++◌, Bool, true, false, not, ◌&&◌, ◌||◌, Option, none, some, List,
  [], ◌∷◌, is_empty, if◌then◌else◌,
}
use notation_aws_verifier.Prelude.Map.{Map}
use notation_aws_verifier.Prelude.Text.Scan.{contains_char, cut_prefix}
use notation_aws_verifier.Deps.{DirEntry}

pub data Node : Type 0 where
  file : Str → Node
  directory : Node

-- What is no single element of a path.
abbrev pub is_no_name : Str → Bool
is_no_name s = is_empty s || contains_char s b'/' || s == codes "." || s == codes ".."

-- The entry of `dir` that a path is, if it is one.
unfoldable pub child : Str → Str → Option Str
child dir path = elim (cut_prefix path (dir ++ b'/' ∷ [])) [
  | none ↦ none
  | some rest ↦ if is_no_name rest then none else some rest
]

abbrev pub add_child : Option Str → Node → List DirEntry → List DirEntry
add_child none node es = es
add_child (some name) (file b) es = record { name = name; is_dir = false } ∷ es
add_child (some name) directory es = record { name = name; is_dir = true } ∷ es

unfoldable pub children : Str → Map Node → List DirEntry
unfolding child
children dir [] = []
children dir ((path, node) ∷ files) = add_child (child dir path) node (children dir files)

-- The order of file names.
unfoldable pub name_leb : Str → Str → Bool
name_leb [] t = true
name_leb (a ∷ s) [] = false
name_leb (a ∷ s) (b ∷ t) = ltb a b || (eqb a b && name_leb s t)

unfoldable pub insert_entry : DirEntry → List DirEntry → List DirEntry
unfolding name_leb
insert_entry e [] = e ∷ []
insert_entry e (f ∷ fs) =
    let rest = insert_entry e fs in if name_leb e.name f.name then e ∷ f ∷ fs else f ∷ rest

unfoldable pub sort_entries : List DirEntry → List DirEntry
unfolding insert_entry
sort_entries [] = []
sort_entries (e ∷ es) = insert_entry e (sort_entries es)

-- The path is `dir` or lies below it.
unfoldable pub is_below : Str → Str → Bool
is_below dir path =
    path == dir || (elim (cut_prefix path (dir ++ b'/' ∷ [])) [ none ↦ false | some rest ↦ true ])

-- Deletes what is at or below `dir`, but for the spared paths.
unfoldable pub delete_below : (Str → Bool) → Str → Map Node → Map Node
unfolding is_below
delete_below spared dir [] = []
delete_below spared dir ((path, node) ∷ files) =
    let rest = delete_below spared dir files in
    if is_below dir path && not (spared path) then rest else (path, node) ∷ rest

-- `path` and the directories above it, the outermost first; `above` is what was read of the path.
unfoldable pub ancestors : Str → Str → List Str
ancestors above [] = above ∷ []
ancestors above (x ∷ s) =
    let rest = ancestors (above ++ x ∷ []) s in
    if eqb x b'/' && not (is_empty above) then above ∷ rest else rest
