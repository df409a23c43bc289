-- ===== src/Disk.antt =====
-- The file system as the package `os` shows it. Every call may fail, as the parameter `fault` says
-- for its number. It changes nothing then, but that a write may have written any text and
-- `RemoveAll` may have removed some of what it was to remove.
pub mod Paths
pub mod Tree
pub mod Frames
pub mod Names
pub mod Listed
use notation_aws_verifier.Prelude.{
  Str, codes, ℕ, suc, ◌++◌, Bool, true, false, not, ◌&&◌, ◌||◌, Option, none, some, List, [], ◌∷◌,
  is_empty, if◌then◌else◌,
}
use notation_aws_verifier.Prelude.Exec.{Exec, pure, ◌>>=◌}
use notation_aws_verifier.Prelude.Map.{Map, lookup, insert, delete}
use notation_aws_verifier.Prelude.Result.{Result, ok, err}
use notation_aws_verifier.Deps.{DirEntry}
use notation_aws_verifier.Disk.Tree.{
  Node, file, directory, children, sort_entries, delete_below, ancestors,
}

pub record Os : Type 1 where
  -- what the API server stores
  pub Object : Type 0
  -- the error of a system call, by its number
  pub fault : ℕ → Option Str
  -- the text that a failed write leaves, and the paths that a failed `RemoveAll` has not reached
  pub partial : ℕ → Str → Str
  pub spared : ℕ → Str → Bool
  -- the random part of the name of a temporary file
  pub random : ℕ → Map Node → Str → Str
  pub not_exist : Str
  -- `errors.Is(err, os.ErrNotExist)`, and `os.IsNotExist(err)`
  pub is_not_exist : Str → Bool
  pub not_directory : Str
  pub is_directory : Str
  pub not_empty : Str
  -- the order in which a `range` visits the keys of a map
  pub range_order : ℕ → List Str → List Str
  -- `%q`
  pub quote : Str → Str

-- What a process does to its surroundings: its disk, a channel with one slot (`none` is `nil`, and
-- `some true` a notification that waits), and the objects that it sent to the API server.
pub record Machine (os : Os) : Type 0 where
  pub calls : ℕ
  pub files : Map Node
  pub channel : Option Bool
  pub sent : List os.Object

module _ (os : Os) where
  abbrev pub make_dir : Str → Option Node → Map Node → Result (Unit {0}) × Map Node
  make_dir path none files = (ok tt, insert path directory files)
  make_dir path (some (file b)) files = (err os.not_directory, files)
  make_dir path (some directory) files = (ok tt, files)

  unfoldable pub make_dirs : List Str → Exec (Map Node) (Unit {0})
  make_dirs [] = pure tt
  make_dirs (p ∷ ps) = do made ← (λ files. make_dir p (lookup p files) files); make_dirs ps

  abbrev pub System : Type 0 → Type 0
  System A = Exec (Machine os) A

  abbrev pub answer : {A : Type 0} → Option Str → (Map Node → Result A × Map Node) → System A
  answer none f w =
      let (r, files) = f w.files in (r, record w { calls = suc w.calls; files = files })
  answer (some e) f w = (err e, record w { calls = suc w.calls })

  unfoldable pub syscall : {A : Type 0} → (Map Node → Result A × Map Node) → System A
  syscall f w = answer (os.fault w.calls) f w

  abbrev pub read_node : Option Node → Result Str
  read_node none = err os.not_exist
  read_node (some (file b)) = ok b
  read_node (some directory) = err os.is_directory

  unfoldable pub read_file : Str → System Str
  unfolding syscall
  read_file path = syscall (λ files. (read_node (lookup path files), files))

  unfoldable pub mkdir_all : Str → System (Unit {0})
  unfolding syscall make_dirs ancestors
  mkdir_all path = syscall (make_dirs (ancestors [] path))

  abbrev pub temp_path : ℕ → Map Node → Str → Str
  temp_path n files dir = dir ++ b'/' ∷ (codes ".tmp-" ++ os.random n files dir)

  abbrev pub add_temp : Str → Option Node → Map Node → Result Str × Map Node
  add_temp path none files = (err os.not_exist, files)
  add_temp path (some (file b)) files = (err os.not_directory, files)
  add_temp path (some directory) files = (ok path, insert path (file []) files)

  -- `os.CreateTemp(dir, ".tmp-*")`: the path of a new file.
  unfoldable pub create_temp : Str → System Str
  unfolding syscall
  create_temp dir w =
      let n = w.calls in
      syscall (λ files. add_temp (temp_path n files dir) (lookup dir files) files) w

  abbrev pub written_file : Option Str → Str → Str → System (Unit {0})
  written_file none path b w =
      (ok tt, record w { calls = suc w.calls; files = insert path (file b) w.files })
  written_file (some e) path b w = (
    err e,
    record w { calls = suc w.calls; files = insert path (file (os.partial w.calls b)) w.files },
  )

  -- `Write` on an open file that is empty.
  unfoldable pub write_file : Str → Str → System (Unit {0})
  write_file path b w = written_file (os.fault w.calls) path b w

  -- `Chmod` and `Close`, which change no content.
  unfoldable pub touch : System (Unit {0})
  unfolding syscall
  touch = syscall (λ files. (ok tt, files))

  abbrev pub move : Str → Str → Option Node → Option Node → Map Node → Result (Unit {0}) × Map Node
  move old new none target files = (err os.not_exist, files)
  move old new (some node) (some directory) files = (err os.is_directory, files)
  move old new (some node) none files = (ok tt, insert new node (delete old files))
  move old new (some node) (some (file b)) files = (ok tt, insert new node (delete old files))

  -- `os.Rename` of a file, in one step.
  unfoldable pub rename : Str → Str → System (Unit {0})
  unfolding syscall
  rename old new = syscall (λ files. move old new (lookup old files) (lookup new files) files)

  abbrev pub remove_node : Str → Option Node → Map Node → Result (Unit {0}) × Map Node
  remove_node path none files = (err os.not_exist, files)
  remove_node path (some (file b)) files = (ok tt, delete path files)
  remove_node path (some directory) files =
      if is_empty (children path files)
      then (ok tt, delete path files)
      else (err os.not_empty, files)

  unfoldable pub remove : Str → System (Unit {0})
  unfolding syscall children
  remove path = syscall (λ files. remove_node path (lookup path files) files)

  abbrev pub removed_all : Option Str → Str → System (Unit {0})
  removed_all none path w =
      (ok tt, record w { calls = suc w.calls; files = delete_below (λ q. false) path w.files })
  removed_all (some e) path w = (
    err e,
    record w { calls = suc w.calls; files = delete_below (os.spared w.calls) path w.files },
  )

  unfoldable pub remove_all : Str → System (Unit {0})
  unfolding delete_below
  remove_all path w = removed_all (os.fault w.calls) path w

  abbrev pub list_node : Str → Option Node → Map Node → Result (List DirEntry)
  list_node dir none files = err os.not_exist
  list_node dir (some (file b)) files = err os.not_directory
  list_node dir (some directory) files = ok (sort_entries (children dir files))

  -- `os.ReadDir`.
  unfoldable pub read_dir : Str → System (List DirEntry)
  unfolding syscall children sort_entries
  read_dir dir = syscall (λ files. (list_node dir (lookup dir files) files, files))
