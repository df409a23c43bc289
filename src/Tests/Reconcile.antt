-- ===== src/Tests/Reconcile.antt =====
-- The theorems on the reconciler at the small disk and API server.
use notation_aws_verifier.Prelude.{
  Str, codes, ℕ, In, Bool-cases, inl, inr, ◌==◌, ==_iff, ◌++◌, Bool, true, false, Option, none,
  some, List, [], ◌∷◌, ◌≡◌, ◌⊎◌, refl, arith,
}
use notation_aws_verifier.Prelude.Exec.{wrap, attempt, ◌>>=◌}
use notation_aws_verifier.Prelude.Map.{Map, NodupKeys, count, lookup, insert, delete, entries_at}
use notation_aws_verifier.Prelude.Result.{ok, err}
use notation_aws_verifier.Prelude.Text.Scan.{contains_char, contains_any, after_last, cut_prefix}
use notation_aws_verifier.Prelude.Text.Split.{split}
use notation_aws_verifier.Disk.{
  Machine, make_dirs, syscall, read_file, mkdir_all, create_temp, write_file, touch, rename, remove,
  read_dir,
}
use notation_aws_verifier.Disk.Frames.{Except, IsTemp}
use notation_aws_verifier.Disk.Names.{child_path}
use notation_aws_verifier.Cache.Keys.{Lacks}
use notation_aws_verifier.Disk.Paths.{parent, enter, walk, join}
use notation_aws_verifier.Disk.Tree.{
  file, directory, child, children, name_leb, insert_entry, sort_entries, ancestors,
}
use notation_aws_verifier.Factory.Refresh.{ext}
use notation_aws_verifier.Controller.Cluster.{
  TrustDocument, TrustPolicy, Cluster, query, update_object,
}
use notation_aws_verifier.Controller.Files.{
  validate_file_name, or_close, fill_and_rename, replace_file, compare_file, write_file_if_changed,
  notify,
}
use notation_aws_verifier.Controller.Files.Atomic.{
  write_file_if_changed-ok, write_file_if_changed-error,
}
use notation_aws_verifier.Controller.Policies.{
  range_desired, write_policies, remove_stale, clean_policies, sync_trust_policy_files,
  desired_policies, sync_policies, reconcile_policy,
}
use notation_aws_verifier.Controller.Policies.Sync.{
  IsListed, PoliciesSynced, sync_policies-PoliciesSynced,
}
use notation_aws_verifier.Controller.Policies.Reconciled.{
  reconcile_policy-IsListed, reconcile_policy-finalizer,
}
use notation_aws_verifier.Controller.Policies.Exact.{SameFiles, IsExact}
use notation_aws_verifier.Controller.Policies.Quiet.{sync_policies-IsQuiet}
use notation_aws_verifier.Controller.Policies.Wanted.{
  IsLive, Asks, desired_policies-Asks, validate_file_name-join,
}
use notation_aws_verifier.Tests.Files.{toy_os, toy_os-OsLaws, bound, crosses, size}

abbrev toy_document : Str → TrustDocument
toy_document name = record { version = codes "1.0"; trust_policy_name = name; trust_policies = [] }

-- The metadata of an object is whether it is being deleted.
abbrev toy_policy : Str → Bool → TrustPolicy Bool
toy_policy name gone = record { meta = gone; spec = toy_document name }

abbrev pub toy_cluster : Cluster Str
toy_cluster = record {
  Meta = Bool;
  is_deleted = λ m. m;
  add_finalizer = λ f m. (m, false);
  remove_finalizer = λ f m. (m, true);
  policy_object = λ p. p.spec.trust_policy_name;
  store_object = λ s. s.spec.trust_store_name;
  get_policy = λ n name. ok (toy_policy name true);
  list_policies = λ n. ok (toy_policy (codes "p") false ∷ toy_policy (codes "q") true ∷ []);
  get_store = λ n name. err (codes "missing");
  list_stores = λ n. ok [];
  update = λ n o. ok tt;
  is_not_found = λ e. e == codes "missing";
  marshal = λ d. ok d.version;
  name_of = λ m. codes "name";
}

abbrev machine_of : (failing : Option ℕ) → Machine (toy_os failing)
machine_of failing = record {
  calls = 0;
  files = (codes "d", directory) ∷ (codes "d/q.json", file (codes "old")) ∷ [];
  channel = some false;
  sent = [];
}

abbrev toy_machine : Machine (toy_os none)
toy_machine = machine_of none

-- What the runs below compute with.
abbrev toy_dir : Str
toy_dir = codes "d"

unfoldable pub synced : Machine (toy_os none)
unfolding sync_policies desired_policies sync_trust_policy_files query notify write_policies
    clean_policies range_desired remove_stale validate_file_name write_file_if_changed compare_file
    replace_file fill_and_rename or_close wrap attempt ◌>>=◌ lookup insert delete entries_at
    contains_char contains_any after_last cut_prefix split make_dirs syscall read_file mkdir_all
    create_temp write_file touch rename remove read_dir parent enter walk join child children
    name_leb insert_entry sort_entries ancestors ext codes ◌==◌ bound crosses size
synced = (sync_policies (toy_os none) toy_cluster toy_dir toy_machine).1

reconciled : Machine (toy_os none)
unfolding synced reconcile_policy update_object
reconciled = (reconcile_policy (toy_os none) toy_cluster toy_dir (codes "q") toy_machine).1

rewritten : Machine (toy_os none)
unfolding synced
rewritten =
    (write_file_if_changed (toy_os none) (codes "d/p.json") toy_dir (codes "new") toy_machine).1

-- The write of the temporary file fails.
cut_off : Machine (toy_os (some 2))
unfolding synced
cut_off =
    (write_file_if_changed (toy_os (some 2)) (codes "d/p.json") toy_dir (codes "new")
      (machine_of (some 2))).1

-- The listing of the directory fails, behind the writes.
unlisted : Machine (toy_os (some 9))
unfolding synced
unlisted = (sync_policies (toy_os (some 9)) toy_cluster toy_dir (machine_of (some 9))).1

test_written : lookup (codes "d/p.json") unlisted.files ≡ some (file (codes "1.0"))
unfolding unlisted
test_written = refl

test_channel : synced.channel ≡ some true
unfolding synced
test_channel = refl

test_sent : reconciled.sent ≡ codes "q" ∷ []
unfolding reconciled
test_sent = refl

test_stale : lookup (codes "d/q.json") synced.files ≡ none
unfolding synced
test_stale = refl

sync_policies-PoliciesSynced_example :
    PoliciesSynced (toy_os none) toy_cluster toy_dir toy_machine.files (some false) [] synced
unfolding synced
sync_policies-PoliciesSynced_example =
    sync_policies-PoliciesSynced (toy_os none) (toy_os-OsLaws none) toy_cluster toy_dir toy_machine
      synced refl

reconcile_policy-IsListed_example : IsListed (toy_os none) toy_cluster toy_dir reconciled.files
unfolding reconciled
reconcile_policy-IsListed_example =
    reconcile_policy-IsListed (toy_os none) (toy_os-OsLaws none) toy_cluster toy_dir (codes "q")
      toy_machine reconciled refl

apart : ¬ IsTemp toy_dir (codes "d/p.json")
unfolding codes
apart (r, e, no_slash, no_dot) = absurd (ground arith)

write_file_if_changed-ok_example :
    (lookup (codes "d/p.json") rewritten.files ≡ some (file (codes "new")))
    × Except (λ q. q ≡ codes "d/p.json") toy_machine.files rewritten.files
    × (true ≡ false → rewritten.files ≡ toy_machine.files)
unfolding rewritten
write_file_if_changed-ok_example =
    write_file_if_changed-ok (toy_os none) (toy_os-OsLaws none) (codes "d/p.json") toy_dir
      (codes "new") apart toy_machine rewritten true refl

write_file_if_changed-error_example :
    Except (IsTemp toy_dir) toy_machine.files cut_off.files
    × (lookup (codes "d/p.json") cut_off.files ≡ lookup (codes "d/p.json") toy_machine.files)
unfolding cut_off
write_file_if_changed-error_example =
    write_file_if_changed-error (toy_os (some 2)) (toy_os-OsLaws (some 2)) (codes "d/p.json")
      toy_dir (codes "new") apart (machine_of (some 2)) cut_off (codes "fault") refl

reconcile_policy-finalizer_example :
    (reconciled.sent ≡ []) ⊎ IsListed (toy_os none) toy_cluster toy_dir reconciled.files
unfolding reconciled
reconcile_policy-finalizer_example =
    reconcile_policy-finalizer (toy_os none) (toy_os-OsLaws none) toy_cluster toy_dir (codes "q")
      toy_machine (toy_policy (codes "q") true) refl refl

toy_policies : List (TrustPolicy Bool)
toy_policies = toy_policy (codes "p") false ∷ toy_policy (codes "q") true ∷ []

abbrev toy_desired : Map Str
toy_desired = (codes "p.json", codes "1.0") ∷ []

desired_policies-Asks_example :
    ((k v : Str)
      → lookup k toy_desired ≡ some v
      → (p : TrustPolicy Bool) × In p toy_policies × Asks (toy_os none) toy_cluster k v p)
    × ((p : TrustPolicy Bool)
        → In p toy_policies
        → IsLive (toy_os none) toy_cluster p
        → (v : Str) × (lookup (p.spec.trust_policy_name ++ codes ".json") toy_desired ≡ some v))
unfolding synced toy_policies
desired_policies-Asks_example =
    desired_policies-Asks (toy_os none) toy_cluster toy_policies toy_desired refl

validate_file_name-join_example :
    (join toy_dir (codes "p") ≡ child_path toy_dir (codes "p")) × Lacks b'/' (codes "p")
unfolding synced
validate_file_name-join_example = validate_file_name-join (toy_os none) toy_dir (codes "p") refl

-- A directory without files, and a sync whose listing of it fails behind the writes.
abbrev empty_machine : Machine (toy_os (some 9))
empty_machine = record (machine_of (some 9)) { files = (toy_dir, directory) ∷ [] }

untold : Machine (toy_os (some 9))
unfolding synced
untold = (sync_policies (toy_os (some 9)) toy_cluster toy_dir empty_machine).1

-- The retry succeeds, and the channel is still empty: the new file is never reported.
retried : Machine (toy_os (some 9))
unfolding untold
retried = (sync_policies (toy_os (some 9)) toy_cluster toy_dir untold).1

test_new_file : lookup (codes "d/p.json") retried.files ≡ some (file (codes "1.0"))
unfolding retried
test_new_file = refl

test_untold : retried.channel ≡ some false
unfolding retried
test_untold = refl

untold-IsExact : IsExact toy_dir toy_desired untold.files
unfolding untold
untold-IsExact name is_file text = elim (Bool-cases (codes "p.json" == name)) [
  | inl same ↦ (λ h. ground arith, λ h. ground arith)
  | inr other ↦ (λ h. absurd (ground arith), λ h. absurd (ground arith))
]

untold-NodupKeys : NodupKeys untold.files
unfolding untold count
untold-NodupKeys k = ground (arith, ==_iff toy_dir k, ==_iff (codes "d/p.json") k)

sync_policies-IsQuiet_example :
    (retried.channel ≡ untold.channel)
    × SameFiles untold.files retried.files
    × (retried.sent ≡ untold.sent)
unfolding retried toy_policies
sync_policies-IsQuiet_example =
    sync_policies-IsQuiet (toy_os (some 9)) (toy_os-OsLaws (some 9)) toy_cluster toy_dir untold
      toy_policies toy_desired refl untold-NodupKeys untold-IsExact retried refl refl
