-- ===== src/Tests/Files.antt =====
-- A small disk and API server, on which the reconciler runs.
use notation_aws_verifier.Prelude.{
  Str, codes, ℕ, zero, suc, ◌+◌, ◌≤◌, eqb, ◌==◌, ==_iff, ==_refl, ◌++◌, Bool-cases, true, false,
  Option, none, some, [], ◌∷◌, ◌≡◌, inl, inr, refl, arith, if◌then◌else◌,
}
use notation_aws_verifier.Prelude.Map.{Map, lookup}
use notation_aws_verifier.Prelude.Text.Scan.{contains_char}
use notation_aws_verifier.Cache.Keys.{Lacks}
use notation_aws_verifier.Disk.{Os}
use notation_aws_verifier.Disk.Frames.{OsLaws}
use notation_aws_verifier.Disk.Tree.{Node}

unfoldable pub size : Str → ℕ
size [] = 0
size (x ∷ s) = suc (size s)

-- A number above the length of every path.
unfoldable pub bound : Map Node → ℕ
unfolding size
bound [] = 0
bound ((p, n) ∷ files) = suc (size p) + bound files

unfoldable pub crosses : ℕ → Str
crosses zero = []
crosses (suc n) = b'x' ∷ crosses n

lookup-long : (files : Map Node) (q : Str) → bound files ≤ size q → lookup q files ≡ none
unfolding lookup bound size
lookup-long [] q h = refl
lookup-long ((p, n) ∷ files) q h = ground (arith, lookup-long files q, ==_iff p q)

size-crosses : (n : ℕ) → size (crosses n) ≡ n
unfolding crosses size
size-crosses zero = refl
size-crosses (suc n) = ground (arith, size-crosses n)

size-append : (s t : Str) (n : ℕ) → n ≤ size t → n ≤ size (s ++ t)
unfolding size
size-append [] t n h = h
size-append (x ∷ s) t n h = ground (arith, size-append s t n h)

Lacks-crosses : (c : ℕ) → eqb b'x' c ≡ false → (n : ℕ) → Lacks c (crosses n)
unfolding crosses contains_char
Lacks-crosses c h zero = refl
Lacks-crosses c h (suc n) = ground (arith, Lacks-crosses c h n)

-- A system whose call with this number fails.
abbrev pub toy_os : Option ℕ → Os
toy_os failing = record {
  Object = Str;
  fault =
      λ n. elim failing [ none ↦ none | some k ↦ if eqb n k then some (codes "fault") else none ];
  partial = λ n b. [];
  spared = λ n q. true;
  random = λ n files dir. crosses (bound files);
  not_exist = codes "missing";
  is_not_exist = λ e. e == codes "missing";
  not_directory = codes "not a directory";
  is_directory = codes "is a directory";
  not_empty = codes "not empty";
  range_order = λ n ks. ks;
  quote = λ s. s;
}

fault_lem :
    (failing : Option ℕ) (n : ℕ) (e : Str)
    → (toy_os failing).fault n ≡ some e
    → (e == codes "missing") ≡ false
unfolding codes ◌==◌
fault_lem none n e h = absurd (ground arith)
fault_lem (some k) n e h = elim (Bool-cases (eqb k n)) [
  | inl here ↦ let e' : codes "fault" ≡ e = ground arith in rw (← e') refl
  | inr other ↦ absurd (ground arith)
]

pub toy_os-OsLaws : (failing : Option ℕ) → OsLaws (toy_os failing)
unfolding codes crosses bound
toy_os-OsLaws failing = record {
  missing = ==_refl (codes "missing");
  other_fault = fault_lem failing;
  other_not_empty = unfold ◌==◌ in refl;
  fresh = λ n files dir. lookup-long files _ (
      size-append dir (b'/' ∷ (codes ".tmp-" ++ crosses (bound files))) (bound files)
        (unfold size in ground (arith, size-crosses (bound files))));
  no_slash = λ n files dir. Lacks-crosses b'/' refl (bound files);
  no_dot = λ n files dir. Lacks-crosses b'.' refl (bound files);
  count_order = λ n ks k. refl;
}
