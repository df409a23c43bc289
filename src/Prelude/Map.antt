-- ===== src/Prelude/Map.antt =====
-- Go maps with string keys as association lists. A write replaces the entry in place or appends;
-- a `range` visits the keys in an order that the runtime chooses.
use Prim.Native.Nat.{ℕ, ◌+◌, ◌≤◌}
use mathlib.Core.Path.{◌≡◌, refl, ap}
use mathlib.Core.Logic.{inl, inr}
use mathlib.Core.Option.{Option, none, some}
use mathlib.Core.List.{List, [], ◌∷◌, map}
use native.Mathlib.Omega.{arith}
use notation_aws_verifier.Prelude.Lists.{All, In}
use notation_aws_verifier.Prelude.Tests.{Bool-cases, if◌then◌else◌}
use notation_aws_verifier.Prelude.Text.{Str, ◌==◌, ==_iff}

abbrev pub Map {ℓ} : Type ℓ → Type ℓ
Map V = List (Str × V)

-- How often a key stands in a list.
unfoldable pub count : Str → List Str → ℕ
count k [] = 0
count k (j ∷ js) = (if j == k then 1 else 0) + count k js

module _ {ℓ} {V : Type ℓ} where
  abbrev pub keys : Map V → List Str
  keys = map (λ e. e.0)

  -- `v, ok := m[k]`
  unfoldable pub lookup : Str → Map V → Option V
  lookup k [] = none
  lookup k ((j, v) ∷ m) = if j == k then some v else lookup k m

  -- `m[k] = v`
  unfoldable pub insert : Str → V → Map V → Map V
  insert k v [] = (k, v) ∷ []
  insert k v ((j, w) ∷ m) = let rest = insert k v m in if j == k then (j, v) ∷ m else (j, w) ∷ rest

  -- `delete(m, k)`
  unfoldable pub delete : Str → Map V → Map V
  delete k [] = []
  delete k ((j, w) ∷ m) = let rest = delete k m in if j == k then rest else (j, w) ∷ rest

  abbrev cons_some : Str → Option V → Map V → Map V
  cons_some k none es = es
  cons_some k (some v) es = (k, v) ∷ es

  -- The entries that a `range` yields when the runtime chose this order of the keys.
  unfoldable pub entries_at : List Str → Map V → Map V
  entries_at [] m = []
  entries_at (k ∷ ks) m = cons_some k (lookup k m) (entries_at ks m)

  In-cons_some :
      (x : Str × V) (k : Str) (o : Option V) (es : Map V) → In x es → In x (cons_some k o es)
  In-cons_some x k none es i = i
  In-cons_some x k (some v) es i = inr i

  -- A `range` in an order that holds the key yields the key's entry.
  pub In-entries_at :
      (k : Str) (v : V) (ks : List Str) (m : Map V)
      → lookup k m ≡ some v
      → 1 ≤ count k ks
      → In (k, v) (entries_at ks m)
  unfolding entries_at count
  In-entries_at k v [] m e h = absurd (omega arith)
  In-entries_at k v (j ∷ ks) m e h = elim (Bool-cases (j == k)) [
    | inl same ↦ let p : j ≡ k = (==_iff j k).0 same in rw (p, e) (inl refl)
    | inr other ↦
        In-cons_some (k, v) j (lookup j m) (entries_at ks m)
          (In-entries_at k v ks m e (ground arith))
  ]

  All-cons_some {κ} :
      (P : Str × V → Type κ) (k : Str) (o : Option V) (es : Map V)
      → ((v : V) → o ≡ some v → P (k, v))
      → All P es
      → All P (cons_some k o es)
  All-cons_some P k none es p h = h
  All-cons_some P k (some v) es p h = (p v refl, h)

  -- What a `range` yields is in the map.
  pub All-entries_at :
      (ks : List Str) (m : Map V) → All (λ (e : Str × V). lookup e.0 m ≡ some e.1) (entries_at ks m)
  unfolding entries_at
  All-entries_at [] m = tt
  All-entries_at (k ∷ ks) m =
      All-cons_some (λ (e : Str × V). lookup e.0 m ≡ some e.1) k (lookup k m) (entries_at ks m)
        (λ v e. e) (All-entries_at ks m)

  pub All-keys {κ} :
      (P : Str → Type κ) (m : Map V) (k : Str) (v : V) → All P (keys m) → In (k, v) m → P k
  All-keys P [] k v h i = elim i [ ]
  All-keys P (x ∷ m) k v h (inl e) = rw (ap (λ (y : Str × V). y.0) e) h.0
  All-keys P (x ∷ m) k v h (inr i) = All-keys P m k v h.1 i

  -- No key has two entries: what a Go map guarantees.
  abbrev pub NodupKeys : Map V → Type 0
  NodupKeys m = (k : Str) → count k (keys m) ≤ 1

  pub lookup-insert :
      (key k : Str) (new : V) (m : Map V)
      → lookup k (insert key new m) ≡ (if key == k then some new else lookup k m)
  unfolding lookup insert
  lookup-insert key k new [] = refl
  lookup-insert key k new ((j, w) ∷ m) =
      ground (arith, lookup-insert key k new m, ==_iff key k, ==_iff j key, ==_iff j k)

  pub lookup-delete :
      (k j : Str) (m : Map V) → lookup j (delete k m) ≡ (if k == j then none else lookup j m)
  unfolding lookup delete
  lookup-delete k j [] = ground arith
  lookup-delete k j ((i, w) ∷ m) =
      ground (arith, ==_iff k j, ==_iff i k, ==_iff i j, lookup-delete k j m)

  -- Only a new key lengthens the list of keys.
  pub count-insert :
      (k j : Str) (v : V) (m : Map V)
      → count j (keys (insert k v m)) ≡ (elim (lookup k m) [
        | none ↦ if k == j then count j (keys m) + 1 else count j (keys m)
        | some w ↦ count j (keys m)
      ])
  unfolding lookup insert count
  count-insert k j v [] = ground arith
  count-insert k j v ((i, w) ∷ m) =
      ground (arith, ==_iff k j, ==_iff i k, ==_iff i j, count-insert k j v m)

  -- A key without an entry does not occur.
  pub count-lookup : (k : Str) (m : Map V) → lookup k m ≡ none → count k (keys m) ≡ 0
  unfolding lookup count
  count-lookup k [] h = refl
  count-lookup k ((i, w) ∷ m) h = ground (arith, count-lookup k m)

  -- A key with an entry occurs.
  pub lookup-eq-some-count :
      (k : Str) (v : V) (m : Map V) → lookup k m ≡ some v → 1 ≤ count k (keys m)
  unfolding lookup count
  lookup-eq-some-count k v [] h = ground arith
  lookup-eq-some-count k v ((i, w) ∷ m) h = ground (arith, lookup-eq-some-count k v m)

  pub insert-NodupKeys : (k : Str) (v : V) (m : Map V) → NodupKeys m → NodupKeys (insert k v m)
  insert-NodupKeys k v m h j =
      ground (arith, h j, h k, count-insert k j v m, count-lookup k m, ==_iff k j)
