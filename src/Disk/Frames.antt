-- ===== src/Disk/Frames.antt =====
-- What system calls leave as it was.
use notation_aws_verifier.Prelude.{
  Str, codes, ℕ, ◌==◌, ==_iff, ◌++◌, Bool, Bool-cases, true, false, Option, none, some, List, ◌∷◌,
  ◌≡◌, ◌⊎◌, inl, inr, refl, ◌∙◌, arith,
}
use notation_aws_verifier.Prelude.Exec.{Exec, Result, ok, err, attempt, ◌>>=◌}
use notation_aws_verifier.Prelude.Exec.Triple.{
  Triple, Outcome, Triple-map, Triple-bind, Triple-attempt,
}
use notation_aws_verifier.Prelude.Map.{
  Map, count, lookup, insert, delete, lookup-insert, lookup-delete,
}
use notation_aws_verifier.Cache.Keys.{Lacks}
use notation_aws_verifier.Disk.{Os, Machine, System, syscall, answer, temp_path, touch}
use notation_aws_verifier.Disk.Tree.{Node}

-- Outside the paths with `A`, `g` holds what `f` holds.
abbrev pub Except : (Str → Type 0) → Map Node → Map Node → Type 0
Except A f g = (q : Str) → A q ⊎ (lookup q g ≡ lookup q f)

pub Except-refl : (A : Str → Type 0) (f : Map Node) → Except A f f
Except-refl A f q = inr refl

pub Except-trans :
    (A : Str → Type 0) (f g h : Map Node) → Except A f g → Except A g h → Except A f h
Except-trans A f g h p r q = elim (p q) [
  | inl a ↦ inl a
  | inr e ↦ elim (r q) [ inl a ↦ inl a | inr e' ↦ inr (e' ∙ e) ]
]

pub Except-map :
    (A B : Str → Type 0) → ((q : Str) → A q → B q) → (f g : Map Node) → Except A f g → Except B f g
Except-map A B w f g p q = elim (p q) [ inl a ↦ inl (w q a) | inr e ↦ inr e ]

-- A path without `A` is as it was.
pub Except-lookup :
    (A : Str → Type 0) (f g : Map Node) (q : Str) → Except A f g → ¬ A q → lookup q g ≡ lookup q f
Except-lookup A f g q p outside = elim (p q) [ inl a ↦ absurd (outside a) | inr e ↦ e ]

pub Except-insert :
    (A : Str → Type 0) (p : Str) (n : Node) (f : Map Node) → A p → Except A f (insert p n f)
Except-insert A p n f a q = elim (Bool-cases (p == q)) [
  | inl same ↦ let e : p ≡ q = (==_iff p q).0 same in inl (rw (← e) a)
  | inr other ↦ inr (ground (arith, lookup-insert p q n f))
]

pub Except-delete : (A : Str → Type 0) (p : Str) (f : Map Node) → A p → Except A f (delete p f)
Except-delete A p f a q = elim (Bool-cases (p == q)) [
  | inl same ↦ let e : p ≡ q = (==_iff p q).0 same in inl (rw (← e) a)
  | inr other ↦ inr (ground (arith, lookup-delete p q f))
]

-- What Go documents: the error of a missing file is recognised, and no other is taken for it; the
-- name of a temporary file is new and ends in a number; a `range` visits each key once.
pub record OsLaws (os : Os) : Type 0 where
  pub missing : os.is_not_exist os.not_exist ≡ true
  pub other_fault : (n : ℕ) (e : Str) → os.fault n ≡ some e → os.is_not_exist e ≡ false
  pub other_not_empty : os.is_not_exist os.not_empty ≡ false
  pub fresh :
      (n : ℕ) (files : Map Node) (dir : Str) → lookup (temp_path os n files dir) files ≡ none
  pub no_slash : (n : ℕ) (files : Map Node) (dir : Str) → Lacks b'/' (os.random n files dir)
  pub no_dot : (n : ℕ) (files : Map Node) (dir : Str) → Lacks b'.' (os.random n files dir)
  pub count_order : (n : ℕ) (ks : List Str) (k : Str) → count k (os.range_order n ks) ≡ count k ks

-- The path of a temporary file in `dir`.
abbrev pub IsTemp : Str → Str → Type 0
IsTemp dir q = (r : Str) × (q ≡ dir ++ b'/' ∷ (codes ".tmp-" ++ r)) × Lacks b'/' r × Lacks b'.' r

module _ (os : Os) (channel : Option Bool) (sent : List os.Object) where
  -- `P` holds of the files, and neither the channel nor what was sent has changed.
  pub record At (P : Map Node → Type 0) (w : Machine os) : Type 0 where
    pub files : P w.files
    pub same_channel : w.channel ≡ channel
    pub same_sent : w.sent ≡ sent

  pub At-map :
      (P Q : Map Node → Type 0) → ((f : Map Node) → P f → Q f) → (w : Machine os) → At P w → At Q w
  At-map P Q g w h = record {
    files = g w.files h.files;
    same_channel = h.same_channel;
    same_sent = h.same_sent;
  }

  answered :
      {A : Type 0} (Q : A → Map Node → Type 0) (E : Str → Map Node → Type 0) (r : Result A)
      (f : Map Node) (n : ℕ) (w : Machine os)
      → w.channel ≡ channel
      → w.sent ≡ sent
      → Outcome Q E r f
      → Outcome (λ a. At (Q a)) (λ e. At (E e)) r (record w { calls = n; files = f })
  answered Q E (ok a) f n w c s h = record { files = h; same_channel = c; same_sent = s }
  answered Q E (err e) f n w c s h = record { files = h; same_channel = c; same_sent = s }

  -- A system call does what it does to the files, or fails and does nothing.
  pub Triple-syscall :
      {A : Type 0} (f : Exec (Map Node) A) (P : Map Node → Type 0) (Q : A → Map Node → Type 0)
      (E : Str → Map Node → Type 0)
      → ((s : Map Node) → P s → Outcome Q E (f s).0 (f s).1)
      → ((e : Str) (s : Map Node) (n : ℕ) → os.fault n ≡ some e → P s → E e s)
      → Triple (At P) (syscall os f) (λ a. At (Q a)) (λ e. At (E e))
  unfolding syscall
  Triple-syscall f P Q E run failed = record {
    run = λ w h. by_fault f P Q E run failed (os.fault w.calls) w refl h;
  }
    where
      by_fault :
          {A : Type 0} (f : Exec (Map Node) A) (P : Map Node → Type 0) (Q : A → Map Node → Type 0)
          (E : Str → Map Node → Type 0)
          → ((s : Map Node) → P s → Outcome Q E (f s).0 (f s).1)
          → ((e : Str) (s : Map Node) (n : ℕ) → os.fault n ≡ some e → P s → E e s)
          → (o : Option Str) (w : Machine os) → os.fault w.calls ≡ o
          → At P w
          → Outcome (λ a. At (Q a)) (λ e. At (E e)) (answer os o f w).0 (answer os o f w).1
      by_fault f P Q E run failed none w e h =
          answered Q E (f w.files).0 (f w.files).1 _ w h.same_channel h.same_sent
            (run w.files h.files)
      by_fault f P Q E run failed (some x) w e h = record {
        files = failed x w.files w.calls e h.files;
        same_channel = h.same_channel;
        same_sent = h.same_sent;
      }

  -- A system call whose errors need not be told apart.
  pub Triple-plain :
      {A : Type 0} (f : Exec (Map Node) A) (P : Map Node → Type 0) (Q : A → Map Node → Type 0)
      (E : Map Node → Type 0)
      → ((s : Map Node) → P s → Outcome Q (λ _. E) (f s).0 (f s).1)
      → ((s : Map Node) → P s → E s)
      → Triple (At P) (syscall os f) (λ a. At (Q a)) (λ _. At E)
  Triple-plain f P Q E run failed = Triple-syscall f P Q (λ _. E) run (λ e s n real h. failed s h)

  -- From files with `P`, `m` ends with a value and files that have `Q`, or with files that have `E`.
  abbrev pub Does :
      {A : Type 0}
      → (Map Node → Type 0)
      → System os A
      → (A → Map Node → Type 0)
      → (Map Node → Type 0)
      → Type 0
  Does P m Q E = Triple (At P) m (λ a. At (Q a)) (λ _. At E)

  pub Does-map :
      {A : Type 0} {P P' : Map Node → Type 0} {Q R : A → Map Node → Type 0}
      {E F : Map Node → Type 0} (m : System os A)
      → ((s : Map Node) → P s → P' s)
      → ((a : A) (s : Map Node) → Q a s → R a s)
      → ((s : Map Node) → E s → F s)
      → Does P' m Q E
      → Does P m R F
  Does-map {P = P} {P'} {Q} {R} {E} {F} m p q e k =
      Triple-map m (At-map P P' p) (λ a. At-map (Q a) (R a) (q a)) (λ _. At-map E F e) k

  pub Does-touch :
      (P E : Map Node → Type 0) → ((s : Map Node) → P s → E s) → Does P (touch os) (λ _. P) E
  Does-touch P E e =
      unfold touch in Triple-plain (λ files. (ok tt, files)) P (λ _. P) E (λ s h. h) e

  -- An error that is looked at and let go.
  pub Does-ignore :
      {A B : Type 0} {P E R : Map Node → Type 0} {S : B → Map Node → Type 0} (m : System os A)
      (n : System os B)
      → Does P m (λ _. R) R
      → Does R n S E
      → Does P (attempt m >>= λ _. n) S E
  Does-ignore {A = A} {E = E} {R = R} {S = S} m n km kn =
      Triple-bind (attempt m) (λ _. n) (Triple-attempt (λ _. At R) (λ _. At R) (λ _. At E) m km)
        (λ r. Triple-map n (either r) (λ b s h. h) (λ e s h. h) kn)
    where
      either : (r : Result A) (s : Machine os) → Outcome (λ _. At R) (λ _. At R) r s → At R s
      either (ok a) s h = h
      either (err e) s h = h

  -- A fact beside the files.
  pub Does-assume :
      {X : Type 0} {A : Type 0} {P : Map Node → Type 0} {Q : A → Machine os → Type 0}
      {E : Str → Machine os → Type 0} (m : System os A)
      → (X → Triple (At P) m Q E)
      → Triple (At (λ f. X × P f)) m Q E
  Does-assume m k = record {
    run = λ w h.
        (k h.files.0).run w
          (record { files = h.files.1; same_channel = h.same_channel; same_sent = h.same_sent });
  }

  -- The files that an action starts from, by name.
  pub Does-each :
      {A : Type 0} {P E : Map Node → Type 0} {Q : A → Map Node → Type 0} (m : System os A)
      → ((g : Map Node) → P g → Does (λ f. f ≡ g) m Q E)
      → Does P m Q E
  Does-each m k = record {
    run = λ w h.
        (k w.files h.files).run w
          (record { files = refl; same_channel = h.same_channel; same_sent = h.same_sent });
  }
