-- ===== src/Flags/Checked.antt =====
-- What the rest of the program may rely on about the values of the flags.
use notation_aws_verifier.Prelude.{
  Str, ℕ, ◌*◌, ◌^◌, zero, suc, Bool-cases, inl, inr, ◌≤◌, ◌<◌, ◌≡◌, ◌≢◌, refl, ltb, false, List, [],
  ◌∷◌, is_empty, ne-nil, All, arith, if_both,
}
use notation_aws_verifier.Prelude.Int.{ℤ, pos, negsuc, wrap_int64}
use notation_aws_verifier.Prelude.Result.{ok}
use notation_aws_verifier.Prelude.Text.Split.{
  split, trim_space, first_blank, last_blank, trim_space_lem,
}
use notation_aws_verifier.Flags.{Options, second, cache_ttl, keep_items, split_list}

-- Not empty, and with no blank at either end.
abbrev pub IsTrimmed : Str → Type 0
IsTrimmed item = (item ≢ []) × (first_blank item ≡ false) × (last_blank item ≡ false)

trimmed : (part : Str) → is_empty (trim_space part) ≡ false → IsTrimmed (trim_space part)
trimmed part h =
    let (first, last) = trim_space_lem part in (ne-nil (trim_space part) h, first, last)

keep_items-IsTrimmed : (parts : List Str) → All IsTrimmed (keep_items parts)
unfolding keep_items
keep_items-IsTrimmed [] = tt
keep_items-IsTrimmed (part ∷ parts) =
    if_both (All IsTrimmed) (is_empty (trim_space part)) _ _ (λ _. keep_items-IsTrimmed parts)
      (λ h. (trimmed part h, keep_items-IsTrimmed parts))

-- Every element of a list flag is not empty and has no blank at either end.
pub split_list-IsTrimmed : (s : Str) → All IsTrimmed (split_list s)
unfolding split_list
split_list-IsTrimmed s = keep_items-IsTrimmed (split s b',')

wrap_int64_small : (n : ℕ) → n < 2 ^ 63 → wrap_int64 n ≡ pos n
unfolding wrap_int64
wrap_int64_small n h = ground arith

seconds_fit :
    (print : ℤ → Str) (o : Options) (seconds t : ℤ)
    → cache_ttl print (record o { cache_ttl_seconds = seconds }) ≡ ok t
    → (n : ℕ) × (seconds ≡ pos n) × (1 ≤ n) × (t ≡ pos (n * second)) × (n * second < 2 ^ 63)
unfolding cache_ttl
seconds_fit print o (negsuc n) t h = absurd (ground arith)
seconds_fit print o (pos zero) t h = absurd (ground arith)
seconds_fit print o (pos (suc n)) t h = elim (Bool-cases (ltb 9223372036 (suc n))) [
  | inl large ↦ absurd (ground arith)
  | inr fits ↦
      let small : suc n * second < 2 ^ 63 = ground arith in
      let w = wrap_int64_small (suc n * second) small in
      (suc n, refl, omega arith, ground (arith, w), small)
]

-- A time to live that the flags give is their positive number of seconds in nanoseconds, without
-- overflow.
pub cache_ttl_lem :
    (print : ℤ → Str) (o : Options) (t : ℤ)
    → cache_ttl print o ≡ ok t
    → (n : ℕ) × (o.cache_ttl_seconds ≡ pos n)
      × (1 ≤ n)
      × (t ≡ pos (n * second))
      × (n * second < 2 ^ 63)
cache_ttl_lem print o t h = seconds_fit print o o.cache_ttl_seconds t h
