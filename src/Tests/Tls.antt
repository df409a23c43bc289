-- ===== src/Tests/Tls.antt =====
-- Handshakes before and after a certificate is renewed.
use notation_aws_verifier.Prelude.{
  codes, none, List, [], ◌∷◌, map, ◌≡◌, ◌⊎◌, refl, sym, inl, inr, In, arith, Str, ◌++◌,
}
use notation_aws_verifier.Prelude.Result.{Result, ok, err}
use notation_aws_verifier.Tls.{TlsSecret, secret_type_tls, handshakes}
use notation_aws_verifier.Tls.Fresh.{Versioned, certificate_of, handshakes-certificate_of}

abbrev first : TlsSecret
first = record {
  type = secret_type_tls;
  resource_version = codes "1";
  cert_data = codes "a";
  key_data = codes "k";
}

abbrev renewed : TlsSecret
renewed = record {
  type = secret_type_tls;
  resource_version = codes "2";
  cert_data = codes "b";
  key_data = codes "l";
}

abbrev pair_up : Str → Str → Result Str
pair_up cert key = ok (cert ++ key)

abbrev answers : List (Result TlsSecret)
answers = ok first ∷ err (codes "gone") ∷ ok first ∷ ok renewed ∷ []

seen : (s : TlsSecret) → In (ok s) answers → (s ≡ first) ⊎ (s ≡ renewed)
seen s (inl e) = inl (ground arith)
seen s (inr (inl e)) = absurd (ground arith)
seen s (inr (inr (inl e))) = inl (ground arith)
seen s (inr (inr (inr (inl e)))) = inr (ground arith)
seen s (inr (inr (inr (inr e)))) = elim e [ ]

different : ¬ (codes "1" ≡ codes "2")
unfolding codes
different e = ground arith

versioned : Versioned pair_up answers
versioned s t i j same = elim (seen s i) [
  | inl p ↦ elim (seen t j) [
    | inl q ↦ rw (p, q) (refl, refl)
    | inr q ↦ absurd (different (rw (p, q) at same))
  ]
  | inr p ↦ elim (seen t j) [
    | inl q ↦ absurd (different (sym (rw (p, q) at same)))
    | inr q ↦ rw (p, q) (refl, refl)
  ]
]

handshakes-certificate_of_example :
    handshakes pair_up answers none ≡ map (certificate_of pair_up) answers
handshakes-certificate_of_example = handshakes-certificate_of pair_up answers versioned
