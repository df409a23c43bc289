-- ===== src/Controller/Files/Temporary.antt =====
-- The temporary file of `writeFileIfChanged`: only it differs until it gets the file's name.
use notation_aws_verifier.Prelude.{
  Str, ==_iff, ==_refl, Bool, true, Option, none, some, List, ◌≡◌, ◌⊎◌, inl, inr, refl, arith,
  is_empty, if_both,
}
use notation_aws_verifier.Prelude.Exec.{pure, fail, attempt, ◌>>=◌}
use notation_aws_verifier.Prelude.Exec.Triple.{
  Triple, Outcome, Triple-pure, Triple-fail, Triple-attempt, Triple-bind,
}
use notation_aws_verifier.Prelude.Map.{Map, lookup, insert, delete, lookup-insert, lookup-delete}
use notation_aws_verifier.Prelude.Result.{Result, ok, err}
use notation_aws_verifier.Controller.Files.{or_close, fill_and_rename}
use notation_aws_verifier.Disk.{
  Os, Machine, System, written_file, move, remove_node, write_file, touch, rename, remove,
}
use notation_aws_verifier.Disk.Frames.{
  Except, Except-trans, Except-map, Except-insert, Except-delete, At, At-map, Triple-plain, Does,
  Does-touch, Does-ignore,
}
use notation_aws_verifier.Disk.Tree.{Node, file, directory, children}

module _ (os : Os) (channel : Option Bool) (sent : List os.Object) (t : Str) (f0 : Map Node) where
  -- Nothing but the temporary file differs.
  abbrev pub Temp : Map Node → Type 0
  Temp f = Except (λ q. q ≡ t) f0 f

  abbrev TempHolds : Str → Map Node → Type 0
  TempHolds text f = (lookup t f ≡ some (file text)) × Temp f

  Does-or_close :
      (m : System os (Unit {0})) (P Q : Map Node → Type 0)
      → Does os channel sent P m (λ _. Q) Temp
      → Does os channel sent P (or_close os m) (λ _. Q) Temp
  unfolding or_close
  Does-or_close m P Q k =
      Triple-bind _ _
        (Triple-attempt (λ _. At os channel sent Q) (λ _. At os channel sent Temp)
          (λ _. At os channel sent Temp) m k)
        by_result
    where
      by_result :
          (r : Result (Unit {0}))
          → Triple
              (Outcome (λ _. At os channel sent Q) (λ _. At os channel sent Temp) r)
              (elim r [ ok u ↦ pure tt | err e ↦ (do closed ← attempt (touch os); fail e) ])
              (λ _. At os channel sent Q)
              (λ _. At os channel sent Temp)
      by_result (ok u) = Triple-pure tt (λ s h. h)
      by_result (err e) =
          Does-ignore os channel sent (touch os) (fail e)
            (Does-touch os channel sent Temp Temp (λ s h. h)) (Triple-fail e (λ s h. h))

  module _ (path text : Str) (apart : ¬ (t ≡ path)) where
    -- Behind the rename: the text is there, and the temporary file is gone.
    abbrev pub Renamed : Map Node → Type 0
    Renamed f =
        (lookup path f ≡ some (file text))
        × (lookup t f ≡ none)
        × Except (λ q. (q ≡ path) ⊎ (q ≡ t)) f0 f

    renamed : (f : Map Node) → Temp f → Renamed (insert path (file text) (delete t f))
    renamed f same = (
      ground (arith, lookup-insert path path (file text) (delete t f), ==_refl path),
      ground (
        arith,
        lookup-insert path t (file text) (delete t f),
        lookup-delete t t f,
        ==_refl t,
        ==_iff path t,
      ),
      Except-trans _ f0 f _ (Except-map _ _ (λ q e. inr e) f0 f same) (
          Except-trans _ f (delete t f) _ (Except-delete _ t f (inr refl))
            (Except-insert _ path (file text) (delete t f) (inl refl))),
    )

    moved :
        (f : Map Node)
        → TempHolds text f
        → (target : Option Node)
        → Outcome
            (λ _. Renamed)
            (λ _. Temp)
            (move os t path (some (file text)) target f).0
            (move os t path (some (file text)) target f).1
    moved f (holds, same) (some directory) = same
    moved f (holds, same) none = renamed f same
    moved f (holds, same) (some (file b)) = renamed f same

    Does-rename : Does os channel sent (TempHolds text) (rename os t path) (λ _. Renamed) Temp
    unfolding rename
    Does-rename =
        Triple-plain os channel sent _ (TempHolds text) (λ _. Renamed) Temp
          (λ f h. rw h.0 (moved f h (lookup path f))) (λ f h. h.1)

    wrote : (b : Str) (f : Map Node) → Temp f → Temp (insert t (file b) f)
    wrote b f h = Except-trans _ f0 f _ h (Except-insert _ t (file b) f refl)

    -- A failed write may leave any text in the temporary file.
    Does-write : Does os channel sent Temp (write_file os t text) (λ _. TempHolds text) Temp
    unfolding write_file
    Does-write = record { run = λ w h. by_fault (os.fault w.calls) w h }
      where
        by_fault :
            (o : Option Str) (w : Machine os)
            → At os channel sent Temp w
            → Outcome
                (λ _. At os channel sent (TempHolds text))
                (λ _. At os channel sent Temp)
                (written_file os o t text w).0
                (written_file os o t text w).1
        by_fault none w h = record {
          files = (
            ground (arith, lookup-insert t t (file text) w.files, ==_refl t),
            wrote text w.files h.files,
          );
          same_channel = h.same_channel;
          same_sent = h.same_sent;
        }
        by_fault (some e) w h = record {
          files = wrote (os.partial w.calls text) w.files h.files;
          same_channel = h.same_channel;
          same_sent = h.same_sent;
        }

    -- The temporary file gets the text, and then the name.
    pub Does-fill_and_rename :
        Does os channel sent Temp
          (fill_and_rename os t path text)
          (λ b f. (b ≡ true) × Renamed f)
          Temp
    unfolding fill_and_rename
    Does-fill_and_rename =
        Triple-bind _ _ (Does-or_close (write_file os t text) Temp (TempHolds text) Does-write)
          (λ _.
            Triple-bind _ _
              (Does-or_close (touch os) (TempHolds text) (TempHolds text)
                (Does-touch os channel sent (TempHolds text) Temp (λ f h. h.1)))
              (λ _.
                Triple-bind _ _ (Does-touch os channel sent (TempHolds text) Temp (λ f h. h.1))
                  (λ _.
                    Triple-bind _ _ Does-rename
                      (λ _. Triple-pure true (At-map os channel sent _ _ (λ f h. (refl, h)))))))

    pub Does-remove_Renamed : Does os channel sent Renamed (remove os t) (λ _. Renamed) Renamed
    unfolding remove
    Does-remove_Renamed =
        Triple-plain os channel sent _ Renamed (λ _. Renamed) Renamed (λ f h. rw h.1 h) (λ f h. h)

  removed :
      (f : Map Node)
      → Temp f
      → (o : Option Node)
      → Outcome (λ _. Temp) (λ _. Temp) (remove_node os t o f).0 (remove_node os t o f).1
  removed f h none = h
  removed f h (some (file b)) = Except-trans _ f0 f _ h (Except-delete _ t f refl)
  removed f h (some directory) =
      if_both (λ (x : Result (Unit {0}) × Map Node). Outcome (λ _. Temp) (λ _. Temp) x.0 x.1)
        (is_empty (children t f)) (ok tt, delete t f) (err os.not_empty, f)
        (λ _. Except-trans _ f0 f _ h (Except-delete _ t f refl)) (λ _. h)

  pub Does-remove_Temp : Does os channel sent Temp (remove os t) (λ _. Temp) Temp
  unfolding remove
  Does-remove_Temp =
      Triple-plain os channel sent _ Temp (λ _. Temp) Temp (λ f h. removed f h (lookup t f))
        (λ f h. h)
