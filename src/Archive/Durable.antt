-- ===== src/Archive/Durable.antt =====
-- collector.py, what the raw archive holds while appends and repairs of the process fail.
use bkk_collector.Base.{
  ℕ, zero, suc, ◌≤◌, ◌<◌, ◌^◌, ◌≡◌, refl, arith, Bool, true, false, Option, none, some, List, [],
  ◌∷◌, ◌++◌, ◌==◌, ==_refl, string_eq, if◌then◌else◌, Bool-cases, ◌⊎◌, inl, inr, length, take, ap,
  subst, sym, ◌∙◌, ltb, append-nil,
}
use mathlib.Core.List.{Sublistᴰ}
use bkk_collector.Base.Dict.{lookup, member}
use bkk_collector.RawLog.{
  Bytes, LogFile, frame, append_record, append_cut, max_compressed_record_bytes,
}
use bkk_collector.RawLog.Lives.{Life, appended, cut, append_record-eq-some}
use bkk_collector.Archive.{
  RawPath, path_eq, Archive, log_at, put_log, Attempt, Response, Archived, not_due, archived,
  failed, raw_archived, mark, is_due, repair_pending, appended_to, append_response, after_repairs,
  archive_raw,
}
use bkk_collector.Archive.Damage.{log_at-put, log_at-mark, member-mark, Holds, Ready}
use bkk_collector.Archive.Repairs.{repair_pending-Holds, repair_pending-Ready}

abbrev pub item_of : Response → ℕ × Bytes
item_of r = (r.received, r.payload)

take_all : {A : Type 0} (n : ℕ) (xs : List A) → length xs ≤ n → take n xs ≡ xs
take_all zero [] h = refl
take_all (suc n) [] h = refl
take_all zero (x ∷ xs) h = absurd (omega arith)
take_all (suc n) (x ∷ xs) h = ap (λ ys. x ∷ ys) (take_all n xs (omega arith))

module _ (compress : Bytes → Bytes) (decompress : Bytes → Option Bytes) where
  append_cut_whole :
      (bytes ts : ℕ) (raw : Bytes) (log : LogFile)
      → length (compress raw) ≤ max_compressed_record_bytes
      → length (frame ts (compress raw)) ≤ bytes
      → append_record compress false ts raw log ≡ some (append_cut compress bytes ts raw log)
  unfolding append_record append_cut
  append_cut_whole bytes ts raw log size h =
      ground (arith, take_all bytes (frame ts (compress raw)) h)

  -- The responses that a call adds to a log: those reported at least, those handed over at most.
  pub record Adds (r : Response) (outcome : Archived) (kept kept' : List (ℕ × Bytes)) : Type 0 where
    pub new : List (ℕ × Bytes)
    pub grows : kept' ≡ kept ++ new
    pub reported : Sublistᴰ (if raw_archived outcome then item_of r ∷ [] else []) new
    pub handed : Sublistᴰ new (item_of r ∷ [])

  no_response_added :
      (r : Response) (outcome : Archived) (kept : List (ℕ × Bytes))
      → raw_archived outcome ≡ false
      → Adds r outcome kept kept
  no_response_added r outcome kept h = record {
    new = [];
    grows = sym (append-nil kept);
    reported = rw h Sublistᴰ.slnil;
    handed = Sublistᴰ.cons Sublistᴰ.slnil;
  }

  one_response_added :
      (r : Response) (outcome : Archived) (kept : List (ℕ × Bytes))
      → Adds r outcome kept (kept ++ item_of r ∷ [])
  one_response_added r outcome kept = record {
    new = item_of r ∷ [];
    grows = refl;
    reported = elim (Bool-cases (raw_archived outcome)) [
      | inl e ↦ rw e (Sublistᴰ.cons-cons refl Sublistᴰ.slnil)
      | inr e ↦ rw e (Sublistᴰ.cons Sublistᴰ.slnil)
    ];
    handed = Sublistᴰ.cons-cons refl Sublistᴰ.slnil;
  }

  log_at-marked_put :
      (q : RawPath) (log : LogFile) (a : Archive) → log_at q (mark q (put_log q log a)) ≡ log
  log_at-marked_put q log a =
      log_at-mark q q (put_log q log a) ∙ log_at-put q q log a ∙ rw (==_refl q) refl

  marked-Holds :
      (q : RawPath) (kept : List (ℕ × Bytes)) (fit : Bool) (a : Archive)
      → Life compress decompress (log_at q a) kept fit
      → Holds compress decompress q kept (mark q a)
  marked-Holds q kept fit a life = record {
    fit = fit;
    life = rw (log_at-mark q q a) life;
    marked = inr (member-mark q q a (inl refl));
  }

  marked_put-Holds :
      (q : RawPath) (kept : List (ℕ × Bytes)) (fit : Bool) (log : LogFile) (a : Archive)
      → Life compress decompress log kept fit
      → Holds compress decompress q kept (mark q (put_log q log a))
  marked_put-Holds q kept fit log a life = record {
    fit = fit;
    life = rw (log_at-marked_put q log a) life;
    marked = inr (member-mark q q (put_log q log a) (inl refl));
  }

  abbrev pub After : Response → List (ℕ × Bytes) → Archived × Archive → Type 0
  After r kept (outcome, b) =
      (kept' : List (ℕ × Bytes)) × Holds compress decompress r.path kept' b
      × Adds r outcome kept kept'

  cut-After :
      (fsync : Bool) (attempt : Attempt) (r : Response) (kept : List (ℕ × Bytes)) (a : Archive)
      (log : LogFile) (bytes : ℕ)
      → r.received < 2 ^ 64
      → Ready compress decompress r.path kept a
      → length (compress r.payload) ≤ max_compressed_record_bytes
      → After r kept (appended_to compress attempt r (some log) (some bytes) a)
  unfolding appended_to
  cut-After fsync attempt r kept a log bytes stamp ready size =
      elim (Bool-cases (ltb bytes (length (frame r.received (compress r.payload))))) [
        | inl short ↦ (
          kept,
          marked_put-Holds r.path kept false
              (append_cut compress bytes r.received r.payload (log_at r.path a)) a
              (cut bytes r.received r.payload ready size (ground arith) refl),
          no_response_added r failed kept refl,
        )
        | inr whole ↦ (
          kept ++ item_of r ∷ [],
          marked_put-Holds r.path (kept ++ item_of r ∷ []) true
              (append_cut compress bytes r.received r.payload (log_at r.path a)) a
              (appended false r.received r.payload ready stamp
                (append_cut_whole bytes r.received r.payload (log_at r.path a) size (ground arith))
                refl),
          one_response_added r failed kept,
        )
      ]

  appended_to-After :
      (fsync : Bool) (attempt : Attempt) (r : Response) (kept : List (ℕ × Bytes)) (a : Archive)
      (o : Option LogFile) (fails : Option ℕ)
      → r.received < 2 ^ 64
      → Ready compress decompress r.path kept a
      → append_record compress fsync r.received r.payload (log_at r.path a) ≡ o
      → After r kept (appended_to compress attempt r o fails a)
  appended_to-After fsync attempt r kept a none fails stamp ready e =
      unfold appended_to in
      (kept, marked-Holds r.path kept true a ready, no_response_added r failed kept refl)
  appended_to-After fsync attempt r kept a (some log) none stamp ready e =
      unfold appended_to in
      (
        kept ++ item_of r ∷ [],
        record {
          fit = true;
          life =
              rw (log_at-put r.path r.path log a, ==_refl r.path)
                (appended fsync r.received r.payload ready stamp e refl);
          marked = inl refl;
        },
        one_response_added r archived kept,
      )
  appended_to-After fsync attempt r kept a (some log) (some bytes) stamp ready e =
      cut-After fsync attempt r kept a log bytes stamp ready
        (append_record-eq-some compress decompress fsync r.received r.payload (log_at r.path a) log
          e).0

  -- What another path holds stays, whatever the append does.
  marked_other :
      (q p : RawPath) (kept : List (ℕ × Bytes)) (a : Archive)
      → Holds compress decompress p kept a
      → Holds compress decompress p kept (mark q a)
  marked_other q p kept a holds = record {
    fit = holds.fit;
    life = rw (log_at-mark q p a) holds.life;
    marked = elim holds.marked [
      | inl fit ↦ inl fit
      | inr marked ↦ inr (member-mark q p a (inr marked))
    ];
  }

  put_other :
      (q p : RawPath) (kept : List (ℕ × Bytes)) (log : LogFile) (a : Archive)
      → (q == p) ≡ false
      → Holds compress decompress p kept a
      → Holds compress decompress p kept (put_log q log a)
  put_other q p kept log a other holds = record {
    fit = holds.fit;
    life = rw (log_at-put q p log a, other) holds.life;
    marked = holds.marked;
  }

  appended_to_other :
      (attempt : Attempt) (r : Response) (p : RawPath) (kept : List (ℕ × Bytes)) (a : Archive)
      (o : Option LogFile) (fails : Option ℕ)
      → (r.path == p) ≡ false
      → Holds compress decompress p kept a
      → Holds compress decompress p kept (appended_to compress attempt r o fails a).1
  unfolding appended_to
  appended_to_other attempt r p kept a none fails other holds = marked_other r.path p kept a holds
  appended_to_other attempt r p kept a (some log) none other holds =
      let h = put_other r.path p kept log a other holds in
      record { fit = h.fit; life = h.life; marked = h.marked }
  appended_to_other attempt r p kept a (some log) (some bytes) other holds =
      let log' = append_cut compress bytes r.received r.payload (log_at r.path a) in
      marked_other r.path p kept (put_log r.path log' a)
        (put_other r.path p kept log' a other holds)

  after_repairs-After :
      (fsync : Bool) (attempt : Attempt) (r : Response) (kept : List (ℕ × Bytes))
      (s : Bool × Archive)
      → r.received < 2 ^ 64
      → Holds compress decompress r.path kept s.1
      → (s.0 ≡ false → Ready compress decompress r.path kept s.1)
      → After r kept (after_repairs compress fsync attempt r s)
  after_repairs-After fsync attempt r kept (true, a) stamp holds ready =
      unfold after_repairs in
      (kept, marked-Holds r.path kept holds.fit a holds.life, no_response_added r failed kept refl)
  after_repairs-After fsync attempt r kept (false, a) stamp holds ready =
      unfold after_repairs append_response in
      appended_to-After fsync attempt r kept a
        (append_record compress fsync r.received r.payload (log_at r.path a))
        attempt.write_fails_after stamp (ready refl) refl

  after_repairs_other :
      (fsync : Bool) (attempt : Attempt) (r : Response) (p : RawPath) (kept : List (ℕ × Bytes))
      (s : Bool × Archive)
      → (r.path == p) ≡ false
      → Holds compress decompress p kept s.1
      → Holds compress decompress p kept (after_repairs compress fsync attempt r s).1
  after_repairs_other fsync attempt r p kept (true, a) other holds =
      unfold after_repairs in marked_other r.path p kept a holds
  after_repairs_other fsync attempt r p kept (false, a) other holds =
      unfold after_repairs append_response in
      appended_to_other attempt r p kept a
        (append_record compress fsync r.received r.payload (log_at r.path a))
        attempt.write_fails_after other holds

  waits-Ready :
      (p : RawPath) (kept : List (ℕ × Bytes)) (a : Archive)
      → Holds compress decompress p kept a
      → Ready compress decompress p kept a ⊎ (member p a.needs_repair ≡ true)
  waits-Ready p kept a holds = elim holds.marked [
    | inl fit ↦ inl (subst (λ b. Life compress decompress (log_at p a) kept b) fit holds.life)
    | inr marked ↦ inr marked
  ]

  pub archive_raw-After :
      (fsync : Bool) (interval : ℕ) (force : Bool) (attempt : Attempt) (r : Response)
      (kept : List (ℕ × Bytes)) (a : Archive)
      → r.received < 2 ^ 64
      → Holds compress decompress r.path kept a
      → After r kept (archive_raw compress decompress fsync interval force attempt r a)
  unfolding archive_raw
  archive_raw-After fsync interval force attempt r kept a stamp holds =
      elim (Bool-cases (is_due force interval attempt.now (lookup r.path.feed a.last_archived))) [
        | inl due ↦ rw due (
            after_repairs-After fsync attempt r kept
              (repair_pending decompress attempt r.path a.needs_repair a) stamp
              (repair_pending-Holds compress decompress attempt r.path r.path kept a.needs_repair a
                holds)
              (λ done.
                repair_pending-Ready compress decompress attempt r.path kept a.needs_repair a done
                  holds (waits-Ready r.path kept a holds)))
        | inr later ↦ rw later (kept, holds, no_response_added r not_due kept refl)
      ]

  pub archive_raw_other :
      (fsync : Bool) (interval : ℕ) (force : Bool) (attempt : Attempt) (r : Response) (p : RawPath)
      (kept : List (ℕ × Bytes)) (a : Archive)
      → (r.path == p) ≡ false
      → Holds compress decompress p kept a
      → Holds compress decompress p kept
          (archive_raw compress decompress fsync interval force attempt r a).1
  unfolding archive_raw
  archive_raw_other fsync interval force attempt r p kept a other holds =
      elim (Bool-cases (is_due force interval attempt.now (lookup r.path.feed a.last_archived))) [
        | inl due ↦ rw due (
            after_repairs_other fsync attempt r p kept
              (repair_pending decompress attempt r.path a.needs_repair a) other
              (repair_pending-Holds compress decompress attempt r.path p kept a.needs_repair a
                holds))
        | inr later ↦ rw later holds
      ]
