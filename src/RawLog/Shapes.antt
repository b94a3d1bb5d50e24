-- ===== src/RawLog/Shapes.antt =====
-- storage/raw_log.py, the shape of a log over its life.
use bkk_collector.Base.{
  ℕ, ◌≡◌, refl, Bool, true, false, Option, none, some, List, [], ◌∷◌, append-nil, inl, inr, ◌∙◌, ap,
  sym, subst,
}
use mathlib.Core.Option.{some-injective}
use bkk_collector.RawLog.{Bytes, LogFile, repair_truncated_tail, repair_content}
use bkk_collector.RawLog.Scanning.{encode}
use bkk_collector.RawLog.Repair.{for_prefix, repaired, found_tail, repair_truncated_tail-encode}
use bkk_collector.RawLog.Lives.{
  Life, fresh, appended, cut, unconfirmed, copies, truncates, repairs, HasShape,
  append_record-eq-some,
}
use bkk_collector.RawLog.Appends.{fresh-HasShape, written-HasShape, cut-HasShape, append_cut-whole}

no_tail :
    {log : LogFile} (tail : Bytes) (after : LogFile)
    → ◌≡◌ {A = Option (Option Bytes × LogFile)} (some (none, log)) (some (some tail, after))
    → ⊥
no_tail {log} tail after e =
    let same =
      ap (λ (x : Option Bytes × LogFile). x.0) (some-injective (none, log) (some tail, after) e) in
    cc same

one_after :
    {o : Option (Option Bytes × LogFile)} {f g : Option Bytes} {l m : LogFile}
    → o ≡ some (f, l)
    → o ≡ some (g, m)
    → l ≡ m
one_after {f = f} {g = g} {l = l} {m = m} p q =
    ap (λ (x : Option Bytes × LogFile). x.1) (some-injective (f, l) (g, m) (sym p ∙ q))

module _ (compress : Bytes → Bytes) (decompress : Bytes → Option Bytes)
    (gunzip : (raw : Bytes) → decompress (compress raw) ≡ some raw) where
  pub repair_missing :
      (log : LogFile) → log.content ≡ none → repair_truncated_tail decompress log ≡ some (none, log)
  unfolding repair_truncated_tail repair_content
  repair_missing log e = ap (repair_content decompress log) e

  -- A repair of a log of this shape succeeds and leaves it fit, with the same records.
  repair-HasShape :
      {log : LogFile} {kept : List (ℕ × Bytes)} {fit : Bool}
      → HasShape compress decompress log kept fit
      → (found : Option Bytes) × (after : LogFile) × (repair_truncated_tail decompress log
          ≡ some (found, after))
        × HasShape compress decompress after kept true
  repair-HasShape {log} h = elim h.content [
    | inl e ↦ (
      found_tail h.tail,
      repaired log h.records h.tail,
      repair_truncated_tail-encode decompress log h.records h.tail e h.is_tail h.fits h.vouches,
      record {
        records = h.records;
        tail = [];
        content = inl (ap (λ x. some x) (sym (append-nil (encode h.records))));
        is_tail = inl refl;
        fits = h.fits;
        vouches = for_prefix h.records [] (sym (append-nil h.records)) refl;
        decodes = h.decodes;
        ready = λ _. refl;
      },
    )
    | inr (e, er, et) ↦ (
      none,
      log,
      repair_missing log e,
      record {
        records = h.records;
        tail = h.tail;
        content = h.content;
        is_tail = h.is_tail;
        fits = h.fits;
        vouches = h.vouches;
        decodes = h.decodes;
        ready = λ _. et;
      },
    )
  ]

  copies-HasShape :
      {log : LogFile} {kept : List (ℕ × Bytes)} {fit : Bool} (copy : Bytes)
      → HasShape compress decompress log kept fit
      → HasShape compress decompress (record log { recovered = copy ∷ log.recovered }) kept fit
  copies-HasShape copy h = record {
    records = h.records;
    tail = h.tail;
    content = h.content;
    is_tail = h.is_tail;
    fits = h.fits;
    vouches = h.vouches;
    decodes = h.decodes;
    ready = h.ready;
  }

  truncates-HasShape :
      {log after : LogFile} {kept : List (ℕ × Bytes)} {fit : Bool} (tail : Bytes)
      → repair_truncated_tail decompress log ≡ some (some tail, after)
      → HasShape compress decompress log kept fit
      → HasShape compress decompress (record after { checkpoint = log.checkpoint }) kept true
  truncates-HasShape {log} {after} {kept} tail e h = elim h.content [
    | inl full ↦
        let same =
          one_after
            (repair_truncated_tail-encode decompress log h.records h.tail full h.is_tail h.fits
              h.vouches)
            e in
        subst
          (λ (l : LogFile).
            HasShape compress decompress (record l { checkpoint = log.checkpoint }) kept true)
          same
          (record {
            records = h.records;
            tail = [];
            content = inl (ap (λ x. some x) (sym (append-nil (encode h.records))));
            is_tail = inl refl;
            fits = h.fits;
            vouches = h.vouches;
            decodes = h.decodes;
            ready = λ _. refl;
          })
    | inr (missing, er, et) ↦ absurd (no_tail tail after (sym (repair_missing log missing) ∙ e))
  ]

  pub Life-HasShape :
      {log : LogFile} {kept : List (ℕ × Bytes)} {fit : Bool}
      → Life compress decompress log kept fit
      → HasShape compress decompress log kept fit
  Life-HasShape (fresh h hk) = fresh-HasShape compress decompress gunzip h hk
  Life-HasShape (appended {log} {after} fsync ts raw life hts h hk) =
      let (size, e) = append_record-eq-some compress decompress fsync ts raw log after h in
      rw (e, hk)
        (written-HasShape compress decompress gunzip fsync ts raw hts size (Life-HasShape life))
  Life-HasShape (cut k ts raw life size h e) =
      rw e (cut-HasShape compress decompress gunzip k ts raw size h (Life-HasShape life))
  Life-HasShape (unconfirmed {log} {after} {kept} {kept'} ts raw life hts size h hk) =
      rw (h, append_cut-whole compress decompress gunzip ts raw log, hk)
        (written-HasShape compress decompress gunzip false ts raw hts size (Life-HasShape life))
  Life-HasShape (copies copy life h) = rw h (copies-HasShape copy (Life-HasShape life))
  Life-HasShape (truncates tail life e h) = rw h (truncates-HasShape tail e (Life-HasShape life))
  Life-HasShape (repairs {kept = kept} found life h) =
      let (found', after', h', shape) = repair-HasShape (Life-HasShape life) in
      subst (λ l. HasShape compress decompress l kept true) (one_after h' h) shape
