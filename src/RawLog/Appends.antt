-- ===== src/RawLog/Appends.antt =====
-- storage/raw_log.py, what an append and an append that is cut off leave of the shape of a log.
use bkk_collector.Base.{
  ℕ, ◌^◌, ◌≤◌, ◌<◌, ◌≡◌, refl, arith, Bool, true, false, Option, some, List, [], ◌∷◌, ◌++◌, length,
  take, append-nil, All-append, inl, inr, ◌∙◌, ap, sym, zero, suc,
}
use mathlib.Core.Path.{ap₂}
use bkk_collector.RawLog.{
  no_log, Bytes, LogFile, frame, max_compressed_record_bytes, checkpoint_at, bytes_of, append_cut,
  inflates,
}
use bkk_collector.RawLog.Framing.{read_frame_cut}
use bkk_collector.RawLog.Scanning.{Stored, encode, encode-append, IsTail, Fits, decoded}
use bkk_collector.RawLog.Repair.{Vouches, for_nothing, for_prefix}
use bkk_collector.RawLog.Lives.{HasShape, bytes-HasShape, decoded-append, Vouches-append, written}

abbrev with_content : LogFile → Bytes → LogFile
with_content log file = record log { content = some file }

module _ (compress : Bytes → Bytes) (decompress : Bytes → Option Bytes)
    (gunzip : (raw : Bytes) → decompress (compress raw) ≡ some raw) where
  stored : ℕ → Bytes → Stored
  stored ts raw = record { timestamp = ts; payload = compress raw }

  Fits-stored :
      (ts : ℕ) (raw : Bytes)
      → ts < 2 ^ 64
      → length (compress raw) ≤ max_compressed_record_bytes
      → Fits decompress (stored ts raw)
  unfolding stored inflates
  Fits-stored ts raw hts hc = record { stamp = hts; size = hc; sound = ground (arith, gunzip raw) }

  decoded-stored : (ts : ℕ) (raw : Bytes) → decoded decompress (stored ts raw ∷ []) ≡ (ts, raw) ∷ []
  unfolding stored
  decoded-stored ts raw = ground (arith, gunzip raw)

  encode-stored :
      (es : List Stored) (ts : ℕ) (raw : Bytes)
      → encode (es ++ stored ts raw ∷ []) ≡ encode es ++ frame ts (compress raw)
  unfolding encode stored
  encode-stored es ts raw =
      encode-append es (stored ts raw ∷ [])
      ∙ ap (λ x. encode es ++ x) (append-nil (frame ts (compress raw)))

  pub fresh-HasShape :
      {log : LogFile} {kept : List (ℕ × Bytes)}
      → log ≡ no_log
      → kept ≡ []
      → HasShape compress decompress log kept true
  fresh-HasShape h hk = record {
    records = [];
    tail = [];
    content = inr (ap (λ (l : LogFile). l.content) h, refl, refl);
    is_tail = inl refl;
    fits = tt;
    vouches = for_nothing (ap (λ (l : LogFile). l.checkpoint) h);
    decodes = sym hk;
    ready = λ _. refl;
  }

  bytes_ready :
      {log : LogFile} {kept : List (ℕ × Bytes)} (h : HasShape compress decompress log kept true)
      → bytes_of log.content ≡ encode h.records
  bytes_ready h =
      bytes-HasShape compress decompress h
      ∙ ap (λ x. encode h.records ++ x) (h.ready refl)
      ∙ append-nil (encode h.records)

  written-Vouches :
      {log : LogFile} {kept : List (ℕ × Bytes)} (fsync : Bool) (ts : ℕ) (raw : Bytes)
      (h : HasShape compress decompress log kept true)
      → Vouches
          (h.records ++ stored ts raw ∷ [])
          (written compress decompress fsync ts raw log).checkpoint
  written-Vouches false ts raw h = Vouches-append compress decompress (stored ts raw) h.vouches
  written-Vouches true ts raw h =
      for_prefix (h.records ++ stored ts raw ∷ []) []
        (sym (append-nil (h.records ++ stored ts raw ∷ [])))
        (ap (λ x. some (checkpoint_at (length x)))
          (ap (λ x. x ++ frame ts (compress raw)) (bytes_ready h)
            ∙ sym (encode-stored h.records ts raw)))

  pub written-HasShape :
      {log : LogFile} {kept : List (ℕ × Bytes)} (fsync : Bool) (ts : ℕ) (raw : Bytes)
      → ts < 2 ^ 64
      → length (compress raw) ≤ max_compressed_record_bytes
      → HasShape compress decompress log kept true
      → HasShape compress decompress
          (written compress decompress fsync ts raw log)
          (kept ++ (ts, raw) ∷ [])
          true
  written-HasShape fsync ts raw hts hc h = record {
    records = h.records ++ stored ts raw ∷ [];
    tail = [];
    content = inl (
        ap (λ x. some x)
          (ap (λ x. x ++ frame ts (compress raw)) (bytes_ready h)
            ∙ sym (encode-stored h.records ts raw)
            ∙ sym (append-nil (encode (h.records ++ stored ts raw ∷ [])))));
    is_tail = inl refl;
    fits =
        All-append (Fits decompress) h.records (stored ts raw ∷ []) h.fits
          (Fits-stored ts raw hts hc, tt);
    vouches = written-Vouches fsync ts raw h;
    decodes =
        decoded-append compress decompress h.records (stored ts raw ∷ [])
        ∙ ap₂ (λ x y. x ++ y) h.decodes (decoded-stored ts raw);
    ready = λ _. refl;
  }

  IsTail-cut :
      (k ts : ℕ) (c : Bytes)
      → length c ≤ max_compressed_record_bytes
      → k < length (frame ts c)
      → IsTail (take k (frame ts c))
  IsTail-cut zero ts c hc h = inl refl
  IsTail-cut (suc k) ts c hc h = inr (read_frame_cut ts c (suc k) hc (omega arith) h)

  pub cut-HasShape :
      {log : LogFile} {kept : List (ℕ × Bytes)} (k ts : ℕ) (raw : Bytes)
      → length (compress raw) ≤ max_compressed_record_bytes
      → k < length (frame ts (compress raw))
      → HasShape compress decompress log kept true
      → HasShape compress decompress (append_cut compress k ts raw log) kept false
  unfolding append_cut
  cut-HasShape k ts raw hc hk h = record {
    records = h.records;
    tail = take k (frame ts (compress raw));
    content = inl (ap (λ x. some (x ++ take k (frame ts (compress raw)))) (bytes_ready h));
    is_tail = IsTail-cut k ts (compress raw) hc hk;
    fits = h.fits;
    vouches = h.vouches;
    decodes = h.decodes;
    ready = λ e. cc;
  }

  take-full : {A : Type 0} (xs : List A) → take (length xs) xs ≡ xs
  take-full [] = refl
  take-full (x ∷ xs) = ground (arith, take-full xs)

  pub append_cut-whole :
      (ts : ℕ) (raw : Bytes) (log : LogFile)
      → append_cut compress (length (frame ts (compress raw))) ts raw log
        ≡ written compress decompress false ts raw log
  unfolding append_cut
  append_cut-whole ts raw log =
      ap (λ (x : Bytes). with_content log (bytes_of log.content ++ x))
        (take-full (frame ts (compress raw)))
