-- ===== src/RawLog/Repair.antt =====
-- storage/raw_log.py, `repair_truncated_tail`: the valid prefix stays, the tail is kept beside it.
use bkk_collector.Base.{
  ℕ, ◌+◌, ◌≤◌, ◌≡◌, refl, arith, true, Option, none, some, List, [], ◌∷◌, ◌++◌, length,
  length-append, append-nil, All, nat_beq, inl, inr, ◌∙◌, ap, sym, subst, nat_beq_iff,
  drop-length-append, take-length-append, if◌then◌else◌, is_empty, Bool-cases,
}
use bkk_collector.RawLog.{
  Bytes, LogFile, Checkpoint, checkpoint_at, checkpoint_bytes, scan_for_repair, detach, repair_file,
  repair_content, repair_truncated_tail, scan_result,
}
use bkk_collector.RawLog.Scanning.{
  Stored, encode, encode-append, IsTail, Fits, scan_raw_log-encode, scan_raw_log_from-encode,
}

-- A checkpoint that vouches for nothing, or for the bytes of whole records.
pub data Vouches (es : List Stored) (c : Option Checkpoint) : Type 0 where
  for_nothing : c ≡ none → Vouches es c
  for_prefix :
      (xs ys : List Stored)
      → es ≡ xs ++ ys
      → c ≡ some (checkpoint_at (length (encode xs)))
      → Vouches es c

-- The state after a repair: the whole records, a checkpoint, and the tail beside the log.
abbrev pub repaired : LogFile → List Stored → Bytes → LogFile
repaired log es tail = record log {
  content = some (encode es);
  checkpoint = some (checkpoint_at (length (encode es)));
  recovered = if is_empty tail then log.recovered else tail ∷ log.recovered;
}

abbrev pub found_tail : Bytes → Option Bytes
found_tail tail = if is_empty tail then none else some tail

detach-encode :
    (log : LogFile) (es : List Stored) (tail : Bytes) (count : ℕ)
    → log.content ≡ some (encode es ++ tail)
    → detach log
        (encode es ++ tail)
        (scan_result count (length (encode es)) (length (encode es ++ tail)) (is_empty tail))
      ≡ (found_tail tail, repaired log es tail)
unfolding detach
detach-encode log es [] count h = ground (arith, append-nil (encode es))
detach-encode log es (x ∷ tail) count h =
    rw (drop-length-append (encode es) (x ∷ tail), take-length-append (encode es) (x ∷ tail))

checkpoint_bytes_at :
    (n size : ℕ) → n ≤ size → checkpoint_bytes (some (checkpoint_at n)) size ≡ some n
unfolding checkpoint_bytes
checkpoint_bytes_at n size h = ground arith

length-zero : {A : Type 0} (xs : List A) → length xs ≡ 0 → xs ≡ []
length-zero [] h = refl
length-zero (x ∷ xs) h = absurd (omega arith)

All-append_right : (P : Stored → Type 0) (xs ys : List Stored) → All P (xs ++ ys) → All P ys
All-append_right P [] ys h = h
All-append_right P (x ∷ xs) ys h = All-append_right P xs ys h.1

module _ (decompress : Bytes → Option Bytes) where
  repair_file_untrusted :
      (log : LogFile) (es : List Stored) (tail : Bytes)
      → log.content ≡ some (encode es ++ tail)
      → IsTail tail
      → All (Fits decompress) es
      → repair_file decompress log (encode es ++ tail) none
        ≡ some (found_tail tail, repaired log es tail)
  unfolding repair_file scan_for_repair
  repair_file_untrusted log es tail h t fits =
      rw (scan_raw_log-encode decompress true es tail t fits)
        (ap (λ x. some x) (detach-encode log es tail (length es) h))

  nothing_to_repair :
      (log : LogFile) (es : List Stored) (n : ℕ)
      → log.content ≡ some (encode es ++ [])
      → log.checkpoint ≡ some (checkpoint_at n)
      → n ≡ length (encode es)
      → ◌≡◌ {A = Option Bytes × LogFile} (none, log) (found_tail [], repaired log es [])
  nothing_to_repair log es n h c e = ground (arith, append-nil (encode es))

  repair_file_trusted :
      (log : LogFile) (xs ys : List Stored) (tail : Bytes)
      → log.content ≡ some (encode (xs ++ ys) ++ tail)
      → log.checkpoint ≡ some (checkpoint_at (length (encode xs)))
      → IsTail tail
      → All (Fits decompress) ys
      → repair_file decompress log (encode (xs ++ ys) ++ tail) (some (length (encode xs)))
        ≡ some (found_tail tail, repaired log (xs ++ ys) tail)
  unfolding repair_file scan_for_repair
  repair_file_trusted log xs ys tail h c t fits =
      elim (Bool-cases (nat_beq (length (encode xs)) (length (encode (xs ++ ys) ++ tail)))) [
        | inl full ↦
            let same =
              (nat_beq_iff (length (encode xs)) (length (encode (xs ++ ys) ++ tail))).0 full in
            let size = length-append (encode (xs ++ ys)) tail in
            let parts : length (encode (xs ++ ys)) ≡ length (encode xs) + length (encode ys) =
              ap length (encode-append xs ys) ∙ length-append (encode xs) (encode ys) in
            let gone : tail ≡ [] = length-zero tail (omega arith) in
            rw full (
              rw gone (
                ap (λ x. some x)
                  (nothing_to_repair log (xs ++ ys) (length (encode xs))
                    (subst (λ x. log.content ≡ some (encode (xs ++ ys) ++ x)) gone h) c
                    (omega arith))))
        | inr more ↦
            rw (more, scan_raw_log_from-encode decompress xs ys tail t fits)
              (ap (λ x. some x) (detach-encode log (xs ++ ys) tail (length ys) h))
      ]

  length-le-prefix :
      (xs ys : List Stored) (tail : Bytes) → length (encode xs) ≤ length (encode (xs ++ ys) ++ tail)
  length-le-prefix xs ys tail = omega (
    arith,
    ap length (encode-append xs ys),
    length-append (encode xs) (encode ys),
    length-append (encode (xs ++ ys)) tail,
  )

  repair_by :
      (log : LogFile) (file : Bytes) (trusted : Option ℕ)
      → log.content ≡ some file
      → checkpoint_bytes log.checkpoint (length file) ≡ trusted
      → repair_truncated_tail decompress log ≡ repair_file decompress log file trusted
  unfolding repair_truncated_tail
  repair_by log file trusted h e =
      ap (repair_content decompress log) h ∙ ap (repair_file decompress log file) e

  -- Repairing a log of records that fit, with nothing or a torn record behind them: exactly the
  -- records stay, the checkpoint is at their end, and the tail, if there is one, is beside the log
  -- as it was. This holds for a log without a checkpoint and for one whose checkpoint stands at the
  -- end of any of the records, which spares the scan of those before it.
  pub repair_truncated_tail-encode :
      (log : LogFile) (es : List Stored) (tail : Bytes)
      → log.content ≡ some (encode es ++ tail)
      → IsTail tail
      → All (Fits decompress) es
      → Vouches es log.checkpoint
      → repair_truncated_tail decompress log ≡ some (found_tail tail, repaired log es tail)
  repair_truncated_tail-encode log es tail h t fits (for_nothing c) =
      repair_by log (encode es ++ tail) none h (
        ap (λ x. checkpoint_bytes x (length (encode es ++ tail))) c
        ∙ unfold checkpoint_bytes in refl)
      ∙ repair_file_untrusted log es tail h t fits
  repair_truncated_tail-encode log es tail h t fits (for_prefix xs ys e c) =
      let h' = subst (λ zs. log.content ≡ some (encode zs ++ tail)) e h in
      repair_by log (encode (xs ++ ys) ++ tail) (some (length (encode xs))) h' (
        ap (λ x. checkpoint_bytes x (length (encode (xs ++ ys) ++ tail))) c
        ∙ checkpoint_bytes_at (length (encode xs)) (length (encode (xs ++ ys) ++ tail))
            (length-le-prefix xs ys tail))
      ∙ repair_file_trusted log xs ys tail h' c t
          (All-append_right (Fits decompress) xs ys (subst (All (Fits decompress)) e fits))
      ∙ ap (λ zs. some (found_tail tail, repaired log zs tail)) (sym e)
