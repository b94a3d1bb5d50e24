-- ===== src/PollJournal/Mending.antt =====
-- storage/poll_journal.py, `repair_jsonl_tail` on a journal whose last append was interrupted.
use bkk_collector.Base.{
  ℕ, zero, suc, ◌+◌, ◌<◌, ◌≡◌, ◌≢◌, refl, subst, arith, ap, ◌∙◌, [], ◌∷◌, ◌++◌, Bool, true, false,
  Option, none, some, drop, length, if◌then◌else◌, inl, inr, length-append, take-length-append,
  drop-length-append, append-nil, Bool-cases,
}
use bkk_collector.RawLog.{Bytes, LogFile, checkpoint_at, checkpoint_bytes}
use bkk_collector.PollJournal.{
  newline, read_line, ends_line, valid_lines, torn_line, judge, check_lines, mend, mend_found,
  mend_from, mend_file, mend_content, repair_jsonl_tail, last_line_start,
}
use bkk_collector.PollJournal.LastLine.{Lines, IsLine, last_line_start-Lines}

read_line-IsLine : (line : Bytes) → IsLine line → read_line line ≡ (line, [])
unfolding read_line
read_line-IsLine [] h = refl
read_line-IsLine (b ∷ line) (h, hs) = ground (arith, read_line-IsLine line hs)

ends_line-IsLine : (line : Bytes) → IsLine line → ends_line line ≡ false
ends_line-IsLine [] h = refl
ends_line-IsLine (b ∷ []) (h, hs) = ground arith
ends_line-IsLine (b ∷ c ∷ line) (h, hs) = ends_line-IsLine (c ∷ line) hs

last_counts : (text line : Bytes) → line ≢ [] → 0 < length (text ++ line)
last_counts text [] full = absurd (full refl)
last_counts text (b ∷ line) full = omega (arith, length-append text (b ∷ line))

module _ (is_event : Bytes → Bool) where
  check_lines_open :
      (fuel offset : ℕ) (line : Bytes)
      → 0 < fuel
      → line ≢ []
      → IsLine line
      → check_lines is_event fuel offset line
        ≡ some (if is_event line then valid_lines true else torn_line offset line)
  check_lines_open zero offset line h full p = absurd (omega arith)
  check_lines_open (suc fuel) offset [] h full p = absurd (full refl)
  check_lines_open (suc fuel) offset (b ∷ line) h full p =
      unfold check_lines judge in
      rw (read_line-IsLine (b ∷ line) p, ends_line-IsLine (b ∷ line) p) (ground arith)

  -- The journal after the repair: the interrupted line, if it is a whole event, gets the separator
  -- that it lacks; else it is beside the journal.
  abbrev pub mended : LogFile → Bytes → Bytes → Option Bytes × LogFile
  mended log text line =
      if is_event line
      then (
        none,
        record log {
          content = some (text ++ line ++ newline ∷ []);
          checkpoint = some (checkpoint_at (length (text ++ line) + 1));
        },
      )
      else (
        some line,
        record {
          content = some text;
          checkpoint = some (checkpoint_at (length text));
          recovered = log.recovered ++ line ∷ [];
        },
      )

  mend_open :
      (log : LogFile) (text line : Bytes)
      → mend_found is_event log
          (text ++ line)
          (some (if is_event line then valid_lines true else torn_line (length text) line))
        ≡ some (mended log text line)
  mend_open log text line = elim (Bool-cases (is_event line)) [
    | inl e ↦ unfold mend_found mend in rw e refl
    | inr e ↦ unfold mend_found mend in rw (e, take-length-append text line) refl
  ]

  -- A journal without a checkpoint whose last line lacks its separator is repaired: the lines in
  -- front of it stay as they were, and the line itself stays with its separator where it is an
  -- event, and is else the forensic file, so that no byte is lost.
  pub repair_jsonl_tail-Lines :
      (log : LogFile) (text line : Bytes)
      → log.content ≡ some (text ++ line)
      → log.checkpoint ≡ none
      → Lines text
      → IsLine line
      → line ≢ []
      → repair_jsonl_tail is_event log ≡ some (mended log text line)
  repair_jsonl_tail-Lines log text line c p lines h full =
      let file = text ++ line in
      let size : 0 < length file = last_counts text line full in
      let at_line : last_line_start file (length file) ≡ some (length text) =
        subst (λ f. last_line_start f (length f) ≡ some (length text)) (append-nil file)
          (last_line_start-Lines text line [] lines h (inr (refl, full))) in
      let tail : check_lines is_event (length file) (length text) (drop (length text) file)
          ≡ some (if is_event line then valid_lines true else torn_line (length text) line) =
        ap (check_lines is_event (length file) (length text)) (drop-length-append text line)
        ∙ check_lines_open (length file) (length text) line size full h in
      let start : repair_jsonl_tail is_event log ≡ mend_content is_event log (some file) =
        unfold repair_jsonl_tail in ap (mend_content is_event log) c in
      let none_valid : mend_content is_event log (some file)
          ≡ mend_from is_event log file (last_line_start file (length file)) =
        unfold mend_content mend_file checkpoint_bytes in
        ap (λ x. mend_file is_event log file (checkpoint_bytes x (length file))) p in
      let from : mend_from is_event log file (some (length text))
          ≡ mend_found is_event log file
              (check_lines is_event (length file) (length text) (drop (length text) file)) =
        unfold mend_from in refl in
      start
      ∙ none_valid
      ∙ ap (mend_from is_event log file) at_line
      ∙ from
      ∙ ap (mend_found is_event log file) tail
      ∙ mend_open log text line
