-- ===== src/PollJournal.antt =====
-- storage/poll_journal.py: `_last_line_start`, which searches a journal backwards in blocks for the
-- start of its final line, and `repair_jsonl_tail`. Whether a line is a JSON object is a parameter.
pub mod LastLine
pub mod Mending
use mathlib.Core.Option
use bkk_collector.Base.{
  ℕ, zero, suc, ◌+◌, ◌-◌, List, [], ◌∷◌, ◌++◌, Bool, true, false, not, Option, none, some, take,
  drop, length, is_empty, get_elem?, ◌==◌, option_eq, nat_eq, if◌then◌else◌, nat_beq,
}
use bkk_collector.RawLog.{Bytes, LogFile, checkpoint_at, checkpoint_bytes}

abbrev pub newline : ℕ
newline = 10

abbrev pub block_bytes : ℕ
block_bytes = 4096

-- `block.rfind(b"\n")`; `none` is -1.
unfoldable pub rfind : ℕ → Bytes → Option ℕ
rfind b [] = none
rfind b (x ∷ xs) = elim (rfind b xs) [
  | none ↦ if nat_beq x b then some 0 else none
  | some i ↦ some (i + 1)
]

-- Where the search starts: before the final separator, if there is one.
unfoldable pub search_end : Bytes → ℕ → ℕ
search_end file size = if get_elem? file (size - 1) == some newline then size - 1 else size

-- `while end`, on fuel; `none` is a search that did not end.
unfoldable pub search : ℕ → Bytes → ℕ → Option ℕ
unfolding rfind
search fuel file zero = some 0
search zero file (suc n) = none
search (suc fuel) file (suc n) =
    let start = suc n - block_bytes in
    elim (rfind newline (take (suc n - start) (drop start file))) [
      | some separator ↦ some (start + separator + 1)
      | none ↦ search fuel file start
    ]

-- `_last_line_start`
unfoldable pub last_line_start : Bytes → ℕ → Option ℕ
unfolding search search_end
last_line_start file size = search size file (search_end file size)

-- `readline`: the line with its separator, and the rest.
unfoldable pub read_line : Bytes → Bytes × Bytes
read_line [] = ([], [])
read_line (b ∷ file) =
    let (line, rest) = read_line file in
    if nat_beq b newline then (b ∷ [], file) else (b ∷ line, rest)

abbrev pub ends_line : Bytes → Bool
ends_line [] = false
ends_line (b ∷ []) = nat_beq b newline
ends_line (b ∷ c ∷ line) = ends_line (c ∷ line)

-- What the loop over the lines finds.
pub data JournalTail : Type 0 where
  -- an invalid line with more behind it: an exception
  interior_corruption : JournalTail
  -- an invalid final line, at an offset
  torn_line : ℕ → Bytes → JournalTail
  -- valid lines; whether the last one lacks its separator
  valid_lines : Bool → JournalTail

module _ (is_event : Bytes → Bool) where
  -- A line and its verdict, with what is behind it and what the lines behind it give.
  unfoldable pub judge : ℕ → Bytes → Bytes → JournalTail → JournalTail
  judge offset line rest behind =
      if is_event line
      then (if is_empty rest then valid_lines (not (ends_line line)) else behind)
      else (if is_empty rest then torn_line offset line else interior_corruption)

  -- `while handle.tell() < size`, on fuel; `none` is fuel that ran out.
  unfoldable pub check_lines : ℕ → ℕ → Bytes → Option JournalTail
  unfolding judge
  check_lines fuel offset [] = some (valid_lines false)
  check_lines zero offset (b ∷ file) = none
  check_lines (suc fuel) offset (b ∷ file) =
      let (line, rest) = read_line (b ∷ file) in
      Option.map (judge offset line rest) (check_lines fuel (offset + length line) rest)

  -- What follows the loop, for a journal; `none` is the exception.
  unfoldable pub mend : LogFile → Bytes → JournalTail → Option (Option Bytes × LogFile)
  mend log file interior_corruption = none
  mend log file (torn_line offset line) = some (
    some line,
    record {
      content = some (take offset file);
      checkpoint = some (checkpoint_at offset);
      recovered = log.recovered ++ line ∷ [];
    },
  )
  mend log file (valid_lines true) = some (
    none,
    record log {
      content = some (file ++ newline ∷ []);
      checkpoint = some (checkpoint_at (length file + 1));
    },
  )
  mend log file (valid_lines false) =
      some (none, record log { checkpoint = some (checkpoint_at (length file)) })

  unfoldable pub mend_found : LogFile → Bytes → Option JournalTail → Option (Option Bytes × LogFile)
  unfolding mend
  mend_found log file none = none
  mend_found log file (some tail) = mend log file tail

  unfoldable pub mend_from : LogFile → Bytes → Option ℕ → Option (Option Bytes × LogFile)
  unfolding mend_found check_lines
  mend_from log file none = none
  mend_from log file (some start) = elim (check_lines (length file) start (drop start file)) [
    | none ↦ none
    | some tail ↦ mend log file tail
  ]

  unfoldable pub mend_file : LogFile → Bytes → Option ℕ → Option (Option Bytes × LogFile)
  unfolding mend_from last_line_start
  mend_file log file none = mend_from log file (last_line_start file (length file))
  mend_file log file (some valid) =
      if nat_beq valid (length file) then some (none, log) else mend_from log file (some valid)

  unfoldable pub mend_content : LogFile → Option Bytes → Option (Option Bytes × LogFile)
  unfolding mend_file
  mend_content log none = some (none, log)
  mend_content log (some file) = mend_file log file (checkpoint_bytes log.checkpoint (length file))

  -- `repair_jsonl_tail`
  unfoldable pub repair_jsonl_tail : LogFile → Option (Option Bytes × LogFile)
  unfolding mend_content
  repair_jsonl_tail log = mend_content log log.content
