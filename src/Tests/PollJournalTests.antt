-- ===== src/Tests/PollJournalTests.antt =====
-- storage/poll_journal.py on a journal with one line and the beginning of another.
use bkk_collector.Base.{Bool, false, none, ◌≡◌, refl, arith, [], ◌∷◌, ◌++◌, length, some, inr}
use bkk_collector.RawLog.{Bytes, LogFile, checkpoint_at}
use bkk_collector.PollJournal.{repair_jsonl_tail, last_line_start}
use bkk_collector.PollJournal.Mending.{repair_jsonl_tail-Lines}
use bkk_collector.PollJournal.LastLine.{ends, last_line_start-Lines}

abbrev whole_lines : Bytes
whole_lines = 65 ∷ 10 ∷ []

abbrev open_line : Bytes
open_line = 66 ∷ 67 ∷ []

last_line_start-Lines_example :
    last_line_start (whole_lines ++ open_line ++ []) (length (whole_lines ++ open_line ++ []))
    ≡ some 2
last_line_start-Lines_example =
    last_line_start-Lines whole_lines open_line [] (ends (65 ∷ []) refl)
      ((λ e. omega (arith, e)), ((λ e. omega (arith, e)), tt)) (inr (refl, λ e. cc e))

-- A journal whose last event was cut off in its middle.
abbrev torn : LogFile
torn = record { content = some (whole_lines ++ open_line); checkpoint = none; recovered = [] }

abbrev never : Bytes → Bool
never line = false

repair_jsonl_tail-Lines_example :
    repair_jsonl_tail never torn
    ≡ some (
      some open_line,
      record {
        content = some whole_lines;
        checkpoint = some (checkpoint_at 2);
        recovered = open_line ∷ [];
      },
    )
repair_jsonl_tail-Lines_example =
    repair_jsonl_tail-Lines never torn whole_lines open_line refl refl (ends (65 ∷ []) refl)
      ((λ e. omega (arith, e)), ((λ e. omega (arith, e)), tt)) (λ e. cc e)
