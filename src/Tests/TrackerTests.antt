-- ===== src/Tests/TrackerTests.antt =====
-- realtime/dedup.py at a small tracker: one exact field, one number with a tolerance of 15.
use bkk_collector.Base.{
  ℕ, ◌↔◌, String, true, false, none, some, [], ◌∷◌, ◌≡◌, refl, arith, option_eq, list_eq, string_eq,
}
use bkk_collector.Base.Int.{pos, ◌≤ℤ◌}
use bkk_collector.Base.Dict.{lookup, insert, update, erase}
use bkk_collector.Tracker.{
  text, number, Row, Settings, Entry, Tracker, ok, err, signal_missing, new_tracker, maybe_reset,
  expire, drop_expired, select, check_signal, filter, commit, must_write, numeric_changed, key_of,
  entry_of, value_eq,
}
use bkk_collector.Tracker.Expiry.{select-expire}
use bkk_collector.Tracker.Staging.{filter-commit, filter_unstaged, SameView}
use bkk_collector.Tracker.Coverage.{Covers, Covered, must_write-Covers, filter-Covered}
use bkk_collector.Tracker.Guard.{run_polls, guard_after_silent}

abbrev settings : Settings
settings = record {
  key_fields = "trip" ∷ [];
  value_fields = "status" ∷ [];
  heartbeat_seconds = 1800;
  numeric_tolerance_fields = "delay" ∷ [];
  tolerance = pos 15;
  numeric_tolerances = [];
  required_signal_fields = "delay" ∷ [];
  null_guard_min_rows = pos 3;
}

abbrev pub row : String → ℕ → Row
row trip delay = record {
  cells = ("trip", text trip) ∷ ("status", number (pos 0)) ∷ [];
  numbers = ("delay", pos delay) ∷ [];
}

abbrev silent : String → Row
silent trip = record { cells = ("trip", text trip) ∷ []; numbers = [] }

abbrev entry : ℕ → ℕ → Entry
entry delay at = record {
  exact = some (number (pos 0)) ∷ [];
  numeric = some (pos delay) ∷ [];
  written_at = at;
}

-- One trip was written long ago and one lately.
abbrev pub tracker : Tracker
tracker = record {
  settings = settings;
  last =
      ((some (text "old") ∷ []), entry 0 1000) ∷ ((some (text "new") ∷ []), entry 40 2000000) ∷ [];
  day = some "2026-01-02";
  last_expiry = none;
  consecutive_all_null_rows = 0;
}

starts : new_tracker settings ≡ ok (record tracker { last = []; day = none })
unfolding new_tracker
starts = refl

abbrev today : String
today = "2026-01-02"

selects :
    (filter tracker (row "old" 0 ∷ row "new" 55 ∷ row "new" 56 ∷ []) today 2000500 false).0
    ≡ ok (row "old" 0 ∷ row "new" 56 ∷ [])
unfolding filter check_signal maybe_reset expire drop_expired lookup insert erase key_of entry_of
    numeric_changed
selects = refl

select-expire_example :
    select settings (expire 2000500 tracker).last 2000600 [] (row "old" 0 ∷ [])
    ≡ select settings tracker.last 2000600 [] (row "old" 0 ∷ [])
select-expire_example = select-expire tracker 2000500 2000600 (row "old" 0 ∷ []) (omega arith)

filter-commit_example :
    SameView
      (commit
        (filter tracker (row "old" 0 ∷ row "new" 55 ∷ row "new" 56 ∷ []) today 2000500 false).1
        (row "old" 0 ∷ row "new" 56 ∷ [])
        today
        2000500).last
      (filter tracker (row "old" 0 ∷ row "new" 55 ∷ row "new" 56 ∷ []) today 2000500 true).1.last
filter-commit_example =
    filter-commit tracker (row "old" 0 ∷ row "new" 55 ∷ row "new" 56 ∷ [])
      (row "old" 0 ∷ row "new" 56 ∷ []) today 2000500 selects

filter_unstaged_example :
    ((filter
        (filter tracker (row "old" 3 ∷ []) today 2000500 false).1
        (row "old" 4 ∷ [])
        today
        2001000
        true).0
      ≡ (filter tracker (row "old" 4 ∷ []) today 2001000 true).0)
    × ((filter tracker (row "old" 4 ∷ []) today 2001000 true).0
        ≡ ok (select settings tracker.last 2001000 [] (row "old" 4 ∷ [])).0)
unfolding lookup
filter_unstaged_example =
    filter_unstaged tracker (row "old" 3 ∷ []) (row "old" 4 ∷ []) today 2000500 2001000 true refl
      (omega arith) refl

must_write-Covers_example :
    (must_write settings 2000500 (some (entry 40 2000000)) (entry 55 2000500) ≡ false)
    ↔ Covers settings 2000500 (entry 40 2000000) (entry 55 2000500)
must_write-Covers_example = must_write-Covers settings 2000500 (entry 40 2000000) (entry 55 2000500)

passes :
    (filter tracker (row "old" 0 ∷ row "new" 50 ∷ []) today 2000500 true).0 ≡ ok (row "old" 0 ∷ [])
unfolding filter check_signal maybe_reset expire drop_expired lookup insert erase key_of entry_of
    numeric_changed update
passes = refl

filter-Covered_example :
    Covered settings 2000500
      (lookup
        (key_of settings (row "new" 50))
        (filter tracker (row "old" 0 ∷ row "new" 50 ∷ []) today 2000500 true).1.last)
      (entry_of settings 2000500 (row "new" 50))
filter-Covered_example =
    filter-Covered tracker (row "old" 0 ∷ []) (row "old" 0 ∷ []) (row "new" 50) today 2000500
      (omega arith) passes

guard_after_silent_example :
    ((filter
        (run_polls tracker ((silent "a" ∷ silent "b" ∷ [], today, 2000500) ∷ []))
        (silent "c" ∷ [])
        today
        2001000
        false).0
      ≡ err (signal_missing 3))
    ↔ (pos 3 ≤ℤ pos 3)
unfolding lookup
guard_after_silent_example =
    guard_after_silent tracker ((silent "a" ∷ silent "b" ∷ [], today, 2000500) ∷ []) (silent "c") []
      today 2001000 false (refl, tt) refl
