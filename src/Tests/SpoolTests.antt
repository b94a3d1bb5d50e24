-- ===== src/Tests/SpoolTests.antt =====
-- storage/parquet_store.py on a partition whose commit is cut off behind its output; numbers name
-- segments, and an output is named by the list of its segments.
use bkk_collector.Base.{ℕ, ◌+◌, nat_eq, list_eq, List, [], ◌∷◌, ◌≡◌, refl, Bool, false, ltb}
use bkk_collector.Base.Dict.{lookup, insert, erase}
use bkk_collector.Base.Sorting.{total}
use bkk_collector.Spool.{
  flush, stage, recover_all, run, apply_op, commit_all, commit_ops, read_all, output_ops,
}
use bkk_collector.Spool.Refinement.{
  Event, staged, flushed, history, no_files, history-readable, polled,
}
use bkk_collector.Spool.Emptying.{flush-history, Flushed}
use bkk_collector.Spool.States.{readable, tally}

abbrev names : List ℕ → List ℕ
names xs = xs

-- Two polls, a flush that is cut off before its segments are gone, and a poll.
abbrev events : List (Event ℕ ℕ)
events = staged 2 (20 ∷ 21 ∷ []) ∷ staged 1 (10 ∷ []) ∷ flushed 5 3 ∷ staged 3 (30 ∷ []) ∷ []

cut_off : (history names ltb events no_files).segments ≡ (2, 20 ∷ 21 ∷ []) ∷ (3, 30 ∷ []) ∷ []
unfolding stage flush recover_all run apply_op commit_all commit_ops read_all output_ops insert
    erase lookup
cut_off = refl

history-readable_example :
    ((test : ℕ → Bool)
      → readable test (history names ltb events no_files) ≡ tally test (polled events))
    × ((budget : ℕ)
        → (recover_all budget
            (history names ltb events no_files).markers
            (history names ltb events no_files)).0
          ≡ false)
history-readable_example =
    history-readable names (λ xs ys h. h) ltb events (refl, (refl, (refl, tt)))

flush-history_example :
    (commits : ℕ) × ((more : ℕ)
      → (steps : ℕ) × ((k : ℕ)
          → Flushed
              (flush names ltb (commits + more) (steps + k) (history names ltb events no_files))
            × ((test : ℕ → Bool)
                → total
                    (tally test)
                    (flush names ltb
                      (commits + more)
                      (steps + k)
                      (history names ltb events no_files)).outputs
                  ≡ tally test (polled events))))
flush-history_example = flush-history names (λ xs ys h. h) ltb events (refl, (refl, (refl, tt)))
