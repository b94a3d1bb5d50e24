-- ===== src/Tracker/Guard.antt =====
-- realtime/dedup.py, `filter`: the null guard over a run of polls.
use bkk_collector.Base.{
  ℕ, ◌+◌, Bool, true, false, List, [], ◌∷◌, ◌≡◌, refl, ap, ◌↔◌, arith, String, any, length, sym,
  subst, ◌∙◌,
}
use bkk_collector.Base.Int.{pos, ◌≤ℤ◌}
use bkk_collector.Tracker.{
  Settings, Row, Tracker, err, signal_missing, has_signal, check_signal, expire, maybe_reset,
  prepare, select_rows, filter,
}
use bkk_collector.Tracker.Staging.{prepare-settings}

-- No row of a poll carries a required signal.
abbrev pub IsSilent : Settings → List Row → Type 0
IsSilent s rows = any (has_signal s) rows ≡ false

-- One poll and its time.
abbrev pub Poll : Type 0
Poll = List Row × String × ℕ

-- The polls one after the other, each with `update=True`.
unfoldable pub run_polls : Tracker → List Poll → Tracker
run_polls t [] = t
run_polls t ((rows, date, now) ∷ polls) = run_polls (filter t rows date now true).1 polls

abbrev pub rows_in : List Poll → ℕ
rows_in [] = 0
rows_in ((rows, _, _) ∷ polls) = length rows + rows_in polls

abbrev pub AllSilent : Settings → List Poll → Type 0
AllSilent s [] = Unit
AllSilent s ((rows, _, _) ∷ polls) = IsSilent s rows × AllSilent s polls

head_counter :
    (t : Tracker) (date : String) (now : ℕ)
    → (expire now (maybe_reset date t)).consecutive_all_null_rows ≡ t.consecutive_all_null_rows
unfolding expire maybe_reset
head_counter t date now = ground arith

head_settings :
    (t : Tracker) (date : String) (now : ℕ)
    → (expire now (maybe_reset date t)).settings ≡ t.settings
unfolding expire maybe_reset
head_settings t date now = ground arith

select_rows_keeps :
    (raises : Bool) (t : Tracker) (rows : List Row) (now : ℕ) (updates : Bool)
    → ((select_rows raises t rows now updates).1.settings ≡ t.settings)
      × ((select_rows raises t rows now updates).1.consecutive_all_null_rows
          ≡ t.consecutive_all_null_rows)
unfolding select_rows
select_rows_keeps true t rows now updates = (refl, refl)
select_rows_keeps false t rows now true = (refl, refl)
select_rows_keeps false t rows now false = (refl, refl)

check_silent :
    (rows : List Row) (t : Tracker)
    → IsSilent t.settings rows
    → (check_signal rows t).1.consecutive_all_null_rows ≡ t.consecutive_all_null_rows + length rows
unfolding check_signal
check_silent [] t h = omega arith
check_silent (row ∷ rows) t h = rw h

filter_silent :
    (t : Tracker) (rows : List Row) (date : String) (now : ℕ) (updates : Bool)
    → IsSilent t.settings rows
    → (filter t rows date now updates).1.consecutive_all_null_rows
      ≡ t.consecutive_all_null_rows + length rows
unfolding filter prepare
filter_silent t rows date now updates h =
    let u = expire now (maybe_reset date t) in
    (select_rows_keeps (prepare t rows date now).0 (prepare t rows date now).1 rows now updates).1
    ∙ check_silent rows u (rw (head_settings t date now) h)
    ∙ ap (λ (n : ℕ). n + length rows) (head_counter t date now)

filter-settings :
    (t : Tracker) (rows : List Row) (date : String) (now : ℕ) (updates : Bool)
    → (filter t rows date now updates).1.settings ≡ t.settings
unfolding filter
filter-settings t rows date now updates =
    (select_rows_keeps (prepare t rows date now).0 (prepare t rows date now).1 rows now updates).0
    ∙ prepare-settings t rows date now

run_polls-settings : (t : Tracker) (polls : List Poll) → (run_polls t polls).settings ≡ t.settings
unfolding run_polls
run_polls-settings t [] = refl
run_polls-settings t ((rows, date, now) ∷ polls) =
    run_polls-settings (filter t rows date now true).1 polls ∙ filter-settings t rows date now true

run_polls_silent :
    (t : Tracker) (polls : List Poll)
    → AllSilent t.settings polls
    → (run_polls t polls).consecutive_all_null_rows ≡ t.consecutive_all_null_rows + rows_in polls
unfolding run_polls
run_polls_silent t [] h = omega arith
run_polls_silent t ((rows, date, now) ∷ polls) (h, hs) = omega (
  arith,
  run_polls_silent (filter t rows date now true).1 polls
      (subst (λ s. AllSilent s polls) (sym (filter-settings t rows date now true)) hs),
  filter_silent t rows date now true h,
)

check_silent_raises :
    (row : Row) (rows : List Row) (t : Tracker)
    → IsSilent t.settings (row ∷ rows)
    → ((check_signal (row ∷ rows) t).0 ≡ true)
      ↔ (t.settings.null_guard_min_rows ≤ℤ pos (t.consecutive_all_null_rows + length (row ∷ rows)))
unfolding check_signal
check_silent_raises row rows t h = rw h (λ e. ground arith, λ e. ground arith)

select_rows_raises :
    (raises : Bool) (t : Tracker) (rows : List Row) (now : ℕ) (updates : Bool) (n : ℕ)
    → t.consecutive_all_null_rows ≡ n
    → ((select_rows raises t rows now updates).0 ≡ err (signal_missing n)) ↔ (raises ≡ true)
unfolding select_rows
select_rows_raises true t rows now updates n en = (λ e. refl, λ e. cc)
select_rows_raises false t rows now updates n en = (λ e. cc, λ e. cc)

check_raises :
    (row : Row) (rows : List Row) (t : Tracker) (s : Settings) (n : ℕ)
    → t.settings ≡ s
    → t.consecutive_all_null_rows ≡ n
    → IsSilent t.settings (row ∷ rows)
    → ((check_signal (row ∷ rows) t).0 ≡ true)
      ↔ (s.null_guard_min_rows ≤ℤ pos (n + length (row ∷ rows)))
check_raises row rows t s n es en h = rw (← es, ← en) (check_silent_raises row rows t h)

-- The same of the head of `filter`, for a tracker whose settings and counter are known.
filter_silent_raises :
    (u t : Tracker) (s : Settings) (n : ℕ) (row : Row) (rows : List Row) (date : String) (now : ℕ)
    (updates : Bool)
    → t ≡ expire now (maybe_reset date u)
    → t.settings ≡ s
    → t.consecutive_all_null_rows ≡ n
    → IsSilent s (row ∷ rows)
    → ((filter u (row ∷ rows) date now updates).0 ≡ err (signal_missing (n + length (row ∷ rows))))
      ↔ (s.null_guard_min_rows ≤ℤ pos (n + length (row ∷ rows)))
unfolding filter prepare
filter_silent_raises u t s n row rows date now updates e es en h =
    let silent = subst (λ x. IsSilent x (row ∷ rows)) (sym es) h in
    let check = check_raises row rows t s n es en silent in
    let count = check_silent (row ∷ rows) t silent ∙ ap (λ (m : ℕ). m + length (row ∷ rows)) en in
    let selects =
      select_rows_raises (check_signal (row ∷ rows) t).0 (check_signal (row ∷ rows) t).1
        (row ∷ rows) now updates (n + length (row ∷ rows)) count in
    rw (← e) (λ k. check.0 (selects.0 k), λ k. selects.1 (check.1 k))

-- Polls without a single required signal are counted together, whatever their dates and however
-- they are cut: after any number of them the next non-empty one raises exactly when the rows seen
-- so far reach the guard, and it reports their number.
pub guard_after_silent :
    (t : Tracker) (polls : List Poll) (row : Row) (rows : List Row) (date : String) (now : ℕ)
    (updates : Bool)
    → AllSilent t.settings polls
    → IsSilent t.settings (row ∷ rows)
    → let seen = t.consecutive_all_null_rows + rows_in polls + length (row ∷ rows) in
      ((filter (run_polls t polls) (row ∷ rows) date now updates).0 ≡ err (signal_missing seen))
      ↔ (t.settings.null_guard_min_rows ≤ℤ pos seen)
guard_after_silent t polls row rows date now updates hs h =
    let u = run_polls t polls in
    filter_silent_raises u (expire now (maybe_reset date u)) t.settings
      (t.consecutive_all_null_rows + rows_in polls) row rows date now updates refl
      (head_settings u date now ∙ run_polls-settings t polls)
      (head_counter u date now ∙ run_polls_silent t polls hs) h
