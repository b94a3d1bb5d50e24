-- ===== src/Tracker/Staging.antt =====
-- realtime/dedup.py: the two-phase flow of `filter(update=False)`, a durable stage and `commit`.
use bkk_collector.Base.{
  ℕ, ◌≤◌, Bool, true, false, some, List, [], ◌∷◌, ◌≡◌, refl, arith, inl, inr, String, Bool-cases,
  option_eq, list_eq, ◌∙◌, string_eq, ==_iff, ap, sym, any,
}
use mathlib.Core.Path.{ap₂}
use bkk_collector.Base.Dict.{Dict, lookup, insert, update, lookup-insert, lookup-update}
use bkk_collector.Tracker.{
  Settings, Key, Entry, Row, Tracker, ok, expire, maybe_reset, overlay, writes, select, key_of,
  entry_of, value_eq, check_signal, filter, prepare, select_rows, commit, commit_rows, has_signal,
}
use bkk_collector.Tracker.Expiry.{select-expire}

-- Two memories with the same entry under every key.
abbrev pub SameView : Dict Key Entry → Dict Key Entry → Type 0
SameView l m = (key : Key) → lookup key l ≡ lookup key m

commit_rows-SameView :
    (s : Settings) (now : ℕ) (l m : Dict Key Entry) (rows : List Row)
    → SameView l m
    → SameView (commit_rows s now l rows) (commit_rows s now m rows)
unfolding commit_rows
commit_rows-SameView s now l m [] h = h
commit_rows-SameView s now l m (row ∷ rows) h =
    commit_rows-SameView s now (insert (key_of s row) (entry_of s now row) l)
      (insert (key_of s row) (entry_of s now row) m) rows (λ key. simp (lookup-insert, h key))

update-insert :
    (d p : Dict Key Entry) (k : Key) (e : Entry)
    → SameView (insert k e (update d p)) (update d (insert k e p))
update-insert d p k e key = simp (lookup-insert, lookup-update) (ground arith)

select-commit :
    (s : Settings) (now : ℕ) (last d p : Dict Key Entry) (rows : List Row)
    → SameView
        (commit_rows s now (update d p) (select s last now p rows).0)
        (update d (select s last now p rows).1)
unfolding select commit_rows
select-commit s now last d p [] key = refl
select-commit s now last d p (row ∷ rows) key = elim (Bool-cases (writes s last now p row)) [
  | inl w ↦
      rw (w, overlay)
        (commit_rows-SameView s now (insert (key_of s row) (entry_of s now row) (update d p))
            (update d (insert (key_of s row) (entry_of s now row) p))
            (select s last now (insert (key_of s row) (entry_of s now row) p) rows).0
            (update-insert d p (key_of s row) (entry_of s now row)) key
          ∙ select-commit s now last d (insert (key_of s row) (entry_of s now row) p) rows key)
  | inr w ↦ rw (w, overlay) (select-commit s now last d p rows key)
]

-- The guard touches only its counter.
pub check_signal_keeps :
    (rows : List Row) (t : Tracker)
    → ((check_signal rows t).1.last ≡ t.last)
      × ((check_signal rows t).1.day ≡ t.day)
      × ((check_signal rows t).1.settings ≡ t.settings)
unfolding check_signal
check_signal_keeps rows t = ground arith

pub expire_keeps :
    (now : ℕ) (t : Tracker) → ((expire now t).day ≡ t.day) × ((expire now t).settings ≡ t.settings)
unfolding expire
expire_keeps now t = ground arith

pub maybe_reset-day : (date : String) (t : Tracker) → (maybe_reset date t).day ≡ some date
unfolding maybe_reset
maybe_reset-day date t = ground (arith, ==_iff t.day (some date))

pub maybe_reset-settings :
    (date : String) (t : Tracker) → (maybe_reset date t).settings ≡ t.settings
unfolding maybe_reset
maybe_reset-settings date t = ground arith

maybe_reset_same : (date : String) (t : Tracker) → t.day ≡ some date → maybe_reset date t ≡ t
unfolding maybe_reset
maybe_reset_same date t h = rw ((==_iff t.day (some date)).1 h)

pub prepare-day :
    (t : Tracker) (rows : List Row) (date : String) (now : ℕ)
    → (prepare t rows date now).1.day ≡ some date
unfolding prepare
prepare-day t rows date now =
    (check_signal_keeps rows (expire now (maybe_reset date t))).1
    ∙ (expire_keeps now (maybe_reset date t)).0
    ∙ maybe_reset-day date t

pub prepare-settings :
    (t : Tracker) (rows : List Row) (date : String) (now : ℕ)
    → (prepare t rows date now).1.settings ≡ t.settings
unfolding prepare
prepare-settings t rows date now =
    (check_signal_keeps rows (expire now (maybe_reset date t))).2
    ∙ (expire_keeps now (maybe_reset date t)).1
    ∙ maybe_reset-settings date t

pub prepare-last :
    (t : Tracker) (rows : List Row) (date : String) (now : ℕ)
    → t.day ≡ some date
    → (prepare t rows date now).1.last ≡ (expire now t).last
unfolding prepare
prepare-last t rows date now h =
    (check_signal_keeps rows (expire now (maybe_reset date t))).0
    ∙ ap (λ (u : Tracker). (expire now u).last) (maybe_reset_same date t h)

commit_selected :
    (s : Settings) (now : ℕ) (last : Dict Key Entry) (rows out : List Row)
    → (select s last now [] rows).0 ≡ out
    → SameView (commit_rows s now last out) (update last (select s last now [] rows).1)
commit_selected s now last rows out h key =
    rw (← h) (unfold update in select-commit s now last last [] rows key)

select_rows-commit :
    (raises : Bool) (t : Tracker) (rows out : List Row) (date : String) (now : ℕ)
    → t.day ≡ some date
    → (select_rows raises t rows now false).0 ≡ ok out
    → SameView
        (commit (select_rows raises t rows now false).1 out date now).last
        (select_rows raises t rows now true).1.last
unfolding select_rows commit
select_rows-commit true t rows out date now d h key = cc
select_rows-commit false t rows out date now d h key =
    rw (maybe_reset_same date t d) (commit_selected t.settings now t.last rows out (cc) key)

select_rows_unstaged :
    (raises : Bool) (t : Tracker) (rows : List Row) (now : ℕ)
    → (select_rows raises t rows now false).1 ≡ t
unfolding select_rows
select_rows_unstaged true t rows now = refl
select_rows_unstaged false t rows now = refl

-- Selecting rows, staging them and then committing them leaves the memory that `filter` with
-- `update=True` leaves.
pub filter-commit :
    (t : Tracker) (rows out : List Row) (date : String) (now : ℕ)
    → (filter t rows date now false).0 ≡ ok out
    → SameView
        (commit (filter t rows date now false).1 out date now).last
        (filter t rows date now true).1.last
unfolding filter
filter-commit t rows out date now h =
    select_rows-commit (prepare t rows date now).0 (prepare t rows date now).1 rows out date now
      (prepare-day t rows date now) h

prepare-signal :
    (t : Tracker) (rows : List Row) (date : String) (now : ℕ)
    → any (has_signal t.settings) rows ≡ true
    → (prepare t rows date now).0 ≡ false
unfolding prepare check_signal
prepare-signal t rows date now h =
    let same = (expire_keeps now (maybe_reset date t)).1 ∙ maybe_reset-settings date t in
    rw (same, h) (ground arith)

select_rows_out :
    (t : Tracker) (rows : List Row) (now : ℕ) (updates : Bool)
    → (select_rows false t rows now updates).0 ≡ ok (select t.settings t.last now [] rows).0
unfolding select_rows
select_rows_out t rows now updates = refl

-- A poll that is not decided by the null guard lets through what its memory says.
filter-select :
    (t : Tracker) (rows : List Row) (date : String) (now : ℕ) (updates : Bool)
    → t.day ≡ some date
    → any (has_signal t.settings) rows ≡ true
    → (filter t rows date now updates).0 ≡ ok (select t.settings t.last now [] rows).0
unfolding filter
filter-select t rows date now updates d h =
    ap (λ b. (select_rows b (prepare t rows date now).1 rows now updates).0)
      (prepare-signal t rows date now h)
    ∙ select_rows_out (prepare t rows date now).1 rows now updates
    ∙ ap₂ (λ s last. ok (select s last now [] rows).0) (prepare-settings t rows date now)
        (prepare-last t rows date now d)
    ∙ ap (λ (x : List Row × Dict Key Entry). ok x.0) (select-expire t now now rows (omega arith))

-- Where a selection was not committed, because a stage failed, a later poll of the same date of
-- which a row has one of the required signals is decided as if the lost poll had not been made: it
-- raises nothing and lets the same rows through. (A poll without a signal may differ, since the
-- lost poll has moved the count of the null guard.)
pub filter_unstaged :
    (t : Tracker) (lost rows : List Row) (date : String) (now later : ℕ) (updates : Bool)
    → t.day ≡ some date
    → now ≤ later
    → any (has_signal t.settings) rows ≡ true
    → ((filter (filter t lost date now false).1 rows date later updates).0
        ≡ (filter t rows date later updates).0)
      × ((filter t rows date later updates).0 ≡ ok (select t.settings t.last later [] rows).0)
filter_unstaged t lost rows date now later updates d h signal =
    let kept = (filter t lost date now false).1 in
    let lost_prepared = (prepare t lost date now).1 in
    let same : kept ≡ lost_prepared =
      unfold filter in select_rows_unstaged (prepare t lost date now).0 lost_prepared lost now in
    let settings : lost_prepared.settings ≡ t.settings = prepare-settings t lost date now in
    let without = filter-select t rows date later updates d signal in
    (
      ap (λ u. (filter u rows date later updates).0) same
          ∙ filter-select lost_prepared rows date later updates (prepare-day t lost date now)
              (ap (λ s. any (has_signal s) rows) settings ∙ signal)
          ∙ ap₂ (λ s last. ok (select s last later [] rows).0) settings
              (prepare-last t lost date now d)
          ∙ ap (λ (x : List Row × Dict Key Entry). ok x.0) (select-expire t now later rows h)
          ∙ sym without,
      without,
    )
