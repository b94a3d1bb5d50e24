-- ===== src/Tracker/Coverage.antt =====
-- realtime/dedup.py: what a suppressed row may still differ in from the last written one.
use bkk_collector.Base.{
  ℕ, ◌+◌, ◌≤◌, ◌<◌, ◌↔◌, Bool, true, false, Option, none, some, List, [], ◌∷◌, ◌++◌, ◌≡◌, refl,
  arith, inl, inr, String, Bool-cases, option_eq, list_eq, ==_iff, map, ==_refl,
}
use bkk_collector.Base.Int.{ℤ, pos_part, gap, gap-eq-zero_iff, int_beq_iff, int_eq}
use bkk_collector.Base.Dict.{Dict, lookup, update, lookup-insert, lookup-update, from_option}
use bkk_collector.Tracker.{
  Settings, Key, Entry, Row, Tracker, ok, overlay, writes, select, is_expired, must_write, moved,
  numeric_changed, tolerance_for, previous, heartbeat, key_of, entry_of, value_eq, filter, prepare,
  select_rows, get_number,
}
use bkk_collector.Tracker.Staging.{prepare-settings}

-- Two observations of a number are within a tolerance: both absent, or at most that far apart.
abbrev pub Near : ℤ → Option ℤ → Option ℤ → Type 0
Near t none none = Unit
Near t (some prev) (some new) = gap new prev ≤ pos_part t
Near t none (some new) = ⊥
Near t (some prev) none = ⊥

abbrev pub AllNear : Settings → List String → List (Option ℤ) → List (Option ℤ) → Type 0
AllNear s (field ∷ fields) (prev ∷ prevs) (new ∷ news) =
    Near (tolerance_for s field) prev new × AllNear s fields prevs news
AllNear s _ _ _ = Unit

moved-Near : (t : ℤ) (prev new : Option ℤ) → moved t prev new ≡ false → Near t prev new
unfolding moved
moved-Near t none none h = tt
moved-Near t (some a) (some b) h = ground (arith, gap-eq-zero_iff b a, int_beq_iff b a)
moved-Near t none (some b) h = cc
moved-Near t (some a) none h = cc

Near-moved : (t : ℤ) (prev new : Option ℤ) → Near t prev new → moved t prev new ≡ false
unfolding moved
Near-moved t none none h = refl
Near-moved t (some a) (some b) h = ground (arith, gap-eq-zero_iff b a, int_beq_iff b a)
Near-moved t none (some b) h = absurd h
Near-moved t (some a) none h = absurd h

numeric_changed-AllNear :
    (s : Settings) (fields : List String) (prevs news : List (Option ℤ))
    → (numeric_changed s fields prevs news ≡ false)
    → AllNear s fields prevs news
unfolding numeric_changed
numeric_changed-AllNear s (f ∷ fs) (p ∷ ps) (n ∷ ns) h = (
  moved-Near (tolerance_for s f) p n (ground arith),
  numeric_changed-AllNear s fs ps ns (ground arith),
)
numeric_changed-AllNear s [] _ _ h = tt
numeric_changed-AllNear s (f ∷ fs) [] _ h = tt
numeric_changed-AllNear s (f ∷ fs) (p ∷ ps) [] h = tt

AllNear-numeric_changed :
    (s : Settings) (fields : List String) (prevs news : List (Option ℤ))
    → AllNear s fields prevs news
    → numeric_changed s fields prevs news ≡ false
unfolding numeric_changed
AllNear-numeric_changed s (f ∷ fs) (p ∷ ps) (n ∷ ns) h =
    ground (arith, Near-moved (tolerance_for s f) p n h.0, AllNear-numeric_changed s fs ps ns h.1)
AllNear-numeric_changed s [] _ _ h = refl
AllNear-numeric_changed s (f ∷ fs) [] _ h = refl
AllNear-numeric_changed s (f ∷ fs) (p ∷ ps) [] h = refl

-- The last written entry stands for an observation: the exact fields agree, every number is within
-- its field's tolerance, and the heartbeat has not run out.
pub record Covers (s : Settings) (now : ℕ) (prev entry : Entry) : Type 0 where
  pub same : prev.exact ≡ entry.exact
  pub near : AllNear s s.numeric_tolerance_fields prev.numeric entry.numeric
  pub fresh : now < prev.written_at + heartbeat s

-- A row whose key has an entry is suppressed exactly when that entry covers it.
pub must_write-Covers :
    (s : Settings) (now : ℕ) (prev entry : Entry)
    → (must_write s now (some prev) entry ≡ false) ↔ Covers s now prev entry
unfolding must_write is_expired
must_write-Covers s now prev entry = (
  λ h. record {
    same = (==_iff prev.exact entry.exact).0 (ground arith);
    near =
        numeric_changed-AllNear s s.numeric_tolerance_fields prev.numeric entry.numeric
          (ground arith);
    fresh = ground arith;
  },
  λ c. ground (
    arith,
    ==_iff prev.exact entry.exact,
    AllNear-numeric_changed s s.numeric_tolerance_fields prev.numeric entry.numeric c.near,
  ),
)

Near-refl : (t : ℤ) (x : Option ℤ) → Near t x x
Near-refl t none = tt
Near-refl t (some a) = ground arith

AllNear-refl : (s : Settings) (fields : List String) (xs : List (Option ℤ)) → AllNear s fields xs xs
AllNear-refl s (f ∷ fs) (x ∷ xs) = (Near-refl (tolerance_for s f) x, AllNear-refl s fs xs)
AllNear-refl s [] _ = tt
AllNear-refl s (f ∷ fs) [] = tt

Covers-self :
    (s : Settings) (now : ℕ) (row : Row)
    → 0 < s.heartbeat_seconds
    → Covers s now (entry_of s now row) (entry_of s now row)
unfolding entry_of
Covers-self s now row h = record {
  same = refl;
  near =
      AllNear-refl s s.numeric_tolerance_fields (map (get_number row) s.numeric_tolerance_fields);
  fresh = omega arith;
}

-- An entry that covers what a row says.
abbrev pub Covered : Settings → ℕ → Option Entry → Entry → Type 0
Covered s now found entry = (prev : Entry) × (found ≡ some prev) × Covers s now prev entry

must_write-Covered :
    (s : Settings) (now : ℕ) (found : Option Entry) (entry : Entry)
    → must_write s now found entry ≡ false
    → Covered s now found entry
must_write-Covered s now none entry h = absurd (unfold must_write in cc h)
must_write-Covered s now (some prev) entry h =
    (prev, refl, (must_write-Covers s now prev entry).0 h)

overlay-Covered :
    (s : Settings) (last : Dict Key Entry) (now : ℕ) (p : Dict Key Entry) (row : Row)
    → 0 < s.heartbeat_seconds
    → Covered s now
        (lookup (key_of s row) (update last (overlay s last now p row)))
        (entry_of s now row)
unfolding overlay
overlay-Covered s last now p row h = elim (Bool-cases (writes s last now p row)) [
  | inl w ↦ rw w (
    entry_of s now row,
    simp (lookup-update, lookup-insert, ==_refl (key_of s row)),
    Covers-self s now row h,
  )
  | inr w ↦
      rw (w, lookup-update)
        (must_write-Covered s now
          (from_option (lookup (key_of s row) last) (lookup (key_of s row) p)) (entry_of s now row)
          (unfold writes previous in w))
]

select-append :
    (s : Settings) (last : Dict Key Entry) (now : ℕ) (p : Dict Key Entry) (xs ys : List Row)
    → (select s last now p (xs ++ ys)).1 ≡ (select s last now (select s last now p xs).1 ys).1
unfolding select
select-append s last now p [] ys = refl
select-append s last now p (x ∷ xs) ys = select-append s last now (overlay s last now p x) xs ys

select_rows-Covered :
    (raises : Bool) (t : Tracker) (rows out : List Row) (row : Row) (now : ℕ)
    → 0 < t.settings.heartbeat_seconds
    → (select_rows raises t (rows ++ row ∷ []) now true).0 ≡ ok out
    → Covered t.settings now
        (lookup (key_of t.settings row) (select_rows raises t (rows ++ row ∷ []) now true).1.last)
        (entry_of t.settings now row)
unfolding select_rows
select_rows-Covered true t rows out row now h e = absurd (cc e)
select_rows-Covered false t rows out row now h e =
    rw (select-append t.settings t.last now [] rows (row ∷ [])) (
      unfold select in
      overlay-Covered t.settings t.last now (select t.settings t.last now [] rows).1 row h)

-- Where the heartbeat is positive, once a poll has passed, the memory holds for its last row an
-- entry that covers it: equal exact fields, each number within its tolerance, written less than a
-- heartbeat ago. The polls are arbitrary, so this holds of every prefix of one.
pub filter-Covered :
    (t : Tracker) (rows out : List Row) (row : Row) (date : String) (now : ℕ)
    → 0 < t.settings.heartbeat_seconds
    → (filter t (rows ++ row ∷ []) date now true).0 ≡ ok out
    → Covered t.settings now
        (lookup (key_of t.settings row) (filter t (rows ++ row ∷ []) date now true).1.last)
        (entry_of t.settings now row)
unfolding filter
filter-Covered t rows out row date now h e =
    rw (prepare-settings t (rows ++ row ∷ []) date now) at (
      select_rows-Covered (prepare t (rows ++ row ∷ []) date now).0
        (prepare t (rows ++ row ∷ []) date now).1 rows out row now
        (rw (prepare-settings t (rows ++ row ∷ []) date now) h) e)
