-- ===== src/Tracker/Expiry.antt =====
-- realtime/dedup.py, `_expire_heartbeat_entries`: forgetting expired entries changes no decision.
use bkk_collector.Base.{
  ℕ, ◌≤◌, true, Option, none, some, List, [], ◌∷◌, ◌≡◌, refl, arith, inl, inr, if◌then◌else◌,
  Bool-cases, Option-cases, option_eq, list_eq,
}
use bkk_collector.Base.Dict.{Dict, lookup, lookup-erase}
use bkk_collector.Tracker.{
  Settings, Key, Entry, Row, Tracker, is_expired, drop_expired, expire, must_write, previous,
  writes, overlay, select, key_of, entry_of, value_eq,
}

-- What the dictionary says of a key once the expired entries are gone.
abbrev pub unexpired : Settings → ℕ → Option Entry → Option Entry
unexpired s now none = none
unexpired s now (some entry) = if is_expired s now entry then none else some entry

pub lookup-drop_expired :
    (s : Settings) (now : ℕ) (key : Key) (last : Dict Key Entry)
    → lookup key (drop_expired s now last) ≡ unexpired s now (lookup key last)
unfolding drop_expired lookup
lookup-drop_expired s now key [] = refl
lookup-drop_expired s now key ((k, entry) ∷ last) =
    ground (arith, lookup-erase k key (drop_expired s now last), lookup-drop_expired s now key last)

pub is_expired_mono :
    (s : Settings) (now later : ℕ) (entry : Entry)
    → now ≤ later
    → is_expired s now entry ≡ true
    → is_expired s later entry ≡ true
unfolding is_expired
is_expired_mono s now later entry h e = ground arith

must_write-expired :
    (s : Settings) (now : ℕ) (prev entry : Entry)
    → is_expired s now prev ≡ true
    → must_write s now (some prev) entry ≡ true
unfolding must_write
must_write-expired s now prev entry h = ground arith

must_write-unexpired :
    (s : Settings) (now later : ℕ) (prev : Option Entry) (entry : Entry)
    → now ≤ later
    → must_write s later (unexpired s now prev) entry ≡ must_write s later prev entry
must_write-unexpired s now later none entry h = refl
must_write-unexpired s now later (some prev) entry h = elim (Bool-cases (is_expired s now prev)) [
  | inl old ↦
      rw (old, must_write-expired s later prev entry (is_expired_mono s now later prev h old))
        (unfold must_write in refl)
  | inr live ↦ rw live
]

-- Two memories that lead to the same decisions at a time.
abbrev pub SameDecisions : Settings → ℕ → Dict Key Entry → Dict Key Entry → Type 0
SameDecisions s now l m =
    (key : Key) (entry : Entry)
    → must_write s now (lookup key l) entry ≡ must_write s now (lookup key m) entry

module _ (s : Settings) (now : ℕ) (l m : Dict Key Entry) (same : SameDecisions s now l m) where
  previous_same :
      (p : Dict Key Entry) (key : Key) (entry : Entry)
      → must_write s now (previous p l key) entry ≡ must_write s now (previous p m key) entry
  unfolding previous
  previous_same p key entry = elim (Option-cases (lookup key p)) [
    | inl e ↦ rw (e, previous) (same key entry)
    | inr (x, e) ↦ rw (e, previous)
  ]

  writes_same : (p : Dict Key Entry) (row : Row) → writes s l now p row ≡ writes s m now p row
  unfolding writes
  writes_same p row = previous_same p (key_of s row) (entry_of s now row)

  overlay_same : (p : Dict Key Entry) (row : Row) → overlay s l now p row ≡ overlay s m now p row
  unfolding overlay
  overlay_same p row = rw (writes_same p row)

  pub select_same :
      (p : Dict Key Entry) (rows : List Row) → select s l now p rows ≡ select s m now p rows
  unfolding select
  select_same p [] = refl
  select_same p (row ∷ rows) =
      rw (overlay_same p row, writes_same p row, select_same (overlay s m now p row) rows)

pub SameDecisions-drop_expired :
    (s : Settings) (now later : ℕ) (last : Dict Key Entry)
    → now ≤ later
    → SameDecisions s later (drop_expired s now last) last
SameDecisions-drop_expired s now later last h key entry =
    rw lookup-drop_expired (must_write-unexpired s now later (lookup key last) entry h)

pub SameDecisions-expire :
    (t : Tracker) (now later : ℕ)
    → now ≤ later
    → SameDecisions t.settings later (expire now t).last t.last
unfolding expire
SameDecisions-expire t now later h key entry =
    ground (arith, SameDecisions-drop_expired t.settings now later t.last h key entry)

-- Expiring the memory at one time does not change what is selected, then or at any later time.
pub select-expire :
    (t : Tracker) (now later : ℕ) (rows : List Row)
    → now ≤ later
    → select t.settings (expire now t).last later [] rows ≡ select t.settings t.last later [] rows
select-expire t now later rows h =
    select_same t.settings later (expire now t).last t.last (SameDecisions-expire t now later h) []
      rows
