-- ===== src/Tracker.antt =====
-- bkk_collector/realtime/dedup.py: change-and-heartbeat filtering of parsed rows.
-- Times are whole milliseconds; the fields that are compared with a tolerance hold whole numbers.
-- The definitions are here, the proofs in the modules below.
use bkk_collector.Base.{
  ℕ, ◌+◌, ◌*◌, min, String, Bool, true, false, not, ◌&&◌, ◌||◌, Option, none, some, List, [], ◌∷◌,
  ◌++◌, map, ◌≡◌, refl, ap, ◌↔◌, arith, ltb, leb, if◌then◌else◌, is_some, any, length, is_empty, Eq,
  ◌==◌, string_eq, option_eq, list_eq, from_some,
}
use bkk_collector.Base.Int.{ℤ, pos, ltb_ℤ, gap, int_beq, int_beq_iff, int_eq}
use bkk_collector.Base.Dict.{Dict, lookup, insert, update, erase, from_option, member, keys, values}
pub mod Expiry
pub mod Staging
pub mod Coverage
pub mod Guard

-- What a row holds under a field that is compared exactly; Python's booleans are numbers.
pub data Value : Type 0 where
  text : String → Value
  number : ℤ → Value

abbrev pub value_beq : Value → Value → Bool
value_beq (text a) (text b) = a == b
value_beq (number a) (number b) = a == b
value_beq _ _ = false

pub value_beq_iff : (a b : Value) → (value_beq a b ≡ true) ↔ (a ≡ b)
value_beq_iff (text a) (text b) = ground (arith, string_eq.beq_iff a b)
value_beq_iff (number a) (number b) = ground (arith, int_beq_iff a b)
value_beq_iff (text a) (number b) = ground arith
value_beq_iff (number a) (text b) = ground arith

instance abbrev pub value_eq : Eq Value
value_eq = record { beq = value_beq; beq_iff = value_beq_iff }

-- A parsed row. A field that is absent and one that holds `None` read alike, as by `row.get`; the
-- fields that a tracker compares with a tolerance are in `numbers`.
pub record Row : Type 0 where
  pub cells : Dict String Value
  pub numbers : Dict String ℤ

abbrev pub get : Row → String → Option Value
get row field = lookup field row.cells

abbrev pub get_number : Row → String → Option ℤ
get_number row field = lookup field row.numbers

-- The arguments of `ChangeTracker.__init__`.
pub record Settings : Type 0 where
  pub key_fields : List String
  pub value_fields : List String
  pub heartbeat_seconds : ℕ
  pub numeric_tolerance_fields : List String
  pub tolerance : ℤ
  pub numeric_tolerances : Dict String ℤ
  pub required_signal_fields : List String
  pub null_guard_min_rows : ℤ

abbrev pub Key : Type 0
Key = List (Option Value)

pub record Entry : Type 0 where
  pub exact : List (Option Value)
  pub numeric : List (Option ℤ)
  pub written_at : ℕ

pub record Tracker : Type 0 where
  pub settings : Settings
  pub last : Dict Key Entry
  pub day : Option String
  -- `none` is minus infinity
  pub last_expiry : Option ℕ
  pub consecutive_all_null_rows : ℕ

pub data TrackerError : Type 0 where
  unknown_tolerances bad_tolerance no_tracked_field unknown_signals bad_null_guard : TrackerError
  signal_missing : ℕ → TrackerError

pub data Result {ℓ} (A : Type ℓ) : Type ℓ where
  ok : A → Result A
  err : TrackerError → Result A

abbrev pub second : ℕ
second = 1000

abbrev pub heartbeat : Settings → ℕ
heartbeat s = s.heartbeat_seconds * second

unfoldable pub tracked_fields : Settings → List String
tracked_fields s = s.value_fields ++ s.numeric_tolerance_fields

-- The source sorts the default; the order shows only in the text of an error.
unfoldable pub signal_fields : Settings → List String
unfolding tracked_fields
signal_fields s =
    if is_empty s.required_signal_fields then tracked_fields s else s.required_signal_fields

abbrev pub outside : List String → List String → Bool
outside fields known = any (λ field. not (member field known)) fields

-- `ChangeTracker.__init__`: the checks in their order, then the empty state.
unfoldable pub new_tracker : Settings → Result Tracker
unfolding tracked_fields signal_fields
new_tracker s =
    if outside (keys s.numeric_tolerances) s.numeric_tolerance_fields
    then err unknown_tolerances
    else if any (λ value. ltb_ℤ value (pos 0)) (s.tolerance ∷ values s.numeric_tolerances)
    then err bad_tolerance
    else if is_empty (tracked_fields s)
    then err no_tracked_field
    else if outside (signal_fields s) (tracked_fields s)
    then err unknown_signals
    else if not (ltb_ℤ (pos 0) s.null_guard_min_rows)
    then err bad_null_guard
    else ok (record {
      settings = record s { required_signal_fields = signal_fields s };
      last = [];
      day = none;
      last_expiry = none;
      consecutive_all_null_rows = 0;
    })

-- `_maybe_reset`
unfoldable pub maybe_reset : String → Tracker → Tracker
maybe_reset date t =
    if t.day == some date then t else record t { last = []; day = some date; last_expiry = none }

unfoldable pub is_expired : Settings → ℕ → Entry → Bool
is_expired s now entry = leb (entry.written_at + heartbeat s) now

-- `for key in expired: del self._last[key]`
unfoldable pub drop_expired : Settings → ℕ → Dict Key Entry → Dict Key Entry
unfolding is_expired
drop_expired s now [] = []
drop_expired s now ((key, entry) ∷ last) =
    let rest = drop_expired s now last in
    if is_expired s now entry then erase key rest else (key, entry) ∷ rest

unfoldable pub expiry_due : Tracker → ℕ → Bool
expiry_due t now = elim t.last_expiry [
  | none ↦ true
  | some at ↦ leb (at + min 60 t.settings.heartbeat_seconds * second) now
]

-- `_expire_heartbeat_entries`
unfoldable pub expire : ℕ → Tracker → Tracker
unfolding expiry_due
expire now t =
    if expiry_due t now
    then record t { last = drop_expired t.settings now t.last; last_expiry = some now }
    else t

unfoldable pub key_of : Settings → Row → Key
key_of s row = map (get row) s.key_fields

unfoldable pub entry_of : Settings → ℕ → Row → Entry
entry_of s now row = record {
  exact = map (get row) s.value_fields;
  numeric = map (get_number row) s.numeric_tolerance_fields;
  written_at = now;
}

unfoldable pub tolerance_for : Settings → String → ℤ
tolerance_for s field = from_some s.tolerance (lookup field s.numeric_tolerances)

unfoldable pub moved : ℤ → Option ℤ → Option ℤ → Bool
moved t none none = false
moved t (some prev) (some new) =
    if ltb_ℤ (pos 0) t then ltb_ℤ t (pos (gap new prev)) else not (new == prev)
moved t _ _ = true

-- `_numeric_changed`: the loop over `zip(fields, prev_vals, new_vals)`
unfoldable pub numeric_changed : Settings → List String → List (Option ℤ) → List (Option ℤ) → Bool
unfolding moved tolerance_for
numeric_changed s (field ∷ fields) (prev ∷ prevs) (new ∷ news) =
    moved (tolerance_for s field) prev new || numeric_changed s fields prevs news
numeric_changed s _ _ _ = false

-- The decision for one row.
unfoldable pub must_write : Settings → ℕ → Option Entry → Entry → Bool
must_write s now none entry = true
must_write s now (some prev) entry =
    not (prev.exact == entry.exact)
    || numeric_changed s s.numeric_tolerance_fields prev.numeric entry.numeric
    || is_expired s now prev

-- `prospective.get(key, self._last.get(key))`
unfoldable pub previous : Dict Key Entry → Dict Key Entry → Key → Option Entry
previous prospective last key = from_option (lookup key last) (lookup key prospective)

-- `write` of the loop, for one row under the overlay of the rows before it.
unfoldable pub writes : Settings → Dict Key Entry → ℕ → Dict Key Entry → Row → Bool
unfolding must_write previous
writes s last now prospective row =
    must_write s now (previous prospective last (key_of s row)) (entry_of s now row)

-- `prospective[key] = …` where the row is written.
unfoldable pub overlay : Settings → Dict Key Entry → ℕ → Dict Key Entry → Row → Dict Key Entry
unfolding writes
overlay s last now prospective row =
    if writes s last now prospective row
    then insert (key_of s row) (entry_of s now row) prospective
    else prospective

-- The loop of `filter`: the rows let through, and the overlay of this poll's changes.
unfoldable pub select :
    Settings → Dict Key Entry → ℕ → Dict Key Entry → List Row → List Row × Dict Key Entry
unfolding overlay
select s last now prospective [] = ([], prospective)
select s last now prospective (row ∷ rows) =
    let (out, final) = select s last now (overlay s last now prospective row) rows in
    (if writes s last now prospective row then row ∷ out else out, final)

abbrev pub has_signal : Settings → Row → Bool
has_signal s row =
    any (λ field. is_some (get row field) || is_some (get_number row field))
      s.required_signal_fields

-- The null guard at the head of `filter`: whether it raises, and the counter.
unfoldable pub check_signal : List Row → Tracker → Bool × Tracker
check_signal rows t =
    let count = t.consecutive_all_null_rows + length rows in
    if is_empty rows
    then (false, t)
    else if any (has_signal t.settings) rows
    then (false, record t { consecutive_all_null_rows = 0 })
    else (
      not (ltb_ℤ (pos count) t.settings.null_guard_min_rows),
      record t { consecutive_all_null_rows = count },
    )

-- The head of `filter`: reset, expiry and guard.
unfoldable pub prepare : Tracker → List Row → String → ℕ → Bool × Tracker
prepare t rows date now = check_signal rows (expire now (maybe_reset date t))

-- The rest of `filter`.
unfoldable pub select_rows : Bool → Tracker → List Row → ℕ → Bool → Result (List Row) × Tracker
unfolding select
select_rows true t rows now updates = (err (signal_missing t.consecutive_all_null_rows), t)
select_rows false t rows now updates =
    let (out, prospective) = select t.settings t.last now [] rows in
    (ok out, if updates then record t { last = update t.last prospective } else t)

-- `filter`. The state comes back beside an error too: what was reset or counted stays.
unfoldable pub filter : Tracker → List Row → String → ℕ → Bool → Result (List Row) × Tracker
unfolding prepare select_rows
filter t rows date now updates =
    let (raises, t') = prepare t rows date now in select_rows raises t' rows now updates

unfoldable pub commit_rows : Settings → ℕ → Dict Key Entry → List Row → Dict Key Entry
commit_rows s now last [] = last
commit_rows s now last (row ∷ rows) =
    commit_rows s now (insert (key_of s row) (entry_of s now row) last) rows

-- `commit`
unfoldable pub commit : Tracker → List Row → String → ℕ → Tracker
unfolding commit_rows
commit t rows date now =
    let t' = maybe_reset date t in record t' { last = commit_rows t'.settings now t'.last rows }
