-- ===== src/Presence/Observe.antt =====
-- realtime/tripupdate_presence.py, `TripUpdatePresence` and the files that it writes.
use bkk_collector.Base.{
  ℕ, ◌+◌, String, Bool, true, false, not, Option, none, some, List, [], ◌∷◌, ◌++◌, is_some,
  from_some, nat_beq, if◌then◌else◌, ◌==◌, string_eq, option_eq, list_eq,
}
use mathlib.Core.Option as Option
use bkk_collector.Base.Dict.{Dict, lookup, insert}
use bkk_collector.Tracker.{Row, value_eq}
use bkk_collector.Presence.{
  Identity, Members, PresenceRecord, record_of, apply_presence_record, members_of, of_size,
  trip_identity_fields, stop_identity_fields,
}

-- `TripUpdatePresence`, without the identity of the stream.
pub record TripUpdatePresence : Type 0 where
  pub date : Option String
  pub members : Option (Members Identity)
  pub baseline_reason : String
  pub sequence : ℕ

-- The records that can be read from the file of each date.
abbrev pub Files : Type 0
Files = Dict String (List (PresenceRecord Identity))

abbrev pub file_at : String → Files → List (PresenceRecord Identity)
file_at date files = from_some [] (lookup date files)

abbrev pub put_record : String → PresenceRecord Identity → Files → Files
put_record date r files = insert date (file_at date files ++ r ∷ []) files

-- How the append of a record ends: it returns; it raises and the record is lost, as a torn tail
-- that is repaired; or it raises and the record can be read all the same.
pub data Append : Type 0 where
  appended : Append
  lost : Append
  landed : Append

-- `__init__`
abbrev pub new_presence : TripUpdatePresence
new_presence = record {
  date = none;
  members = none;
  baseline_reason = "process_start";
  sequence = 0;
}

unfoldable pub invalidate : String → TripUpdatePresence → TripUpdatePresence
invalidate reason p = record p { members = none; baseline_reason = reason }

-- A new date starts without members.
unfoldable pub at_date : String → TripUpdatePresence → TripUpdatePresence
at_date date p = if p.date == some date then p else record {
  date = some date;
  members = none;
  baseline_reason = if is_some p.date then "utc_date_boundary" else p.baseline_reason;
  sequence = p.sequence;
}

module _ (before : Identity → Identity → Bool) where
  -- The append, its handler, and the state behind it.
  unfoldable pub write_record :
      Append
      → String
      → Members Identity
      → TripUpdatePresence
      → Files
      → Bool × TripUpdatePresence × Files
  unfolding invalidate
  write_record appended date current p files = (
    false,
    record p { members = some current; sequence = if is_some p.members then p.sequence + 1 else 1 },
    put_record date (record_of before p.members current) files,
  )
  write_record lost date current p files = (true, invalidate "presence_write_gap" p, files)
  write_record landed date current p files = (
    true,
    invalidate "presence_write_gap" p,
    put_record date (record_of before p.members current) files,
  )

  unfoldable pub observe_members :
      Append
      → String
      → Option (Members Identity)
      → TripUpdatePresence
      → Files
      → Bool × TripUpdatePresence × Files
  unfolding write_record invalidate
  observe_members a date none p files = (true, invalidate "unexpected_deletion" p, files)
  observe_members a date (some current) p files = write_record a date current p files

  -- `observe`: whether it raises, the state and the files.
  unfoldable pub observe :
      Append
      → ℕ
      → List Row
      → String
      → TripUpdatePresence
      → Files
      → Bool × TripUpdatePresence × Files
  unfolding observe_members at_date invalidate
  observe a incrementality rows date p files =
      if not (nat_beq incrementality 0)
      then (true, invalidate "unsupported_incrementality" p, files)
      else observe_members a date (members_of rows []) (at_date date p) files

-- The replay of a file, record by record.
unfoldable pub replay :
    Members Identity → List (PresenceRecord Identity) → Option (Members Identity)
replay m [] = some m
replay m (r ∷ records) =
    Option.bind
      (apply_presence_record (of_size trip_identity_fields) (of_size stop_identity_fields) m r)
      (λ m'. replay m' records)
