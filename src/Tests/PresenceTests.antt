-- ===== src/Tests/PresenceTests.antt =====
-- realtime/tripupdate_presence.py on two observations, and one between them whose append fails.
use bkk_collector.Base.{
  ◌≡◌, refl, String, Bool, false, none, some, List, [], ◌∷◌, list_eq, option_eq, string_eq,
}
use bkk_collector.Base.Int.{pos}
use bkk_collector.Base.Dict.{lookup, insert}
use bkk_collector.Tracker.{Row, text, number, value_eq}
use bkk_collector.Presence.{Identity, Members, members_of}
use bkk_collector.Presence.Views.{View}
use bkk_collector.Presence.Observe.{
  new_presence, appended, lost, replay, file_at, observe, observe_members, write_record, at_date,
  invalidate,
}
use bkk_collector.Presence.Follows.{known_at}
use bkk_collector.Presence.Process.{Observation, observe_all, observe_all-replay}

abbrev row : String → String → Row
row trip stop = record {
  cells =
      ("entity_id", text trip)
      ∷ ("trip_id", text trip)
      ∷ ("stop_id", text stop)
      ∷ ("stop_time_update_index", number (pos 0))
      ∷ [];
  numbers = [];
}

abbrev observation : List Row → Observation
observation rows = record {
  append = appended;
  incrementality = 0;
  rows = rows;
  date = "2026-01-02";
}

abbrev observations : List Observation
observations =
    observation (row "A" "x" ∷ row "A" "y" ∷ row "B" "x" ∷ [])
    ∷ record (observation (row "B" "z" ∷ [])) { append = lost }
    ∷ observation (row "A" "y" ∷ [])
    ∷ observation (row "A" "z" ∷ row "C" "x" ∷ [])
    ∷ []

abbrev no_order : Identity → Identity → Bool
no_order a b = false

abbrev identity : String → Identity
identity trip = some (text trip) ∷ some (text trip) ∷ none ∷ none ∷ []

abbrev stop_of : String → Identity
stop_of stop = none ∷ none ∷ some (text stop) ∷ []

knows :
    known_at no_order "2026-01-02" (observe_all no_order observations new_presence []).0
    ≡ some ((identity "A", stop_of "z" ∷ []) ∷ (identity "C", stop_of "x" ∷ []) ∷ [])
unfolding observe_all observe observe_members write_record at_date invalidate members_of insert
    lookup
knows = refl

observe_all-replay_example :
    (members : Members Identity) × (replay []
        (file_at "2026-01-02" (observe_all no_order observations new_presence []).1)
      ≡ some members)
    × ((current : Members Identity)
        → known_at no_order "2026-01-02" (observe_all no_order observations new_presence []).0
          ≡ some current
        → View members current)
observe_all-replay_example = observe_all-replay no_order observations "2026-01-02"
