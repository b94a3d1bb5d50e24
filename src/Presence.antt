-- ===== src/Presence.antt =====
-- realtime/tripupdate_presence.py: which trips and stops a feed holds, as a baseline and the
-- changes behind it. A Python set is a list without repetition; an identity is the list of its
-- fields.
use bkk_collector.Base.{
  ℕ, ◌+◌, String, Bool, true, false, not, ◌&&◌, ◌||◌, Option, none, some, List, [], ◌∷◌, ◌++◌, map,
  length, is_empty, is_some, take, drop, all, any, keep, from_some, nat_beq, Eq, if◌then◌else◌,
  ◌==◌, string_eq, option_eq, list_eq,
}
pub mod Sets
pub mod Replay
pub mod Views
pub mod Observed
pub mod Stream
pub mod Observe
pub mod History
pub mod Follows
pub mod Process
use mathlib.Core.Option as Option
use bkk_collector.Base.Dict.{Dict, lookup, insert, erase, has_key, member, keys}
use bkk_collector.Base.Sorting.{sorted, total}
use bkk_collector.Base.Int.{ℤ, pos, int_eq}
use bkk_collector.Tracker.{Value, text, number, value_eq, Row, get}

abbrev pub Identity : Type 0
Identity = List (Option Value)

-- `TRIP_UPDATE_KEY_FIELDS`
abbrev pub trip_update_key_fields : List String
trip_update_key_fields =
    "entity_id" ∷ "trip_id" ∷ "start_date" ∷ "start_time" ∷ "stop_sequence"
    ∷ "stop_visit_fallback_index" ∷ "stop_id" ∷ []

abbrev pub trip_identity_fields : List String
trip_identity_fields = take 4 trip_update_key_fields

abbrev pub stop_identity_fields : List String
stop_identity_fields = drop 4 trip_update_key_fields

-- The stops of each trip that is there.
abbrev pub Members : Type 0 → Type 0
Members I = Dict I (List I)

module _ {A : Type 0} ⦃e : Eq A⦄ where
  -- `set.add`, `-`, and `|`
  abbrev pub add : A → List A → List A
  add x xs = if member x xs then xs else xs ++ x ∷ []

  abbrev pub minus : List A → List A → List A
  minus xs ys = keep (λ x. not (member x ys)) xs

  unfoldable pub union : List A → List A → List A
  union xs [] = xs
  union xs (y ∷ ys) = union (add y xs) ys

-- An entry of a record's `changes`.
pub record Change (I : Type 0) : Type 0 where
  pub trip : I
  pub trip_entered : Bool
  pub trip_withdrawn : Bool
  pub entered_stops : List I
  pub withdrawn_stops : List I

-- A record, as far as the replay reads it; `supported` is that its version and its fields are
-- known.
pub record PresenceRecord (I : Type 0) : Type 0 where
  pub supported : Bool
  pub baseline : Bool
  pub changes : List (Change I)
  pub trip_count : ℕ
  pub stop_count : ℕ

module _ {I : Type 0} ⦃e : Eq I⦄ where
  -- `{tuple(stop) for stop in …}`
  abbrev pub set_of : List I → List I
  set_of xs = union [] xs

  -- `del members[trip]`, or the new stops.
  unfoldable pub put_stops : Change I → List I → Members I → Option (Members I)
  put_stops c new members =
      if c.trip_withdrawn
      then if is_empty new && has_key c.trip members then some (erase c.trip members) else none
      else some (insert c.trip new members)

  -- A change of a trip that has the stops `old`; `none` is an exception.
  unfoldable pub change_stops : Change I → Option (List I) → Members I → Option (Members I)
  unfolding union put_stops
  change_stops c none members = none
  change_stops c (some old) members =
      let entered = set_of c.entered_stops in
      let withdrawn = set_of c.withdrawn_stops in
      if any (λ s. member s old) entered || not (all (λ s. member s old) withdrawn)
      then none
      else put_stops c (union (minus old withdrawn) entered) members

  -- What is compared for a trip.
  unfoldable pub change_of : Members I → Members I → I → Change I
  change_of previous current trip =
      let old = from_some [] (lookup trip previous) in
      let new = from_some [] (lookup trip current) in
      record {
        trip = trip;
        trip_entered = not (has_key trip previous);
        trip_withdrawn = not (has_key trip current);
        entered_stops = minus new old;
        withdrawn_stops = minus old new;
      }

  abbrev pub is_change : Change I → Bool
  is_change c =
      not (is_empty c.entered_stops)
      || not (is_empty c.withdrawn_stops)
      || c.trip_entered
      || c.trip_withdrawn

-- `trip_ok` and `stop_ok` tell whether an identity has the number of fields of a trip and of a
-- stop.
module _ {I : Type 0} ⦃e : Eq I⦄ (trip_ok stop_ok : I → Bool) where
  -- The body of the loop over the changes.
  unfoldable pub apply_change : Change I → Members I → Option (Members I)
  unfolding change_stops
  apply_change c members =
      if not (all stop_ok (c.entered_stops ++ c.withdrawn_stops))
      then none
      else if c.trip_entered
      then if is_some (lookup c.trip members) then none else change_stops c (some []) members
      else change_stops c (lookup c.trip members) members

  -- The loop; `changed` has the trips that it has seen.
  unfoldable pub apply_changes : List I → List (Change I) → Members I → Option (Members I)
  unfolding apply_change
  apply_changes changed [] members = some members
  apply_changes changed (c ∷ changes) members =
      if not (trip_ok c.trip) || member c.trip changed
      then none
      else Option.bind (apply_change c members) (λ m. apply_changes (c.trip ∷ changed) changes m)

  -- The counts that a record tells.
  abbrev pub counted : PresenceRecord I → Members I → Option (Members I)
  counted r members =
      if nat_beq (length members) r.trip_count && nat_beq (total length members) r.stop_count
      then some members
      else none

  -- `apply_presence_record`
  unfoldable pub apply_presence_record : Members I → PresenceRecord I → Option (Members I)
  unfolding apply_changes
  apply_presence_record members r =
      if not r.supported
      then none
      else Option.bind (apply_changes [] r.changes (if r.baseline then [] else members)) (counted r)

module _ {I : Type 0} ⦃e : Eq I⦄ (before : I → I → Bool) where
  abbrev pub ordered : Change I → Change I
  ordered c = record c {
    entered_stops = sorted before c.entered_stops;
    withdrawn_stops = sorted before c.withdrawn_stops;
  }

  -- The loop of `observe` over the trips.
  unfoldable pub changes_for : Members I → Members I → List I → List (Change I)
  unfolding change_of
  changes_for previous current [] = []
  changes_for previous current (trip ∷ trips) =
      let rest = changes_for previous current trips in
      let c = change_of previous current trip in if is_change c then ordered c ∷ rest else rest

  -- The record that `observe` writes about the members before and now; without members before, it
  -- is a baseline.
  unfoldable pub record_of : Option (Members I) → Members I → PresenceRecord I
  unfolding changes_for union
  record_of known current =
      let previous = from_some [] known in
      record {
        supported = true;
        baseline = not (is_some known);
        changes =
            changes_for previous current (sorted before (union (keys current) (keys previous)));
        trip_count = length current;
        stop_count = total length current;
      }

-- The number of fields of an identity.
abbrev pub of_size : List String → Identity → Bool
of_size fields i = nat_beq (length i) (length fields)

-- `if row.get(…)`
abbrev pub is_truthy : Option Value → Bool
is_truthy none = false
is_truthy (some (text s)) = not (s == "")
is_truthy (some (number n)) = not (n == pos 0)

-- The stops of a trip with those that a row tells.
abbrev pub add_row : Row → List Identity → List Identity
add_row row stops =
    if is_some (get row "stop_time_update_index")
    then add (map (get row) stop_identity_fields) stops
    else stops

-- The loop of `observe` over the rows; `none` is the refusal of a deletion.
unfoldable pub members_of : List Row → Members Identity → Option (Members Identity)
members_of [] current = some current
members_of (row ∷ rows) current =
    let trip = map (get row) trip_identity_fields in
    let rest =
      members_of rows (insert trip (add_row row (from_some [] (lookup trip current))) current) in
    if is_truthy (get row "entity_is_deleted") then none else rest
