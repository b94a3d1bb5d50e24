-- ===== src/Presence/History.antt =====
-- realtime/tripupdate_presence.py, observations of a process, whatever raises in them, against what
-- a reader of the files replays.
use bkk_collector.Base.{
  ◌≡◌, refl, ap, subst, ◌∙◌, arith, Bool, true, none, some, List, [], ◌∷◌, map, is_some, from_some,
  if◌then◌else◌, string_eq, option_eq, list_eq, Eq, Bool-cases, inl, inr,
}
use mathlib.Core.Option.{some-injective}
use bkk_collector.Base.Dict.{lookup, insert, member}
use bkk_collector.Base.Sorting.{Distinct}
use bkk_collector.Tracker.{Row, get, value_eq}
use bkk_collector.Presence.{
  Identity, Members, add, members_of, add_row, is_truthy, of_size, trip_identity_fields,
  stop_identity_fields,
}
use bkk_collector.Presence.Sets.{member-add, add-Distinct}
use bkk_collector.Presence.Stream.{Observed, insert-Observed, stops-Distinct}

abbrev pub trip_ok : Identity → Bool
trip_ok = of_size trip_identity_fields

abbrev pub stop_ok : Identity → Bool
stop_ok = of_size stop_identity_fields

module _ {I : Type 0} ⦃e : Eq I⦄ where
  -- A set of stops that gets a stop.
  add-ok :
      (ok : I → Bool) (x : I) (xs : List I)
      → ok x ≡ true
      → ((s : I) → member s xs ≡ true → ok s ≡ true)
      → (s : I) → member s (add x xs) ≡ true
      → ok s ≡ true
  add-ok ok x xs h hs s k = elim (Bool-cases (e.beq s x)) [
    | inl same ↦ ap ok ((e.beq_iff s x).0 same) ∙ h
    | inr other ↦ hs s (ground (arith, member-add s x xs, k, other))
  ]

module _ (before : Identity → Identity → Bool) where
  -- What `observe` makes of rows.
  IsObserved : Members Identity → Type 0
  IsObserved d = Observed trip_ok stop_ok before d

  add_row-Distinct : (row : Row) (xs : List Identity) → Distinct xs → Distinct (add_row row xs)
  add_row-Distinct row xs d = elim (Bool-cases (is_some (get row "stop_time_update_index"))) [
    | inl h ↦ rw h (add-Distinct (map (get row) stop_identity_fields) xs d)
    | inr h ↦ rw h d
  ]

  add_row-ok :
      (row : Row) (xs : List Identity)
      → ((s : Identity) → member s xs ≡ true → stop_ok s ≡ true)
      → (s : Identity) → member s (add_row row xs) ≡ true
      → stop_ok s ≡ true
  add_row-ok row xs hs s k = elim (Bool-cases (is_some (get row "stop_time_update_index"))) [
    | inl h ↦ add-ok stop_ok (map (get row) stop_identity_fields) xs refl hs s (
        subst (λ b. member s (if b then add (map (get row) stop_identity_fields) xs else xs) ≡ true)
          h k)
    | inr h ↦ hs s (
        subst (λ b. member s (if b then add (map (get row) stop_identity_fields) xs else xs) ≡ true)
          h k)
  ]

  pub members_of-Observed :
      (rows : List Row) (d current : Members Identity)
      → Observed trip_ok stop_ok before d
      → members_of rows d ≡ some current
      → Observed trip_ok stop_ok before current
  unfolding members_of
  members_of-Observed [] d current o h =
      subst (Observed trip_ok stop_ok before) (some-injective d current h) o
  members_of-Observed (row ∷ rows) d current o h =
      let trip = map (get row) trip_identity_fields in
      let stops = from_some [] (lookup trip d) in
      let d' = insert trip (add_row row stops) d in
      elim (Bool-cases (is_truthy (get row "entity_is_deleted"))) [
        | inl y ↦
            absurd (cc (subst (λ b. (if b then none else members_of rows d') ≡ some current) y h))
        | inr n ↦
            members_of-Observed rows d' current
              (insert-Observed trip_ok stop_ok before trip (add_row row stops) d o refl
                (add_row-Distinct row stops (stops-Distinct trip_ok stop_ok before trip d o))
                (add_row-ok row stops (o.stops trip)))
              (subst (λ b. (if b then none else members_of rows d') ≡ some current) n h)
      ]
