-- ===== src/Presence/Process.antt =====
-- realtime/tripupdate_presence.py, the observations of a process.
use bkk_collector.Base.{
  ℕ, ◌≡◌, refl, sym, ap, subst, ◌∙◌, arith, String, Bool, true, false, not, Option, none, some,
  List, [], ◌∷◌, ◌++◌, is_some, from_some, nat_beq, if◌then◌else◌, ◌==◌, ==_iff, string_eq,
  option_eq, list_eq, ◌+◌, Bool-cases, inl, inr,
}
use mathlib.Core.Option.{some-injective}
use bkk_collector.Base.Dict.{lookup, lookup-insert}
use bkk_collector.Tracker.{Row, value_eq}
use bkk_collector.Presence.{Identity, Members, record_of, members_of}
use bkk_collector.Presence.Views.{View}
use bkk_collector.Presence.Stream.{Observed, none-Observed}
use bkk_collector.Presence.Observe.{
  TripUpdatePresence, Files, file_at, put_record, Append, appended, lost, landed, new_presence,
  invalidate, at_date, write_record, observe_members, observe, replay,
}
use bkk_collector.Presence.History.{trip_ok, stop_ok, members_of-Observed}
use bkk_collector.Presence.Follows.{
  Read, Follows, known_at, forget, record_of-Read, invalidate-Follows, at_date-Follows,
  at_date-date,
}

-- One call of `observe`.
pub record Observation : Type 0 where
  pub append : Append
  pub incrementality : ℕ
  pub rows : List Row
  pub date : String

module _ (before : Identity → Identity → Bool) where
  -- A record that the process knows, in the file of its date.
  put_record-Follows :
      (date : String) (p : TripUpdatePresence) (files : Files) (current : Members Identity) (n : ℕ)
      → p.date ≡ some date
      → Observed trip_ok stop_ok before current
      → Follows before p files
      → Follows before
          (record p { members = some current; sequence = n })
          (put_record date (record_of before p.members current) files)
  put_record-Follows date p files current n h o f d =
      let r = record_of before p.members current in
      let there : lookup d (put_record date r files)
          ≡ (if date == d then some (file_at date files ++ r ∷ []) else lookup d files) =
        lookup-insert date d (file_at date files ++ r ∷ []) files in
      elim (Bool-cases (date == d)) [
        | inl same ↦
            let e : date ≡ d = (==_iff date d).0 same in
            let file : file_at d (put_record date r files) ≡ file_at date files ++ r ∷ [] =
              ap (from_some []) (
                there
                ∙ ap (λ b. if b then some (file_at date files ++ r ∷ []) else lookup d files)
                    same) in
            let knows : (if p.date == some d then some current else none) ≡ some current =
              ground (arith, h, e, ==_iff p.date (some d)) in
            let before_it : known_at before date p ≡ p.members =
              ground (arith, h, ==_iff p.date (some date)) in
            subst (Read before (if p.date == some d then some current else none)) (sym file) (
              subst (λ k. Read before k (file_at date files ++ r ∷ [])) (sym knows)
                (record_of-Read before p.members (file_at date files) current o
                  (subst (λ k. Read before k (file_at date files)) before_it (f date))))
        | inr other ↦
            let file : file_at d (put_record date r files) ≡ file_at d files = ap (from_some []) (
              there
              ∙ ap (λ b. if b then some (file_at date files ++ r ∷ []) else lookup d files)
                  other) in
            let knows : (if p.date == some d then some current else none) ≡ none =
              elim (Bool-cases (p.date == some d)) [
                | inl y ↦ absurd (
                    ground (
                      arith,
                      other,
                      ==_iff date d,
                      some-injective date d (sym h ∙ (==_iff p.date (some d)).0 y),
                    ))
                | inr y ↦ rw y refl
              ] in
            subst (Read before (if p.date == some d then some current else none)) (sym file) (
              subst (λ k. Read before k (file_at d files)) (sym knows)
                (forget before (known_at before d p) (file_at d files) (f d)))
      ]

  write_record-Follows :
      (a : Append) (date : String) (current : Members Identity) (p : TripUpdatePresence)
      (files : Files)
      → p.date ≡ some date
      → Observed trip_ok stop_ok before current
      → Follows before p files
      → Follows before
          (write_record before a date current p files).1
          (write_record before a date current p files).2
  unfolding write_record
  write_record-Follows appended date current p files h o f =
      put_record-Follows date p files current (if is_some p.members then p.sequence + 1 else 1) h o
        f
  write_record-Follows lost date current p files h o f =
      invalidate-Follows before "presence_write_gap" p files f
  write_record-Follows landed date current p files h o f =
      unfold invalidate in
      invalidate-Follows before "presence_write_gap"
        (record p { members = some current; sequence = p.sequence })
        (put_record date (record_of before p.members current) files)
        (put_record-Follows date p files current p.sequence h o f)

  observe_members-Follows :
      (a : Append) (date : String) (r : Option (Members Identity)) (p : TripUpdatePresence)
      (files : Files)
      → p.date ≡ some date
      → ((current : Members Identity) → r ≡ some current → Observed trip_ok stop_ok before current)
      → Follows before p files
      → Follows before
          (observe_members before a date r p files).1
          (observe_members before a date r p files).2
  unfolding observe_members
  observe_members-Follows a date none p files h o f =
      invalidate-Follows before "unexpected_deletion" p files f
  observe_members-Follows a date (some current) p files h o f =
      write_record-Follows a date current p files h (o current refl) f

  at_either :
      (b : Bool) (x y : Bool × TripUpdatePresence × Files)
      → Follows before x.1 x.2
      → Follows before y.1 y.2
      → Follows before (if not b then x else y).1 (if not b then x else y).2
  at_either true x y hx hy = hy
  at_either false x y hx hy = hx

  observe-Follows :
      (x : Observation) (p : TripUpdatePresence) (files : Files)
      → Follows before p files
      → Follows before
          (observe before x.append x.incrementality x.rows x.date p files).1
          (observe before x.append x.incrementality x.rows x.date p files).2
  unfolding observe
  observe-Follows x p files f =
      at_either (nat_beq x.incrementality 0)
        (true, invalidate "unsupported_incrementality" p, files)
        (observe_members before x.append x.date (members_of x.rows []) (at_date x.date p) files)
        (invalidate-Follows before "unsupported_incrementality" p files f)
        (observe_members-Follows x.append x.date (members_of x.rows []) (at_date x.date p) files
          (at_date-date before x.date p)
          (λ current h.
            members_of-Observed before x.rows [] current (none-Observed trip_ok stop_ok before) h)
          (at_date-Follows before x.date p files f))

  -- The observations of a process, one behind the other.
  unfoldable pub observe_all :
      List Observation → TripUpdatePresence → Files → TripUpdatePresence × Files
  unfolding observe
  observe_all [] p files = (p, files)
  observe_all (x ∷ xs) p files =
      let (raised, p', files') = observe before x.append x.incrementality x.rows x.date p files in
      observe_all xs p' files'

  observe_all-Follows :
      (xs : List Observation) (p : TripUpdatePresence) (files : Files)
      → Follows before p files
      → Follows before (observe_all xs p files).0 (observe_all xs p files).1
  unfolding observe_all
  observe_all-Follows [] p files f = f
  observe_all-Follows (x ∷ xs) p files f =
      let r = observe before x.append x.incrementality x.rows x.date p files in
      observe_all-Follows xs r.1 r.2 (observe-Follows x p files f)

  -- After any observations of a process that starts without files, on any dates, whatever raises in
  -- them and whether or not a failed append left its record: the replay of each file accepts every
  -- record of it; and if the process knows the members of the file's date, the replay ends with the
  -- same trips and the same stops of each.
  pub observe_all-replay :
      (xs : List Observation) (date : String)
      → (members : Members Identity) × (replay [] (file_at date (observe_all xs new_presence []).1)
          ≡ some members)
        × ((current : Members Identity)
            → known_at before date (observe_all xs new_presence []).0 ≡ some current
            → View members current)
  observe_all-replay xs date =
      let read =
        observe_all-Follows xs new_presence []
          (λ d.
            unfold lookup replay in
            record {
              members = [];
              replays = refl;
              keyed = tt;
              agrees = λ current h. absurd (cc h);
            })
          date in
      (read.members, read.replays, λ current h. (read.agrees current h).1)
