-- ===== src/Presence/Follows.antt =====
-- realtime/tripupdate_presence.py, a reader of the files has the members of the process.
use bkk_collector.Base.{
  ◌≡◌, refl, sym, ap, subst, ◌∙◌, arith, String, Bool, Option, none, some, List, [], ◌∷◌, ◌++◌,
  if◌then◌else◌, ◌==◌, ==_iff, string_eq, option_eq, list_eq, Bool-cases, Option-cases, inl, inr,
}
use mathlib.Core.Option as Option
use mathlib.Core.Option.{some-injective}
use bkk_collector.Base.Sorting.{Keyed}
use bkk_collector.Tracker.{value_eq}
use bkk_collector.Presence.{Identity, Members, PresenceRecord, record_of, apply_presence_record}
use bkk_collector.Presence.Views.{View}
use bkk_collector.Presence.Stream.{Observed, delta-Replayed, baseline-Replayed}
use bkk_collector.Presence.Observe.{TripUpdatePresence, Files, file_at, invalidate, at_date, replay}
use bkk_collector.Presence.History.{trip_ok, stop_ok}

replay_added :
    (m m1 m2 : Members Identity) (records : List (PresenceRecord Identity))
    (r : PresenceRecord Identity)
    → replay m records ≡ some m1
    → apply_presence_record trip_ok stop_ok m1 r ≡ some m2
    → replay m (records ++ r ∷ []) ≡ some m2
unfolding replay Option.bind
replay_added m m1 m2 [] r h k =
    ap (λ o. Option.bind o (λ x. some x))
      (ap (λ x. apply_presence_record trip_ok stop_ok x r) (some-injective m m1 h) ∙ k)
replay_added m m1 m2 (x ∷ records) r h k =
    elim (Option-cases (apply_presence_record trip_ok stop_ok m x)) [
      | inl n ↦ absurd (cc (sym (ap (λ o. Option.bind o (λ y. replay y records)) n) ∙ h))
      | inr (m', n) ↦
          ap (λ o. Option.bind o (λ y. replay y (records ++ r ∷ []))) n
          ∙ replay_added m' m1 m2 records r
              (sym (ap (λ o. Option.bind o (λ y. replay y records)) n) ∙ h) k
    ]

module _ (before : Identity → Identity → Bool) where
  -- What a reader of a file gets, beside what the process knows.
  pub record Read (known : Option (Members Identity)) (records : List (PresenceRecord Identity))
      : Type 0 where
    pub members : Members Identity
    pub replays : replay [] records ≡ some members
    pub keyed : Keyed members
    pub agrees :
        (current : Members Identity)
        → known ≡ some current
        → Observed trip_ok stop_ok before current × View members current

  -- What the process knows of the members of a date.
  abbrev pub known_at : String → TripUpdatePresence → Option (Members Identity)
  known_at date p = if p.date == some date then p.members else none

  abbrev pub Follows : TripUpdatePresence → Files → Type 0
  Follows p files = (date : String) → Read (known_at date p) (file_at date files)

  pub forget :
      (known : Option (Members Identity)) (records : List (PresenceRecord Identity))
      → Read known records
      → Read none records
  forget known records r = record {
    members = r.members;
    replays = r.replays;
    keyed = r.keyed;
    agrees = λ current h. absurd (cc h);
  }

  -- A record behind those of a file.
  pub record_of-Read :
      (known : Option (Members Identity)) (records : List (PresenceRecord Identity))
      (current : Members Identity)
      → Observed trip_ok stop_ok before current
      → Read known records
      → Read (some current) (records ++ record_of before known current ∷ [])
  record_of-Read none records current o r =
      let next = baseline-Replayed trip_ok stop_ok before current r.members o in
      record {
        members = next.after;
        replays =
            replay_added [] r.members next.after records (record_of before none current) r.replays
              next.is_after;
        keyed = next.keyed;
        agrees = λ c h.
            subst (λ d. Observed trip_ok stop_ok before d × View next.after d)
              (some-injective current c h) (o, next.same);
      }
  record_of-Read (some previous) records current o r =
      let (p, v) = r.agrees previous refl in
      let next = delta-Replayed trip_ok stop_ok before previous current r.members p o r.keyed v in
      record {
        members = next.after;
        replays =
            replay_added [] r.members next.after records (record_of before (some previous) current)
              r.replays next.is_after;
        keyed = next.keyed;
        agrees = λ c h.
            subst (λ d. Observed trip_ok stop_ok before d × View next.after d)
              (some-injective current c h) (o, next.same);
      }

  pub invalidate-Follows :
      (reason : String) (p : TripUpdatePresence) (files : Files)
      → Follows p files
      → Follows (invalidate reason p) files
  unfolding invalidate
  invalidate-Follows reason p files f date =
      subst (λ k. Read k (file_at date files)) {x = none} (ground arith)
        (forget (known_at date p) (file_at date files) (f date))

  pub at_date-Follows :
      (date : String) (p : TripUpdatePresence) (files : Files)
      → Follows p files
      → Follows (at_date date p) files
  unfolding at_date
  at_date-Follows date p files f d = elim (Bool-cases (p.date == some date)) [
    | inl same ↦ rw same (f d)
    | inr other ↦ rw other (
        subst (λ k. Read k (file_at d files)) {x = none} (ground arith)
          (forget (known_at d p) (file_at d files) (f d)))
  ]

  pub at_date-date : (date : String) (p : TripUpdatePresence) → (at_date date p).date ≡ some date
  unfolding at_date
  at_date-date date p = ground (arith, ==_iff p.date (some date))
