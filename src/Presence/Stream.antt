-- ===== src/Presence/Stream.antt =====
-- realtime/tripupdate_presence.py, the records of a stream, one behind the other.
use bkk_collector.Base.{
  ◌≡◌, refl, sym, ap, subst, ◌∙◌, arith, Bool, true, ◌||◌, Option, none, some, List, [], length,
  from_some, nat_beq_iff, if◌then◌else◌, Bool-cases, inl, inr, Eq,
}
use mathlib.Core.Option as Option
use bkk_collector.Base.Dict.{lookup, insert, has_key, member, keys, lookup-insert}
use bkk_collector.Base.Sorting.{
  Distinct, Keyed, insert-Keyed, total, sorted, member-sorted, sorted-Distinct, keys-Distinct,
  lookup-keys, keys-lookup,
}
use bkk_collector.Presence.{
  Members, PresenceRecord, union, changes_for, record_of, apply_changes, counted,
  apply_presence_record,
}
use bkk_collector.Presence.Sets.{length-SameItems, member-union, union-Distinct}
use bkk_collector.Presence.Replay.{SameAt}
use bkk_collector.Presence.Views.{View, total-View, length-total}
use bkk_collector.Presence.Observed.{StopsOk, Replayed, Known, changes_for-Replayed}

module _ {I : Type 0} ⦃e : Eq I⦄ where
  of_SameAt : (o : Option (List I)) → SameAt o o → Distinct (from_some [] o)
  of_SameAt none h = tt
  of_SameAt (some xs) (h, d, d') = d

module _ {I : Type 0} ⦃e : Eq I⦄ (trip_ok stop_ok : I → Bool) (before : I → I → Bool) where
  -- Members as `observe` makes them: sets of stops, for trips that are there once, of identities
  -- with the right number of fields.
  pub record Observed (d : Members I) : Type 0 where
    pub keyed : Keyed d
    pub sets : View d d
    pub stops : StopsOk trip_ok stop_ok before d
    pub trips : (j : I) → has_key j d ≡ true → trip_ok j ≡ true

  pub none-Observed : Observed []
  none-Observed = record {
    keyed = tt;
    sets = λ k. unfold lookup in tt;
    stops = λ k s h. absurd (unfold lookup in cc h);
    trips = λ j h. absurd (unfold lookup in cc h);
  }

  abbrev all_trips : Members I → Members I → List I
  all_trips previous current = sorted before (union (keys current) (keys previous))

  member-all_trips :
      (previous current : Members I) (j : I)
      → member j (all_trips previous current)
        ≡ (member j (keys current) || member j (keys previous))
  member-all_trips previous current j =
      member-sorted before j (union (keys current) (keys previous))
      ∙ member-union j (keys current) (keys previous)

  -- The replay of all changes.
  apply_changes-Replayed :
      (previous current m : Members I)
      → Observed previous
      → Observed current
      → Keyed m
      → View m previous
      → Replayed trip_ok stop_ok before current (
          apply_changes trip_ok stop_ok []
            (changes_for before previous current (all_trips previous current))
            m)
  apply_changes-Replayed previous current m p c d v =
      changes_for-Replayed trip_ok stop_ok before previous current [] (all_trips previous current) m
        c.sets p.stops c.stops
        (sorted-Distinct before (union (keys current) (keys previous))
          (union-Distinct (keys current) (keys previous) (keys-Distinct current c.keyed)))
        (unfold Known in
          λ j h.
            let there : (has_key j previous || has_key j current) ≡ true = ground (
              arith,
              h,
              member-all_trips previous current j,
              keys-lookup j previous,
              keys-lookup j current,
            ) in
            (
              there,
              elim (Bool-cases (has_key j current)) [
                | inl k ↦ c.trips j k
                | inr k ↦ p.trips j (ground (arith, there, k))
              ],
              refl,
            ))
        (record {
          keyed = d;
          ahead = λ j h. v j;
          done = λ j h.
              let gone : lookup j previous ≡ none =
                lookup-keys j previous (ground (arith, h, member-all_trips previous current j)) in
              let absent : lookup j current ≡ none =
                lookup-keys j current (ground (arith, h, member-all_trips previous current j)) in
              subst (SameAt (lookup j m)) (gone ∙ sym absent) (v j);
        })

  -- The counts of a record agree with the replay.
  counted-View :
      (r : PresenceRecord I) (current after : Members I)
      → r.trip_count ≡ length current
      → r.stop_count ≡ total length current
      → Keyed after
      → Keyed current
      → View after current
      → counted trip_ok stop_ok r after ≡ some after
  counted-View r current after ht hs ka kc v =
      let trips : length after ≡ length current =
        length-total after
        ∙ total-View (λ xs. 1) (λ xs ys dx dy h. refl) after current ka kc v
        ∙ sym (length-total current) in
      let stops : total length after ≡ total length current =
        total-View length length-SameItems after current ka kc v in
      ap (λ b. if b then some after else none) {y = true}
        (ground (
          arith,
          trips,
          stops,
          ht,
          hs,
          nat_beq_iff (length after) r.trip_count,
          nat_beq_iff (total length after) r.stop_count,
        ))

  counted-Replayed :
      (r : PresenceRecord I) (current : Members I) (o : Option (Members I))
      → r.trip_count ≡ length current
      → r.stop_count ≡ total length current
      → Keyed current
      → Replayed trip_ok stop_ok before current o
      → Replayed trip_ok stop_ok before current (Option.bind o (counted trip_ok stop_ok r))
  unfolding Option.bind
  counted-Replayed r current o ht hs kc p = record {
    after = p.after;
    is_after =
        ap (λ x. Option.bind x (counted trip_ok stop_ok r)) p.is_after
        ∙ counted-View r current p.after ht hs p.keyed kc p.same;
    keyed = p.keyed;
    same = p.same;
  }

  -- A reader who has the members before a record has those behind it.
  pub delta-Replayed :
      (previous current m : Members I)
      → Observed previous
      → Observed current
      → Keyed m
      → View m previous
      → Replayed trip_ok stop_ok before current
          (apply_presence_record trip_ok stop_ok m (record_of before (some previous) current))
  unfolding apply_presence_record record_of
  delta-Replayed previous current m p c d v =
      counted-Replayed (record_of before (some previous) current) current
        (apply_changes trip_ok stop_ok []
          (changes_for before previous current (all_trips previous current)) m)
        refl refl c.keyed (apply_changes-Replayed previous current m p c d v)

  -- A baseline tells all members, whatever the reader had.
  pub baseline-Replayed :
      (current m : Members I)
      → Observed current
      → Replayed trip_ok stop_ok before current
          (apply_presence_record trip_ok stop_ok m (record_of before none current))
  unfolding apply_presence_record record_of
  baseline-Replayed current m c =
      counted-Replayed (record_of before none current) current
        (apply_changes trip_ok stop_ok [] (changes_for before [] current (all_trips [] current)) [])
        refl refl c.keyed
        (apply_changes-Replayed [] current [] none-Observed c tt (λ k. unfold lookup in tt))

  -- A trip and its stops, in members as `observe` makes them.
  pub insert-Observed :
      (k : I) (xs : List I) (d : Members I)
      → Observed d
      → trip_ok k ≡ true
      → Distinct xs
      → ((s : I) → member s xs ≡ true → stop_ok s ≡ true)
      → Observed (insert k xs d)
  insert-Observed k xs d o ok dx sx = record {
    keyed = insert-Keyed k xs d o.keyed;
    sets = λ j. elim (Bool-cases (e.beq k j)) [
      | inl same ↦
          subst (λ v. SameAt v v) {x = some xs} (ground (arith, lookup-insert k j xs d, same))
            (λ s. refl, dx, dx)
      | inr other ↦
          subst (λ v. SameAt v v) {x = lookup j d} (ground (arith, lookup-insert k j xs d, other))
            (o.sets j)
    ];
    stops = λ j s h. elim (Bool-cases (e.beq k j)) [
      | inl same ↦ sx s (ground (arith, h, lookup-insert k j xs d, same))
      | inr other ↦ o.stops j s (ground (arith, h, lookup-insert k j xs d, other))
    ];
    trips = λ j h. elim (Bool-cases (e.beq k j)) [
      | inl same ↦ ap trip_ok (sym ((e.beq_iff k j).0 same)) ∙ ok
      | inr other ↦ o.trips j (ground (arith, h, lookup-insert k j xs d, other))
    ];
  }

  -- The stops of a trip that is there or not.
  pub stops-Distinct : (k : I) (d : Members I) → Observed d → Distinct (from_some [] (lookup k d))
  stops-Distinct k d o = of_SameAt (lookup k d) (o.sets k)
