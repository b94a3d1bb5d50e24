-- ===== src/Presence/Observed.antt =====
-- realtime/tripupdate_presence.py, `observe` and `apply_presence_record`: a reader of the records
-- has the members that were observed.
use bkk_collector.Base.{
  ◌≡◌, refl, sym, ap, subst, ◌∙◌, arith, Bool, true, false, ◌||◌, Option, none, some, List, [], ◌∷◌,
  ◌++◌, all, from_some, if◌then◌else◌, Bool-cases, inl, inr, Eq,
}
use mathlib.Core.Option as Option
use bkk_collector.Base.Dict.{lookup, has_key, member}
use bkk_collector.Base.Sorting.{all-member, Distinct, Keyed, sorted}
use bkk_collector.Presence.{
  Members, Change, minus, change_of, is_change, ordered, changes_for, apply_change, apply_changes,
}
use bkk_collector.Presence.Sets.{member-append}
use bkk_collector.Presence.Replay.{SameAt, change_at, Changed, change_at-Changed, entered-member}
use bkk_collector.Presence.Views.{View, same_stops}

module _ {I : Type 0} ⦃e : Eq I⦄ (trip_ok stop_ok : I → Bool) (before : I → I → Bool) where
  -- Stops that a record can tell.
  abbrev pub StopsOk : Members I → Type 0
  StopsOk d = (k s : I) → member s (from_some [] (lookup k d)) ≡ true → stop_ok s ≡ true

  -- A replay that has come to the trips of a list.
  pub record Between (trips : List I) (previous current m : Members I) : Type 0 where
    pub keyed : Keyed m
    pub ahead : (j : I) → member j trips ≡ true → SameAt (lookup j m) (lookup j previous)
    pub done : (j : I) → member j trips ≡ false → SameAt (lookup j m) (lookup j current)

  pub record Replayed (current : Members I) (r : Option (Members I)) : Type 0 where
    pub after : Members I
    pub is_after : r ≡ some after
    pub keyed : Keyed after
    pub same : View after current

  changes_for_kept :
      (previous current : Members I) (k : I) (trips : List I)
      → is_change (change_of previous current k) ≡ true
      → changes_for before previous current (k ∷ trips)
        ≡ ordered before (change_of previous current k) ∷ changes_for before previous current trips
  unfolding changes_for
  changes_for_kept previous current k trips h = rw h refl

  changes_for_left :
      (previous current : Members I) (k : I) (trips : List I)
      → is_change (change_of previous current k) ≡ false
      → changes_for before previous current (k ∷ trips) ≡ changes_for before previous current trips
  unfolding changes_for
  changes_for_left previous current k trips h = rw h refl

  apply_changes-cons :
      (c : Change I) (changed : List I) (changes : List (Change I)) (m after : Members I)
      → trip_ok c.trip ≡ true
      → member c.trip changed ≡ false
      → apply_change trip_ok stop_ok c m ≡ some after
      → apply_changes trip_ok stop_ok changed (c ∷ changes) m
        ≡ apply_changes trip_ok stop_ok (c.trip ∷ changed) changes after
  unfolding apply_changes Option.bind
  apply_changes-cons c changed changes m after h1 h2 h3 =
      ap
        (λ b.
          if b
          then none
          else Option.bind (apply_change trip_ok stop_ok c m)
              (λ x. apply_changes trip_ok stop_ok (c.trip ∷ changed) changes x))
        {y = false} (ground (arith, h1, h2))
      ∙ ap (λ o. Option.bind o (λ x. apply_changes trip_ok stop_ok (c.trip ∷ changed) changes x)) h3

  apply_changes-kept :
      (previous current : Members I) (k : I) (trips changed : List I) (m after : Members I)
      → is_change (change_of previous current k) ≡ true
      → trip_ok k ≡ true
      → member k changed ≡ false
      → apply_change trip_ok stop_ok (ordered before (change_of previous current k)) m ≡ some after
      → apply_changes trip_ok stop_ok changed (changes_for before previous current (k ∷ trips)) m
        ≡ apply_changes trip_ok stop_ok
            (k ∷ changed)
            (changes_for before previous current trips)
            after
  unfolding change_of
  apply_changes-kept previous current k trips changed m after h ok unseen e' =
      ap (λ cs. apply_changes trip_ok stop_ok changed cs m)
        (changes_for_kept previous current k trips h)
      ∙ apply_changes-cons (ordered before (change_of previous current k)) changed
          (changes_for before previous current trips) m after ok unseen e'

  -- The stops of a change are stops that were there, or are.
  change_at-stops :
      (previous current : Members I) (k : I)
      → StopsOk previous
      → StopsOk current
      → all stop_ok (
          (change_at trip_ok stop_ok before k (lookup k previous) (lookup k current)).entered_stops
          ++ (change_at trip_ok stop_ok before k
              (lookup k previous)
              (lookup k current)).withdrawn_stops)
        ≡ true
  change_at-stops previous current k sp sc =
      let old = from_some [] (lookup k previous) in
      let new = from_some [] (lookup k current) in
      all-member stop_ok (sorted before (minus new old) ++ sorted before (minus old new)) (λ s h.
        elim (Bool-cases (member s new)) [
          | inl n ↦ sc k s n
          | inr n ↦ sp k s (
              ground (
                arith,
                h,
                n,
                member-append s (sorted before (minus new old)) (sorted before (minus old new)),
                entered-member trip_ok stop_ok before s old new,
                entered-member trip_ok stop_ok before s new old,
              ))
        ])

  ordered-Changed :
      (previous current m : Members I) (k : I)
      → Keyed m
      → SameAt (lookup k m) (lookup k previous)
      → SameAt (lookup k current) (lookup k current)
      → (has_key k previous || has_key k current) ≡ true
      → StopsOk previous
      → StopsOk current
      → Changed trip_ok stop_ok before k
          (lookup k current)
          m
          (apply_change trip_ok stop_ok (ordered before (change_of previous current k)) m)
  unfolding change_of
  ordered-Changed previous current m k d same set there sp sc =
      change_at-Changed trip_ok stop_ok before k (lookup k m) (lookup k previous) (lookup k current)
        m d refl same set there (change_at-stops previous current k sp sc)

  -- A trip that the loop of `observe` leaves out.
  unchanged :
      (previous current m : Members I) (k : I)
      → is_change (change_of previous current k) ≡ false
      → SameAt (lookup k m) (lookup k previous)
      → SameAt (lookup k current) (lookup k current)
      → (has_key k previous || has_key k current) ≡ true
      → SameAt (lookup k m) (lookup k current)
  unfolding change_of
  unchanged previous current m k h same set known =
      same_stops (lookup k m) (lookup k previous) (lookup k current) same set known
        (ground (arith, h)) (ground (arith, h)) (ground (arith, h)) (ground (arith, h))

  Changed-Between :
      (k : I) (trips : List I) (previous current m : Members I) (r : Option (Members I))
      → member k trips ≡ false
      → Between (k ∷ trips) previous current m
      → (ch : Changed trip_ok stop_ok before k (lookup k current) m r)
      → Between trips previous current ch.after
  Changed-Between k trips previous current m r new b ch = record {
    keyed = ch.keyed;
    ahead = λ j h.
        let other : e.beq k j ≡ false = elim (Bool-cases (e.beq k j)) [
          | inl same ↦
              absurd (ground (arith, h, new, ap (λ i. member i trips) ((e.beq_iff k j).0 same)))
          | inr other ↦ other
        ] in
        subst (λ o. SameAt o (lookup j previous)) (sym (ch.there j other))
          (b.ahead j (ground (arith, h)));
    done = λ j h. elim (Bool-cases (e.beq k j)) [
      | inl same ↦
          subst (λ i. SameAt (lookup i ch.after) (lookup i current)) ((e.beq_iff k j).0 same)
            ch.here
      | inr other ↦
          subst (λ o. SameAt o (lookup j current)) (sym (ch.there j other))
            (b.done j (ground (arith, h, other, e.beq_iff k j, e.beq_iff j k)))
    ];
  }

  unchanged-Between :
      (k : I) (trips : List I) (previous current m : Members I)
      → SameAt (lookup k m) (lookup k current)
      → Between (k ∷ trips) previous current m
      → Between trips previous current m
  unchanged-Between k trips previous current m same b = record {
    keyed = b.keyed;
    ahead = λ j h. b.ahead j (ground (arith, h));
    done = λ j h. elim (Bool-cases (e.beq k j)) [
      | inl eq ↦ subst (λ i. SameAt (lookup i m) (lookup i current)) ((e.beq_iff k j).0 eq) same
      | inr other ↦ b.done j (ground (arith, h, other, e.beq_iff k j, e.beq_iff j k))
    ];
  }

  not_first :
      (k j : I) (trips changed : List I)
      → member k trips ≡ false
      → member j trips ≡ true
      → member j changed ≡ false
      → member j (k ∷ changed) ≡ false
  not_first k j trips changed new h seen = elim (Bool-cases (e.beq j k)) [
    | inl same ↦ absurd (ground (arith, h, new, ap (λ i. member i trips) ((e.beq_iff j k).0 same)))
    | inr other ↦ ground (arith, other, seen)
  ]

  -- What is known of the trips that the replay is to come to.
  unfoldable pub Known : Members I → Members I → List I → List I → Type 0
  Known previous current changed trips =
      (j : I)
      → member j trips ≡ true
      → ((has_key j previous || has_key j current) ≡ true)
        × (trip_ok j ≡ true)
        × (member j changed ≡ false)

  pub changes_for-Replayed :
      (previous current : Members I) (changed trips : List I) (m : Members I)
      → View current current
      → StopsOk previous
      → StopsOk current
      → Distinct trips
      → Known previous current changed trips
      → Between trips previous current m
      → Replayed current
          (apply_changes trip_ok stop_ok changed (changes_for before previous current trips) m)
  unfolding Known
  changes_for-Replayed previous current changed [] m v sp sc d known b =
      unfold apply_changes changes_for in
      record { after = m; is_after = refl; keyed = b.keyed; same = λ k. b.done k refl }
  changes_for-Replayed previous current changed (k ∷ trips) m v sp sc (new, d) known b =
      let (there, ok, unseen) = known k (ground (arith, e.beq_iff k k)) in
      let ahead = b.ahead k (ground (arith, e.beq_iff k k)) in
      elim (Bool-cases (is_change (change_of previous current k))) [
        | inl h ↦
            let ch = ordered-Changed previous current m k b.keyed ahead (v k) there sp sc in
            subst (Replayed current)
              (sym (
                apply_changes-kept previous current k trips changed m ch.after h ok unseen
                  ch.is_after))
              (changes_for-Replayed previous current (k ∷ changed) trips ch.after v sp sc d
                (λ j hj.
                  let (p, okj, seen) = known j (ground (arith, hj)) in
                  (p, okj, not_first k j trips changed new hj seen))
                (Changed-Between k trips previous current m
                  (apply_change trip_ok stop_ok (ordered before (change_of previous current k)) m)
                  new b ch))
        | inr h ↦
            subst (Replayed current)
              (sym (
                ap (λ cs. apply_changes trip_ok stop_ok changed cs m)
                  (changes_for_left previous current k trips h)))
              (changes_for-Replayed previous current changed trips m v sp sc d
                (λ j hj. known j (ground (arith, hj)))
                (unchanged-Between k trips previous current m
                  (unchanged previous current m k h ahead (v k) there) b))
      ]
