-- ===== src/Presence/Replay.antt =====
-- realtime/tripupdate_presence.py, the replay of one change of a record that `observe` wrote.
use bkk_collector.Base.{
  ◌≡◌, refl, sym, ap, subst, ◌∙◌, arith, Bool, true, false, not, ◌&&◌, ◌||◌, Option, none, some,
  List, [], ◌++◌, is_empty, is_some, any, all, from_some, if◌then◌else◌, Eq,
}
use bkk_collector.Base.Dict.{lookup, insert, erase, member, lookup-insert, lookup-erase}
use bkk_collector.Base.Sorting.{
  all-member, Distinct, Keyed, insert-Keyed, erase-Keyed, sorted, member-sorted,
}
use bkk_collector.Presence.{
  Members, Change, minus, union, set_of, put_stops, change_stops, apply_change,
}
use bkk_collector.Presence.Sets.{
  SameItems, member-keep, keep-Distinct, member-union, union-Distinct, any_none, no_members,
}

module _ {I : Type 0} ⦃e : Eq I⦄ where
  -- The same stops of a trip, or no trip in both.
  abbrev pub SameAt : Option (List I) → Option (List I) → Type 0
  SameAt none none = Unit
  SameAt (some xs) (some ys) = SameItems xs ys × Distinct xs × Distinct ys
  SameAt _ _ = ⊥

  member-set_of : (s : I) (xs : List I) → member s (set_of xs) ≡ member s xs
  member-set_of s xs = member-union s [] xs

  abbrev new_stops : List I → List I → List I → List I
  new_stops xs entered withdrawn = union (minus xs (set_of withdrawn)) (set_of entered)

  new_stops-SameItems :
      (xs old new entered withdrawn : List I)
      → SameItems xs old
      → ((s : I) → member s entered ≡ (member s new && not (member s old)))
      → ((s : I) → member s withdrawn ≡ (member s old && not (member s new)))
      → SameItems (new_stops xs entered withdrawn) new
  new_stops-SameItems xs old new entered withdrawn same he hw s = ground (
    arith,
    member-union s (minus xs (set_of withdrawn)) (set_of entered),
    member-keep (λ x. not (member x (set_of withdrawn))) s xs,
    member-set_of s withdrawn,
    member-set_of s entered,
    same s,
    he s,
    hw s,
  )

  new_stops-Distinct :
      (xs entered withdrawn : List I) → Distinct xs → Distinct (new_stops xs entered withdrawn)
  new_stops-Distinct xs entered withdrawn d =
      union-Distinct (minus xs (set_of withdrawn)) (set_of entered)
        (keep-Distinct (λ x. not (member x (set_of withdrawn))) xs d)

  change_stops-put :
      (c : Change I) (xs old new : List I) (m : Members I)
      → SameItems xs old
      → ((s : I) → member s c.entered_stops ≡ (member s new && not (member s old)))
      → ((s : I) → member s c.withdrawn_stops ≡ (member s old && not (member s new)))
      → change_stops c (some xs) m ≡ put_stops c (new_stops xs c.entered_stops c.withdrawn_stops) m
  unfolding change_stops
  change_stops-put c xs old new m same he hw =
      let fresh : any (λ s. member s xs) (set_of c.entered_stops) ≡ false =
        any_none (λ s. member s xs) (set_of c.entered_stops)
          (λ s k. ground (arith, k, member-set_of s c.entered_stops, he s, same s)) in
      let held : all (λ s. member s xs) (set_of c.withdrawn_stops) ≡ true =
        all-member (λ s. member s xs) (set_of c.withdrawn_stops)
          (λ s k. ground (arith, k, member-set_of s c.withdrawn_stops, hw s, same s)) in
      ap (λ b. if b then none else put_stops c (new_stops xs c.entered_stops c.withdrawn_stops) m)
        {y = false} (ground (arith, fresh, held))

  pub member-minus :
      (s : I) (xs ys : List I) → member s (minus xs ys) ≡ (member s xs && not (member s ys))
  member-minus s xs ys = member-keep (λ x. not (member x ys)) s xs

module _ {I : Type 0} ⦃e : Eq I⦄ (trip_ok stop_ok : I → Bool) (before : I → I → Bool) where
  -- The change of a trip with the stops of before and now.
  abbrev pub change_at : I → Option (List I) → Option (List I) → Change I
  change_at k old new = record {
    trip = k;
    trip_entered = not (is_some old);
    trip_withdrawn = not (is_some new);
    entered_stops = sorted before (minus (from_some [] new) (from_some [] old));
    withdrawn_stops = sorted before (minus (from_some [] old) (from_some [] new));
  }

  -- Members in which a trip has changed.
  pub record Changed (k : I) (new : Option (List I)) (m : Members I) (r : Option (Members I))
      : Type 0 where
    pub after : Members I
    pub is_after : r ≡ some after
    pub here : SameAt (lookup k after) new
    pub there : (j : I) → e.beq k j ≡ false → lookup j after ≡ lookup j m
    pub keyed : Keyed after

  insert-Changed :
      (k : I) (stops new : List I) (m : Members I)
      → Keyed m
      → SameAt (some stops) (some new)
      → Changed k (some new) m (some (insert k stops m))
  insert-Changed k stops new m d same = record {
    after = insert k stops m;
    is_after = refl;
    here =
        subst (λ o. SameAt o (some new)) {x = some stops}
          (ground (arith, lookup-insert k k stops m, e.beq_iff k k)) same;
    there = λ j h. ground (arith, lookup-insert k j stops m, h);
    keyed = insert-Keyed k stops m d;
  }

  erase-Changed : (k : I) (m : Members I) → Keyed m → Changed k none m (some (erase k m))
  erase-Changed k m d = record {
    after = erase k m;
    is_after = refl;
    here =
        subst (λ o. SameAt o none) {x = none} (ground (arith, lookup-erase k k m, e.beq_iff k k))
          tt;
    there = λ j h. ground (arith, lookup-erase k j m, h);
    keyed = erase-Keyed k m d;
  }

  pub entered-member :
      (s : I) (old new : List I)
      → member s (sorted before (minus new old)) ≡ (member s new && not (member s old))
  entered-member s old new = member-sorted before s (minus new old) ∙ member-minus s new old

  pub change_at-Changed :
      (k : I) (held old new : Option (List I)) (m : Members I)
      → Keyed m
      → lookup k m ≡ held
      → SameAt held old
      → SameAt new new
      → (is_some old || is_some new) ≡ true
      → all stop_ok ((change_at k old new).entered_stops ++ (change_at k old new).withdrawn_stops)
        ≡ true
      → Changed k new m (apply_change trip_ok stop_ok (change_at k old new) m)
  unfolding apply_change put_stops
  change_at-Changed k held none none m d h same set some_one ok = absurd (cc some_one)
  change_at-Changed k none none (some new) m d h same (si, dn, dn') some_one ok =
      let c = change_at k none (some new) in
      let made =
        change_stops-put c [] [] new m (λ s. refl) (λ s. entered-member s [] new)
          (λ s. entered-member s new []) in
      subst (Changed k (some new) m)
        (sym (
          ap
            (λ b.
              if not b
              then none
              else if is_some (lookup k m)
              then none
              else change_stops c (some []) m)
            ok
          ∙ ap (λ o. if is_some o then none else change_stops c (some []) m) h
          ∙ made))
        (insert-Changed k (new_stops [] c.entered_stops c.withdrawn_stops) new m d (
          new_stops-SameItems [] [] new c.entered_stops c.withdrawn_stops (λ s. refl)
              (λ s. entered-member s [] new) (λ s. entered-member s new []),
          new_stops-Distinct [] c.entered_stops c.withdrawn_stops tt,
          dn,
        ))
  change_at-Changed k (some xs) none new m d h same set some_one ok = absurd same
  change_at-Changed k none (some old) new m d h same set some_one ok = absurd same
  change_at-Changed k (some xs) (some old) none m d h (si, dx, dold) set some_one ok =
      let c = change_at k (some old) none in
      let stops = new_stops xs c.entered_stops c.withdrawn_stops in
      let made =
        change_stops-put c xs old [] m si (λ s. entered-member s old [])
          (λ s. entered-member s [] old) in
      let gone : is_empty stops ≡ true = no_members stops (
        new_stops-SameItems xs old [] c.entered_stops c.withdrawn_stops si
          (λ s. entered-member s old []) (λ s. entered-member s [] old)) in
      subst (Changed k none m)
        (sym (
          ap (λ b. if not b then none else change_stops c (lookup k m) m) ok
          ∙ ap (λ o. change_stops c o m) h
          ∙ made
          ∙ ap (λ b. if b then some (erase k m) else none) {y = true} (ground (arith, gone, h))))
        (erase-Changed k m d)
  change_at-Changed k (some xs) (some old) (some new) m d h (si, dx, dold) (sn, dn, dn') some_one
        ok =
      let c = change_at k (some old) (some new) in
      let made =
        change_stops-put c xs old new m si (λ s. entered-member s old new)
          (λ s. entered-member s new old) in
      subst (Changed k (some new) m)
        (sym (
          ap (λ b. if not b then none else change_stops c (lookup k m) m) ok
          ∙ ap (λ o. change_stops c o m) h
          ∙ made))
        (insert-Changed k (new_stops xs c.entered_stops c.withdrawn_stops) new m d (
          new_stops-SameItems xs old new c.entered_stops c.withdrawn_stops si
              (λ s. entered-member s old new) (λ s. entered-member s new old),
          new_stops-Distinct xs c.entered_stops c.withdrawn_stops dx,
          dn,
        ))
