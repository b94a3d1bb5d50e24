-- ===== src/Presence/Views.antt =====
-- realtime/tripupdate_presence.py, dictionaries that hold the same sets, and their sizes.
use bkk_collector.Base.{
  ℕ, ◌≡◌, refl, sym, ap, subst, ◌∙◌, arith, true, false, ◌||◌, Option, none, some, List, [], ◌∷◌,
  length, is_empty, is_some, from_some, Bool-cases, Option-cases, inl, inr, Eq,
}
use bkk_collector.Base.Dict.{lookup, erase, member, lookup-erase}
use bkk_collector.Base.Sorting.{Distinct, Keyed, total, total-erase, erase-Keyed}
use bkk_collector.Presence.{Members, minus}
use bkk_collector.Presence.Sets.{SameItems}
use bkk_collector.Presence.Replay.{SameAt, member-minus}

module _ {I : Type 0} ⦃e : Eq I⦄ where
  -- The same members.
  abbrev pub View : Members I → Members I → Type 0
  View m d = (k : I) → SameAt (lookup k m) (lookup k d)

  pub member_empty : (s : I) (xs : List I) → is_empty xs ≡ true → member s xs ≡ false
  member_empty s [] h = refl
  member_empty s (x ∷ xs) h = absurd (cc h)

  -- A trip that has not changed.
  pub same_stops :
      (held old new : Option (List I))
      → SameAt held old
      → SameAt new new
      → (is_some old || is_some new) ≡ true
      → is_empty (minus (from_some [] new) (from_some [] old)) ≡ true
      → is_empty (minus (from_some [] old) (from_some [] new)) ≡ true
      → is_some old ≡ true
      → is_some new ≡ true
      → SameAt held new
  same_stops (some xs) (some ys) (some zs) (si, dx, dy) (sz, dz, dz') p h k o n = (
    λ s. ground (
      arith,
      si s,
      member_empty s (minus zs ys) h,
      member_empty s (minus ys zs) k,
      member-minus s zs ys,
      member-minus s ys zs,
    ),
    dx,
    dz,
  )
  same_stops none (some ys) z same set p h k o n = absurd same
  same_stops none none z same set p h k o n = absurd (cc o)
  same_stops (some xs) none z same set p h k o n = absurd same
  same_stops (some xs) (some ys) none same set p h k o n = absurd (cc n)

  lookup-first : (k : I) (xs : List I) (d : Members I) → lookup k ((k, xs) ∷ d) ≡ some xs
  unfolding lookup
  lookup-first k xs d = ground (arith, e.beq_iff k k)

  lookup-later :
      (k j : I) (xs : List I) (d : Members I)
      → e.beq k j ≡ false
      → lookup j ((k, xs) ∷ d) ≡ lookup j d
  unfolding lookup
  lookup-later k j xs d h = ground (arith, h)

  lookup-none : (k : I) → lookup {V = List I} k [] ≡ none
  unfolding lookup
  lookup-none k = refl

  -- The members behind the first trip.
  pub View-rest :
      (k : I) (xs : List I) (m d : Members I)
      → lookup k m ≡ none
      → View ((k, xs) ∷ m) d
      → View m (erase k d)
  View-rest k xs m d new v j = elim (Bool-cases (e.beq k j)) [
    | inl same ↦
        let here : lookup j m ≡ none = ap (λ i. lookup i m) (sym ((e.beq_iff k j).0 same)) ∙ new in
        let gone : lookup j (erase k d) ≡ none = ground (arith, lookup-erase k j d, same) in
        subst (λ o. SameAt o (lookup j (erase k d))) (sym here) (subst (SameAt none) (sym gone) tt)
    | inr other ↦
        subst (λ o. SameAt o (lookup j (erase k d))) (lookup-later k j xs m other)
          (subst (SameAt (lookup j ((k, xs) ∷ m))) (sym (ground (arith, lookup-erase k j d, other)))
            (v j))
  ]

  -- Same members have as many trips, and as many stops.
  pub total-View :
      (f : List I → ℕ)
      → ((xs ys : List I) → Distinct xs → Distinct ys → SameItems xs ys → f xs ≡ f ys)
      → (m d : Members I) → Keyed m
      → Keyed d
      → View m d
      → total f m ≡ total f d
  total-View f same [] [] km kd v = refl
  total-View f same [] ((k, ys) ∷ d) km kd v = absurd (
      subst (SameAt none) (lookup-first k ys d)
        (subst (λ o. SameAt o (lookup k ((k, ys) ∷ d))) (lookup-none k) (v k)))
  total-View f same ((k, xs) ∷ m) d (new, km) kd v =
      let here : SameAt (some xs) (lookup k d) =
        subst (λ o. SameAt o (lookup k d)) (lookup-first k xs m) (v k) in
      elim (Option-cases (lookup k d)) [
        | inl n ↦ absurd (subst (SameAt (some xs)) n here)
        | inr (ys, n) ↦
            let (si, dx, dy) = subst (SameAt (some xs)) n here in
            omega (
              arith,
              total-erase f k ys d kd n,
              same xs ys dx dy si,
              total-View f same m (erase k d) km (erase-Keyed k d kd) (View-rest k xs m d new v),
            )
      ]

  pub length-total : (d : Members I) → length d ≡ total (λ xs. 1) d
  length-total [] = refl
  length-total ((k, xs) ∷ d) = omega (arith, length-total d)
