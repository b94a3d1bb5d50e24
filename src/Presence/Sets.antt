-- ===== src/Presence/Sets.antt =====
-- Sets as lists without repetition: membership, and their sizes.
use bkk_collector.Base.{
  suc, ◌≡◌, refl, sym, ap, ◌∙◌, arith, Bool, true, false, not, ◌&&◌, ◌||◌, List, [], ◌∷◌, ◌++◌,
  length, is_empty, any, keep, if◌then◌else◌, Bool-cases, inl, inr, Eq, option_eq, list_eq,
}
use bkk_collector.Base.Dict.{member}
use bkk_collector.Base.Sorting.{Distinct}
use bkk_collector.Tracker.{value_eq}
use bkk_collector.Presence.{add, union}

module _ {A : Type 0} ⦃e : Eq A⦄ where
  pub member-append : (a : A) (xs ys : List A) → member a (xs ++ ys) ≡ (member a xs || member a ys)
  member-append a [] ys = refl
  member-append a (x ∷ xs) ys = ground (arith, member-append a xs ys)

  pub member-keep :
      (test : A → Bool) (a : A) (xs : List A) → member a (keep test xs) ≡ (member a xs && test a)
  member-keep test a [] = refl
  member-keep test a (x ∷ xs) = elim (Bool-cases (e.beq a x)) [
    | inl same ↦ ground (arith, member-keep test a xs, ap test ((e.beq_iff a x).0 same), same)
    | inr other ↦ ground (arith, member-keep test a xs, other)
  ]

  pub keep-Distinct : (test : A → Bool) (xs : List A) → Distinct xs → Distinct (keep test xs)
  keep-Distinct test [] d = tt
  keep-Distinct test (x ∷ xs) (new, d) =
      ground (arith, keep-Distinct test xs d, member-keep test x xs, new)

  added-Distinct :
      (a : A) (xs : List A) → member a xs ≡ false → Distinct xs → Distinct (xs ++ a ∷ [])
  added-Distinct a [] h d = (refl, tt)
  added-Distinct a (x ∷ xs) h (new, d) = ground (
    arith,
    added-Distinct a xs,
    member-append x xs (a ∷ []),
    e.beq_iff a x,
    e.beq_iff x a,
    new,
    h,
    d,
  )

  pub any_none :
      (test : A → Bool) (xs : List A)
      → ((a : A) → member a xs ≡ true → test a ≡ false)
      → any test xs ≡ false
  any_none test [] h = refl
  any_none test (x ∷ xs) h = ground (
    arith,
    h x (ground (arith, e.beq_iff x x)),
    any_none test xs (λ a k. h a (ground (arith, k))),
  )

  pub no_members : (xs : List A) → ((a : A) → member a xs ≡ false) → is_empty xs ≡ true
  no_members [] h = refl
  no_members (x ∷ xs) h = absurd (ground (arith, h x, e.beq_iff x x))

  -- Two sets with the same items.
  abbrev pub SameItems : List A → List A → Type 0
  SameItems xs ys = (a : A) → member a xs ≡ member a ys

  keep_absent :
      (a : A) (xs : List A)
      → member a xs ≡ false
      → length (keep (λ x. not (e.beq a x)) xs) ≡ length xs
  keep_absent a [] h = refl
  keep_absent a (x ∷ xs) h = ground (arith, keep_absent a xs, h)

  length-remove :
      (a : A) (xs : List A)
      → Distinct xs
      → member a xs ≡ true
      → length xs ≡ suc (length (keep (λ x. not (e.beq a x)) xs))
  length-remove a [] d h = absurd (cc h)
  length-remove a (x ∷ xs) (new, d) h = elim (Bool-cases (e.beq a x)) [
    | inl same ↦
        let gone : member a xs ≡ false = ap (λ b. member b xs) ((e.beq_iff a x).0 same) ∙ new in
        ground (arith, same, keep_absent a xs gone)
    | inr other ↦ ground (arith, other, length-remove a xs d, h)
  ]

  pub length-SameItems :
      (xs ys : List A) → Distinct xs → Distinct ys → SameItems xs ys → length xs ≡ length ys
  length-SameItems [] [] dx dy h = refl
  length-SameItems [] (y ∷ ys) dx dy h = absurd (ground (arith, h y, e.beq_iff y y))
  length-SameItems (x ∷ xs) ys (new, dx) dy h =
      let test : A → Bool = λ y. not (e.beq x y) in
      let there : member x ys ≡ true = sym (h x) ∙ ground (arith, e.beq_iff x x) in
      let rest = length-SameItems xs (keep test ys) dx (keep-Distinct test ys dy) (λ a.
        elim (Bool-cases (e.beq x a)) [
          | inl same ↦ ground (arith, member-keep test a ys, same, new, (e.beq_iff x a).0 same)
          | inr other ↦
              ground (arith, member-keep test a ys, other, h a, e.beq_iff x a, e.beq_iff a x)
        ]) in
      omega (arith, rest, length-remove x ys dy there)

  pub member-add : (s x : A) (xs : List A) → member s (add x xs) ≡ (member s xs || e.beq s x)
  member-add s x xs = elim (Bool-cases (e.beq s x)) [
    | inl same ↦
        let h : member x xs ≡ member s xs = ap (λ b. member b xs) (sym ((e.beq_iff s x).0 same)) in
        elim (Bool-cases (member x xs)) [
          | inl there ↦ ground (arith, there, h, same)
          | inr new ↦
              ap (λ b. member s (if b then xs else xs ++ x ∷ [])) new
              ∙ ground (arith, member-append s xs (x ∷ []), same)
        ]
    | inr other ↦ elim (Bool-cases (member x xs)) [
      | inl there ↦
          ap (λ b. member s (if b then xs else xs ++ x ∷ [])) there ∙ ground (arith, other)
      | inr new ↦
          ap (λ b. member s (if b then xs else xs ++ x ∷ [])) new
          ∙ ground (arith, member-append s xs (x ∷ []), other)
    ]
  ]

  pub add-Distinct : (x : A) (xs : List A) → Distinct xs → Distinct (add x xs)
  add-Distinct x xs d = elim (Bool-cases (member x xs)) [
    | inl there ↦ rw there d
    | inr new ↦ rw new (added-Distinct x xs new d)
  ]

  pub member-union :
      (s : A) (xs ys : List A) → member s (union xs ys) ≡ (member s xs || member s ys)
  unfolding union
  member-union s xs [] = ground arith
  member-union s xs (y ∷ ys) = ground (arith, member-union s (add y xs) ys, member-add s y xs)

  pub union-Distinct : (xs ys : List A) → Distinct xs → Distinct (union xs ys)
  unfolding union
  union-Distinct xs [] d = d
  union-Distinct xs (y ∷ ys) d = union-Distinct (add y xs) ys (add-Distinct y xs d)
