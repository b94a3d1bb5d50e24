-- ===== src/Base/Sorting.antt =====
-- Python's `sorted`: insertion by a comparison of keys; and lists and dictionaries without
-- repetition.
use bkk_collector.Base.Tests.{if◌then◌else◌}
use bkk_collector.Base.Equality.{Eq}
use bkk_collector.Base.Dict.{Dict, lookup, insert, erase, member, keys, lookup-insert, lookup-erase}
use Prim.Native.Nat.{ℕ, zero, suc, ◌+◌}
use bkk_collector.Base.Lists.{take, drop, all, All}
use mathlib.Core.Path.{◌≡◌, refl, ◌∙◌}
use mathlib.Core.Bool.{Bool, true, false, ◌||◌}
use mathlib.Core.Option.{none, some}
use mathlib.Core.List.{List, [], ◌∷◌}
use native.Mathlib.Omega.{arith}

module _ {A : Type 0} (before : A → A → Bool) where
  abbrev pub place : A → List A → List A
  place a [] = a ∷ []
  place a (x ∷ xs) = let rest = place a xs in if before a x then a ∷ x ∷ xs else x ∷ rest

  abbrev pub sorted : List A → List A
  sorted [] = []
  sorted (x ∷ xs) = place x (sorted xs)

module _ {A : Type 0} ⦃e : Eq A⦄ where
  -- No item twice.
  abbrev pub Distinct : List A → Type 0
  Distinct [] = Unit
  Distinct (x ∷ xs) = (member x xs ≡ false) × Distinct xs

  pub member-place :
      (before : A → A → Bool) (b a : A) (xs : List A)
      → member b (place before a xs) ≡ (e.beq b a || member b xs)
  member-place before b a [] = refl
  member-place before b a (x ∷ xs) = ground (arith, member-place before b a xs)

  pub member-sorted :
      (before : A → A → Bool) (b : A) (xs : List A) → member b (sorted before xs) ≡ member b xs
  member-sorted before b [] = refl
  member-sorted before b (x ∷ xs) =
      ground (arith, member-place before b x (sorted before xs), member-sorted before b xs)

  place-Distinct :
      (before : A → A → Bool) (a : A) (xs : List A)
      → member a xs ≡ false
      → Distinct xs
      → Distinct (place before a xs)
  place-Distinct before a [] h d = (refl, tt)
  place-Distinct before a (x ∷ xs) h (dx, d) =
      ground (
        arith,
        place-Distinct before a xs,
        member-place before x a xs,
        e.beq_iff a x,
        e.beq_iff x a,
      )

  pub sorted-Distinct :
      (before : A → A → Bool) (xs : List A) → Distinct xs → Distinct (sorted before xs)
  sorted-Distinct before [] d = tt
  sorted-Distinct before (x ∷ xs) (h, d) =
      place-Distinct before x (sorted before xs) (member-sorted before x xs ∙ h)
        (sorted-Distinct before xs d)

  pub member-take : (a : A) (k : ℕ) (xs : List A) → member a (take k xs) ≡ true → member a xs ≡ true
  member-take a zero xs h = absurd (cc h)
  member-take a (suc k) [] h = h
  member-take a (suc k) (x ∷ xs) h = ground (arith, member-take a k xs)

  -- An item behind a position does not stand before it.
  pub member-drop :
      (a : A) (k : ℕ) (xs : List A)
      → Distinct xs
      → member a (drop k xs) ≡ true
      → (member a xs ≡ true) × (member a (take k xs) ≡ false)
  member-drop a zero xs d h = (h, refl)
  member-drop a (suc k) [] d h = (h, refl)
  member-drop a (suc k) (x ∷ xs) (new, d) h =
      let (h1, h2) = member-drop a k xs d h in ground (arith, h1, h2, new, e.beq_iff a x)

  pub member-split :
      (a : A) (k : ℕ) (xs : List A) → member a xs ≡ (member a (take k xs) || member a (drop k xs))
  member-split a zero xs = refl
  member-split a (suc k) [] = refl
  member-split a (suc k) (x ∷ xs) = ground (arith, member-split a k xs)

  pub take-Distinct : (k : ℕ) (xs : List A) → Distinct xs → Distinct (take k xs)
  take-Distinct zero xs d = tt
  take-Distinct (suc k) [] d = tt
  take-Distinct (suc k) (x ∷ xs) (new, d) =
      (ground (arith, member-take x k xs, new), take-Distinct k xs d)

  pub drop-Distinct : (k : ℕ) (xs : List A) → Distinct xs → Distinct (drop k xs)
  drop-Distinct zero xs d = d
  drop-Distinct (suc k) [] d = tt
  drop-Distinct (suc k) (x ∷ xs) (new, d) = drop-Distinct k xs d

module _ {A : Type 0} ⦃e : Eq A⦄ where
  pub member-All : (P : A → Type 0) (xs : List A) → ((a : A) → member a xs ≡ true → P a) → All P xs
  member-All P [] h = tt
  member-All P (x ∷ xs) h =
      (h x (ground (arith, e.beq_iff x x)), member-All P xs (λ a k. h a (ground (arith, k))))

  pub all-member :
      (test : A → Bool) (xs : List A)
      → ((a : A) → member a xs ≡ true → test a ≡ true)
      → all test xs ≡ true
  all-member test [] h = refl
  all-member test (x ∷ xs) h = ground (
    arith,
    h x (ground (arith, e.beq_iff x x)),
    all-member test xs (λ a k. h a (ground (arith, k))),
  )

module _ {K V : Type 0} ⦃e : Eq K⦄ where
  -- No key twice.
  abbrev pub Keyed : Dict K V → Type 0
  Keyed [] = Unit
  Keyed ((k, v) ∷ d) = (lookup k d ≡ none) × Keyed d

  -- The sum over the values.
  abbrev pub total : (V → ℕ) → Dict K V → ℕ
  total f [] = 0
  total f ((k, v) ∷ d) = f v + total f d

  pub insert-Keyed : (k : K) (v : V) (d : Dict K V) → Keyed d → Keyed (insert k v d)
  unfolding insert
  insert-Keyed k v [] h = (unfold lookup in refl, tt)
  insert-Keyed k v ((j, w) ∷ d) (n, h) =
      ground (arith, insert-Keyed k v d h, lookup-insert k j v d, e.beq_iff k j, e.beq_iff j k)

  pub erase-Keyed : (k : K) (d : Dict K V) → Keyed d → Keyed (erase k d)
  unfolding erase
  erase-Keyed k [] h = tt
  erase-Keyed k ((j, w) ∷ d) (n, h) = ground (arith, erase-Keyed k d h, lookup-erase k j d)

  pub erase_absent : (k : K) (d : Dict K V) → lookup k d ≡ none → erase k d ≡ d
  unfolding lookup erase
  erase_absent k [] h = refl
  erase_absent k ((j, w) ∷ d) h = ground (arith, erase_absent k d)

  pub erase_comm : (j k : K) (d : Dict K V) → erase j (erase k d) ≡ erase k (erase j d)
  unfolding erase
  erase_comm j k [] = refl
  erase_comm j k ((i, w) ∷ d) = ground (arith, erase_comm j k d)

  pub total-erase :
      (f : V → ℕ) (k : K) (v : V) (d : Dict K V)
      → Keyed d
      → lookup k d ≡ some v
      → total f d ≡ f v + total f (erase k d)
  unfolding lookup erase
  total-erase f k v [] h e' = absurd (cc e')
  total-erase f k v ((j, w) ∷ d) (n, h) e' =
      ground (arith, total-erase f k v d h, erase_absent k d, e.beq_iff j k, n, e')

  pub total-insert :
      (f : V → ℕ) (k : K) (v : V) (d : Dict K V)
      → lookup k d ≡ none
      → total f (insert k v d) ≡ f v + total f d
  unfolding lookup insert
  total-insert f k v [] h = refl
  total-insert f k v ((j, w) ∷ d) h = ground (arith, total-insert f k v d)

  pub lookup-keys : (k : K) (d : Dict K V) → (member k (keys d) ≡ false) → lookup k d ≡ none
  unfolding lookup
  lookup-keys k [] h = refl
  lookup-keys k ((j, w) ∷ d) h = ground (arith, lookup-keys k d, e.beq_iff j k, e.beq_iff k j)

  pub keys-lookup : (k : K) (d : Dict K V) → lookup k d ≡ none → member k (keys d) ≡ false
  unfolding lookup
  keys-lookup k [] h = refl
  keys-lookup k ((j, w) ∷ d) h = ground (arith, keys-lookup k d, e.beq_iff j k, e.beq_iff k j)

  pub keys-Distinct : (d : Dict K V) → Keyed d → Distinct (keys d)
  keys-Distinct [] h = tt
  keys-Distinct ((k, v) ∷ d) (n, h) = (keys-lookup k d n, keys-Distinct d h)

  pub erase-insert :
      (j k : K) (v : V) (d : Dict K V)
      → e.beq k j ≡ false
      → erase j (insert k v d) ≡ insert k v (erase j d)
  unfolding insert erase
  erase-insert j k v [] h = ground (arith, h, e.beq_iff k j, e.beq_iff j k)
  erase-insert j k v ((i, w) ∷ d) h =
      ground (arith, erase-insert j k v d, h, e.beq_iff k j, e.beq_iff i j, e.beq_iff i k)
