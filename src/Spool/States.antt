-- ===== src/Spool/States.antt =====
-- storage/parquet_store.py, the states of a partition between two operations on the disk, and the
-- rows that it stands for in each of them.
use bkk_collector.Base.{
  ℕ, ◌+◌, ◌≡◌, refl, ap, ◌∙◌, arith, Bool, true, Option, none, some, List, [], ◌∷◌, ◌++◌, All,
  if◌then◌else◌, Eq, inl, inr, Bool-cases,
}
use bkk_collector.Base.Dict.{Dict, lookup, erase, member, lookup-erase}
use bkk_collector.Base.Sorting.{Keyed, total, erase-Keyed, erase_absent, erase_comm}
use bkk_collector.Spool.{Marker, Partition, has_rows}

module _ {R : Type 0} where
  -- How many rows pass a test.
  abbrev pub tally : (R → Bool) → List R → ℕ
  tally test [] = 0
  tally test (x ∷ xs) = (if test x then 1 else 0) + tally test xs

  pub tally-append :
      (test : R → Bool) (xs ys : List R) → tally test (xs ++ ys) ≡ tally test xs + tally test ys
  tally-append test [] ys = omega arith
  tally-append test (x ∷ xs) ys = omega (arith, tally-append test xs ys)

module _ {N V : Type 0} ⦃eN : Eq N⦄ where
  -- A directory without some of its files.
  abbrev pub without : List N → Dict N V → Dict N V
  without [] d = d
  without (n ∷ names) d = without names (erase n d)

  pub without-erase :
      (n : N) (names : List N) (d : Dict N V)
      → without names (erase n d) ≡ erase n (without names d)
  without-erase n [] d = refl
  without-erase n (m ∷ names) d =
      ap (without names) (erase_comm m n d) ∙ without-erase n names (erase m d)

  pub without-Keyed : (names : List N) (d : Dict N V) → Keyed d → Keyed (without names d)
  without-Keyed [] d h = h
  without-Keyed (n ∷ names) d h = without-Keyed names (erase n d) (erase-Keyed n d h)

  pub lookup-without :
      (n : N) (names : List N) (d : Dict N V)
      → lookup n (without names d) ≡ (if member n names then none else lookup n d)
  lookup-without n [] d = refl
  lookup-without n (m ∷ names) d = ground (
    arith,
    lookup-without n names (erase m d),
    lookup-erase m n d,
    eN.beq_iff m n,
    eN.beq_iff n m,
  )

  erase_twice : (n : N) (d : Dict N V) → erase n (erase n d) ≡ erase n d
  erase_twice n d = erase_absent n (erase n d) (ground (arith, lookup-erase n n d, eN.beq_iff n n))

  -- Removing a file that is left out anyway changes nothing.
  pub without-erase-member :
      (n : N) (names : List N) (d : Dict N V)
      → member n names ≡ true
      → without names (erase n d) ≡ without names d
  without-erase-member n [] d h = absurd (cc h)
  without-erase-member n (m ∷ names) d h = elim (Bool-cases (eN.beq n m)) [
    | inl same ↦
        let e : n ≡ m = (eN.beq_iff n m).0 same in
        ap (without names) (ap (λ k. erase m (erase k d)) e ∙ erase_twice m d)
    | inr other ↦
        ap (without names) (erase_comm m n d)
        ∙ without-erase-member n names (erase m d) (ground arith)
  ]

  pub without_absent :
      (names : List N) (d : Dict N V) → All (λ n. lookup n d ≡ none) names → without names d ≡ d
  without_absent [] d h = refl
  without_absent (n ∷ names) d (h, hs) =
      ap (without names) (erase_absent n d h) ∙ without_absent names d hs

module _ {N D R : Type 0} ⦃eN : Eq N⦄ ⦃eD : Eq D⦄ where
  abbrev pub claims : Partition N D R → Option (Marker N D) → List N
  claims p none = []
  claims p (some m) = if has_rows m.output m.expected_rows p then m.sources else []

  -- The segments that a recovery removes, because their rows are in an output.
  abbrev pub claimed : Partition N D R → Dict D (Option (Marker N D)) → List N
  claimed p [] = []
  claimed p ((d, m) ∷ markers) = claims p m ++ claimed p markers

  -- The rows that pass a test: those of Parquet and those of the segments that are still to commit.
  unfoldable pub readable : (R → Bool) → Partition N D R → ℕ
  readable test p =
      total (tally test) p.outputs + total (tally test) (without (claimed p p.markers) p.segments)
