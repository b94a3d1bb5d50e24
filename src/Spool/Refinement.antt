-- ===== src/Spool/Refinement.antt =====
-- storage/parquet_store.py, `DurableParquetSpool`, polls and flushes in any order: the files of a
-- partition stand for the rows that were staged.
use bkk_collector.Base.{
  ℕ, ◌+◌, ◌≡◌, refl, sym, ap, subst, ◌∙◌, arith, Bool, true, false, List, [], ◌∷◌, ◌++◌, length, Eq,
  inl, inr,
}
use bkk_collector.Base.Dict.{lookup, member, keys}
use bkk_collector.Base.Sorting.{sorted, sorted-Distinct, keys-Distinct}
use bkk_collector.Spool.{Partition, stage, recover_all, commit_all, commit_unblocked, flush}
use bkk_collector.Spool.States.{tally, tally-append, readable}
use bkk_collector.Spool.Commits.{Reached}
use bkk_collector.Spool.Recovery.{
  commit_all_cut, commit_all-Reached, recover_all-unblocked, recover_all-Recovered, Recovered,
}
use bkk_collector.Spool.Staging.{Sound, stage-Sound, sorted-present}

-- What befalls a partition: the segment of a poll, and a flush that stops before a number of
-- commits or is cut off behind a number of operations.
pub data Event (N R : Type 0) : Type 0 where
  staged : N → List R → Event N R
  flushed : (allowed budget : ℕ) → Event N R

module _ {N D R : Type 0} ⦃eN : Eq N⦄ ⦃eD : Eq D⦄ where
  abbrev pub happen : (List N → D) → (N → N → Bool) → Event N R → Partition N D R → Partition N D R
  happen digest before (staged name rows) p = stage name rows p
  happen digest before (flushed allowed budget) p = flush digest before allowed budget p

  abbrev pub history :
      (List N → D) → (N → N → Bool) → List (Event N R) → Partition N D R → Partition N D R
  history digest before [] p = p
  history digest before (e ∷ events) p = history digest before events (happen digest before e p)

module _ {N R : Type 0} ⦃eN : Eq N⦄ where
  -- The rows of the polls.
  abbrev pub polled : List (Event N R) → List R
  polled [] = []
  polled (staged name rows ∷ events) = rows ++ polled events
  polled (flushed allowed budget ∷ events) = polled events

  -- Each poll has a name of its own, as uuid4 gives.
  abbrev pub Fresh : List N → List (Event N R) → Type 0
  Fresh used [] = Unit
  Fresh used (staged name rows ∷ events) = (member name used ≡ false) × Fresh (name ∷ used) events
  Fresh used (flushed allowed budget ∷ events) = Fresh used events

module _ {N D R : Type 0} ⦃eN : Eq N⦄ ⦃eD : Eq D⦄ (digest : List N → D) where
  module _ (injective : (xs ys : List N) → digest xs ≡ digest ys → xs ≡ ys) (test : R → Bool) where
    commit_unblocked-Sound :
        (before : N → N → Bool) (allowed : ℕ) (used : List N) (p : Partition N D R)
        (r : Bool × ℕ × Partition N D R)
        → Recovered digest injective test used p r
        → Sound digest used (commit_unblocked digest before allowed r)
          × (readable test (commit_unblocked digest before allowed r) ≡ readable test p)
    unfolding Recovered
    commit_unblocked-Sound before allowed used p (true, left, q) (h, reached) = absurd (cc h)
    commit_unblocked-Sound before allowed used p (false, left, q) (h, reached) =
        let names = sorted before (keys q.segments) in
        elim reached.state [
          | inl idle ↦
              let done : Reached digest test used q
                  (commit_all digest (length names) allowed left names q) =
                commit_all-Reached digest injective test used (length names) allowed left names q
                  idle
                  (sorted-Distinct before (keys q.segments)
                    (keys-Distinct q.segments idle.core.keyed))
                  (λ n k. sorted-present before n q.segments k) in
              (
                elim done.state [ inl i ↦ inl i | inr (cut, still) ↦ inr still ],
                done.rows ∙ reached.rows,
              )
          | inr (cut, still) ↦
              let same : (commit_all digest (length names) allowed left names q) ≡ (0, q) =
                ap (λ k. commit_all digest (length names) allowed k names q) cut
                ∙ commit_all_cut digest (length names) allowed names q in
              (
                subst (Sound digest used) (sym (ap (λ r. r.1) same)) (inr still),
                ap (λ r. readable test r.1) same ∙ reached.rows,
              )
        ]

    pub flush-Sound :
        (before : N → N → Bool) (allowed budget : ℕ) (used : List N) (p : Partition N D R)
        → Sound digest used p
        → Sound digest used (flush digest before allowed budget p)
          × (readable test (flush digest before allowed budget p) ≡ readable test p)
    unfolding flush
    flush-Sound before allowed budget used p s =
        commit_unblocked-Sound before allowed used p (recover_all budget p.markers p)
          (recover_all-Recovered digest injective test used budget p s)

    pub history-Sound :
        (before : N → N → Bool) (events : List (Event N R)) (used : List N) (p : Partition N D R)
        → Fresh used events
        → Sound digest used p
        → ((later : List N) × Sound digest later (history digest before events p))
          × (readable test (history digest before events p)
              ≡ tally test (polled events) + readable test p)
    history-Sound before [] used p f s = ((used, s), omega arith)
    history-Sound before (staged name rows ∷ events) used p (new, f) s =
        let (s1, e1) = stage-Sound digest injective test name rows used p new s in
        let (s2, e2) = history-Sound before events (name ∷ used) (stage name rows p) f s1 in
        (s2, omega (arith, e1, e2, tally-append test rows (polled events)))
    history-Sound before (flushed allowed budget ∷ events) used p f s =
        let (s1, e1) = flush-Sound before allowed budget used p s in
        let (s2, e2) =
          history-Sound before events used (flush digest before allowed budget p) f s1 in
        (s2, e2 ∙ ap (λ k. tally test (polled events) + k) e1)

module _ {N D R : Type 0} where
  -- The partition of a new day.
  abbrev pub no_files : Partition N D R
  no_files = record { segments = []; markers = []; outputs = [] }

module _ {N D R : Type 0} ⦃eN : Eq N⦄ ⦃eD : Eq D⦄ (digest : List N → D) where
  pub no_files-Sound : Sound digest [] (no_files {N = N} {D = D} {R = R})
  no_files-Sound = inl (record {
    core = record {
      keyed = tt;
      known = λ n h. unfold lookup in refl;
      made = λ d rows h. absurd (unfold lookup in cc h);
    };
    markers = refl;
  })

  -- After any polls, each of a new name and flushes, each of which may stop before any commit and
  -- be cut off behind any operation, the rows of Parquet and of the segments that are still to
  -- commit are as many as those of the polls, for every test of rows, where the outputs of
  -- different segments have different names; and the next recovery does not block the partition.
  pub history-readable :
      (injective : (xs ys : List N) → digest xs ≡ digest ys → xs ≡ ys) (before : N → N → Bool)
      (events : List (Event N R))
      → Fresh [] events
      → ((test : R → Bool)
          → readable test (history digest before events no_files) ≡ tally test (polled events))
        × ((budget : ℕ)
            → (recover_all budget
                (history digest before events no_files).markers
                (history digest before events no_files)).0
              ≡ false)
  history-readable injective before events fresh = (
    λ test.
        (history-Sound digest injective test before events [] no_files fresh no_files-Sound).1
        ∙ ap (λ k. tally test (polled events) + k) {y = 0} (unfold readable in refl)
        ∙ omega arith,
    λ budget.
        let ((later, s), e) =
          history-Sound digest injective (λ r. true) before events [] no_files fresh
            no_files-Sound in
        recover_all-unblocked digest injective later budget (history digest before events no_files)
          s,
  )
