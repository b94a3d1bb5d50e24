-- ===== src/Spool/Emptying.antt =====
-- storage/parquet_store.py, `flush` when nothing interrupts it: every row is in Parquet.
use bkk_collector.Base.{
  ℕ, ◌+◌, ◌≡◌, refl, sym, ap, subst, ◌∙◌, arith, Bool, true, none, List, [], ◌∷◌, length, Eq,
}
use bkk_collector.Base.Dict.{Dict, lookup, keys}
use bkk_collector.Base.Sorting.{
  sorted, total, member-sorted, sorted-Distinct, keys-Distinct, lookup-keys,
}
use bkk_collector.Spool.{Partition, recover_all, commit_unblocked, flush}
use bkk_collector.Spool.States.{tally, without, claimed, readable}
use bkk_collector.Spool.Transitions.{Idle}
use bkk_collector.Spool.Staging.{Sound, sorted-present}
use bkk_collector.Spool.Completion.{Waiting, Drained, Cleared, commit_all-Drained, Sound-Cleared}
use bkk_collector.Spool.Refinement.{
  Event, history, polled, Fresh, no_files, history-readable, history-Sound, no_files-Sound,
  flush-Sound,
}

module _ {K V : Type 0} ⦃e : Eq K⦄ where
  no_keys : (d : Dict K V) → ((k : K) → lookup k d ≡ none) → d ≡ []
  unfolding lookup
  no_keys [] h = refl
  no_keys ((k, v) ∷ d) h = absurd (ground (arith, h k, e.beq_iff k k))

module _ {N D R : Type 0} ⦃eN : Eq N⦄ ⦃eD : Eq D⦄ where
  -- Every row is in Parquet, and nothing else is left.
  pub record Flushed (p : Partition N D R) : Type 0 where
    pub segments : p.segments ≡ []
    pub markers : p.markers ≡ []

  Flushed-readable :
      (test : R → Bool) (p : Partition N D R)
      → Flushed p
      → readable test p ≡ total (tally test) p.outputs
  unfolding readable
  Flushed-readable test p f =
      ap
        (λ ms.
          total (tally test) p.outputs + total (tally test) (without (claimed p ms) p.segments))
        f.markers
      ∙ ap (λ d. total (tally test) p.outputs + total (tally test) d) f.segments
      ∙ omega arith

module _ {N D R : Type 0} ⦃eN : Eq N⦄ ⦃eD : Eq D⦄ (digest : List N → D) where
  module _ (injective : (xs ys : List N) → digest xs ≡ digest ys → xs ≡ ys) where
    Idle-Waiting :
        (before : N → N → Bool) (used : List N) (p : Partition N D R)
        → Idle digest used p
        → Waiting digest injective used (sorted before (keys p.segments)) p
    Idle-Waiting before used p idle = record {
      idle = idle;
      distinct =
          sorted-Distinct before (keys p.segments) (keys-Distinct p.segments idle.core.keyed);
      here = λ n h. sorted-present before n p.segments h;
      only = λ n h. lookup-keys n p.segments (sym (member-sorted before n (keys p.segments)) ∙ h);
    }

    -- Enough commits and operations for a flush.
    Enough : (N → N → Bool) → Partition N D R → Type 0
    Enough before p =
        (commits : ℕ) × ((more : ℕ)
          → (steps : ℕ) × ((k : ℕ) → Flushed (flush digest before (commits + more) (steps + k) p)))

    Sound-Enough :
        (before : N → N → Bool) (used : List N) (p : Partition N D R)
        → Sound digest used p
        → Enough before p
    unfolding Cleared Drained Enough flush
    Sound-Enough before used p s =
        let (steps, q, cleared, idle) = Sound-Cleared digest injective used p s in
        let names = sorted before (keys q.segments) in
        (
          length names,
          λ more.
              let (steps', r, drained, idle', gone) =
                commit_all-Drained digest injective used (length names) (length names + more) names
                  q (Idle-Waiting before used q idle) (omega arith) (omega arith) in
              (
                steps + steps',
                λ k.
                    subst Flushed
                      (sym (
                        ap
                          (λ b.
                            commit_unblocked digest before (length names + more)
                              (recover_all b p.markers p))
                          {y = steps + (steps' + k)} (omega arith)
                        ∙ ap (commit_unblocked digest before (length names + more))
                            (cleared (steps' + k))
                        ∙ ap (λ s. s.1) (drained k)))
                      (record { segments = no_keys r.segments gone; markers = idle'.markers }),
              ),
        )

  -- After any polls of new names and any flushes, cut off or not, there are a number of commits
  -- and, for as many or more, a number of operations such that a flush that is allowed those
  -- commits and cut off behind those operations or later leaves no segment and no marker, and as
  -- many rows of the polls in Parquet as there were, for every test of rows, where the outputs of
  -- different segments have different names.
  pub flush-history :
      (injective : (xs ys : List N) → digest xs ≡ digest ys → xs ≡ ys) (before : N → N → Bool)
      (events : List (Event N R))
      → Fresh [] events
      → (commits : ℕ) × ((more : ℕ)
          → (steps : ℕ) × ((k : ℕ)
              → Flushed (
                  flush digest before
                    (commits + more)
                    (steps + k)
                    (history digest before events no_files))
                × ((test : R → Bool)
                    → total
                        (tally test)
                        (flush digest before
                          (commits + more)
                          (steps + k)
                          (history digest before events no_files)).outputs
                      ≡ tally test (polled events))))
  unfolding Enough
  flush-history injective before events fresh =
      let p = history digest before events no_files in
      let ((used, s), e) =
        history-Sound digest injective (λ r. true) before events [] no_files fresh
          (no_files-Sound digest) in
      let (commits, enough) = Sound-Enough injective before used p s in
      (
        commits,
        λ more.
            let (steps, flushed) = enough more in
            (
              steps,
              λ k. (
                flushed k,
                λ test.
                    let q = flush digest before (commits + more) (steps + k) p in
                    sym (Flushed-readable test q (flushed k))
                    ∙ (flush-Sound digest injective test before (commits + more) (steps + k) used p
                        s).1
                    ∙ (history-readable digest injective before events fresh).0 test,
              ),
            ),
      )
