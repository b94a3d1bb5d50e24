-- ===== src/Spool/Commits.antt =====
-- storage/parquet_store.py, `_commit_segments` and `_recover_commits`, cut off behind any
-- operation: the state that a partition is left in.
use bkk_collector.Base.{
  ℕ, zero, suc, ◌≡◌, refl, sym, ap, subst, ◌∙◌, arith, Bool, true, false, none, List, [], ◌∷◌, ◌++◌,
  map, length, Eq, ◌⊎◌, inl, inr,
}
use bkk_collector.Base.Dict.{lookup, member, lookup-erase}
use bkk_collector.Base.Sorting.{member-All}
use bkk_collector.Spool.{
  Partition, write_marker, write_output, unlink_segment, unlink_marker, apply_op, run, read_all,
  commit_ops, output_ops,
}
use bkk_collector.Spool.States.{readable}
use bkk_collector.Spool.Transitions.{
  marker_of, Batch, Idle, Begun, Written, Batch-absent, write_marker-Begun, write_output-Written,
  unlink_segment-Written, unlink_marker-Idle,
}
use bkk_collector.Spool.Rows.{
  readable-write_marker, readable-write_output, readable-unlink_segment, readable-unlink_marker,
}

module _ {N D R : Type 0} ⦃eN : Eq N⦄ ⦃eD : Eq D⦄ (digest : List N → D) where
  -- A commit that was cut off.
  abbrev pub Open : List N → Partition N D R → Type 0
  Open used p =
      ((batch : List N) × Begun digest used batch p)
      ⊎ ((batch : List N) × Written digest used batch p)

  -- What operations lead to that have `left` of their budget: the rows are those of before, and a
  -- commit is open only if the budget is used up.
  pub record Reached (test : R → Bool) (used : List N) (p : Partition N D R)
      (r : ℕ × Partition N D R) : Type 0 where
    pub rows : readable test r.1 ≡ readable test p
    pub state : Idle digest used r.1 ⊎ ((r.0 ≡ 0) × Open used r.1)

  module _ (injective : (xs ys : List N) → digest xs ≡ digest ys → xs ≡ ys) (test : R → Bool) where
    pub unlink-Reached :
        (used batch names : List N) (budget : ℕ) (p : Partition N D R)
        → Written digest used batch p
        → ((n : N) → member n names ≡ true → member n batch ≡ true)
        → ((n : N) → member n batch ≡ true → (member n names ≡ true) ⊎ (lookup n p.segments ≡ none))
        → Reached test used p
            (run budget (map unlink_segment names ++ unlink_marker (digest batch) ∷ []) p)
    unfolding run
    unlink-Reached used batch [] zero p w sub cover = record {
      rows = refl;
      state = inr (refl, inr (batch, w));
    }
    unlink-Reached used batch (n ∷ names) zero p w sub cover = record {
      rows = refl;
      state = inr (refl, inr (batch, w));
    }
    unlink-Reached used batch [] (suc budget) p w sub cover =
        let gone : (n : N) → member n batch ≡ true → lookup n p.segments ≡ none =
          λ n h. elim (cover n h) [ inl k ↦ absurd (cc k) | inr k ↦ k ] in
        let idle = unlink_marker-Idle digest injective used batch p w gone in
        record {
          rows =
              readable-unlink_marker digest injective test used batch p w
                (member-All (λ n. lookup n p.segments ≡ none) batch gone) idle.markers;
          state = inl idle;
        }
    unlink-Reached used batch (n ∷ names) (suc budget) p w sub cover =
        let q = apply_op (unlink_segment n) p in
        let there : member n batch ≡ true = sub n (ground (arith, eN.beq_iff n n)) in
        let rest : Reached test used q
            (run budget (map unlink_segment names ++ unlink_marker (digest batch) ∷ []) q) =
          unlink-Reached used batch names budget q
            (unlink_segment-Written digest injective used batch n p w)
            (λ k h. sub k (ground (arith, h)))
            (λ k h.
              unfold apply_op in
              ground
                (arith, cover k h, lookup-erase n k p.segments, eN.beq_iff n k, eN.beq_iff k n)) in
        record {
          rows = rest.rows ∙ readable-unlink_segment digest injective test used batch n p w there;
          state = rest.state;
        }

    commit_ops_absent :
        (batch : List N) (p : Partition N D R)
        → lookup (digest batch) p.outputs ≡ none
        → commit_ops digest batch p
          ≡ write_marker
              (digest batch)
              (marker_of digest batch (length (read_all batch p.segments)))
            ∷ write_output (digest batch) (read_all batch p.segments)
            ∷ (map unlink_segment batch ++ unlink_marker (digest batch) ∷ [])
    unfolding commit_ops
    commit_ops_absent batch p h =
        ap
          (λ b.
            write_marker (digest batch)
              (marker_of digest batch (length (read_all batch p.segments)))
            ∷ (output_ops b (digest batch) (read_all batch p.segments)
                ++ (map unlink_segment batch ++ unlink_marker (digest batch) ∷ [])))
          {y = false} (ground (arith, h))

    write-Reached :
        (used batch : List N) (budget : ℕ) (p : Partition N D R)
        → Idle digest used p
        → Batch digest p batch
        → Reached test used p (
            run budget
              (write_marker
                  (digest batch)
                  (marker_of digest batch (length (read_all batch p.segments)))
                ∷ write_output (digest batch) (read_all batch p.segments)
                ∷ (map unlink_segment batch ++ unlink_marker (digest batch) ∷ []))
              p)
    unfolding run apply_op
    write-Reached used batch zero p idle b = record { rows = refl; state = inl idle }
    write-Reached used batch (suc zero) p idle b = record {
      rows = readable-write_marker digest injective test used batch p idle b;
      state = inr (refl, inl (batch, write_marker-Begun digest injective used batch p idle b));
    }
    write-Reached used batch (suc (suc budget)) p idle b =
        let q =
          apply_op
            (write_marker (digest batch)
              (marker_of digest batch (length (read_all batch p.segments))))
            p in
        let begun = write_marker-Begun digest injective used batch p idle b in
        let rest =
          unlink-Reached used batch batch budget
            (apply_op (write_output (digest batch) (read_all batch q.segments)) q)
            (write_output-Written digest injective used batch q begun) (λ n h. h) (λ n h. inl h) in
        record {
          rows =
              rest.rows
              ∙ readable-write_output digest injective test used batch q begun
              ∙ readable-write_marker digest injective test used batch p idle b;
          state = rest.state;
        }

    pub commit-Reached :
        (used batch : List N) (budget : ℕ) (p : Partition N D R)
        → Idle digest used p
        → Batch digest p batch
        → Reached test used p (run budget (commit_ops digest batch p) p)
    commit-Reached used batch budget p idle b =
        subst (λ ops. Reached test used p (run budget ops p))
          (sym (commit_ops_absent batch p (Batch-absent digest injective used batch p idle.core b)))
          (write-Reached used batch budget p idle b)
