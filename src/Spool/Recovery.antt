-- ===== src/Spool/Recovery.antt =====
-- storage/parquet_store.py, `_recover_commits` and the loop of `flush`: the state of a partition
-- after a flush.
use bkk_collector.Base.{
  ℕ, zero, suc, ◌≡◌, refl, sym, ap, subst, ◌∙◌, arith, Bool, true, false, not, none, some, List, [],
  ◌∷◌, ◌++◌, map, length, nat_beq_iff, all, take, drop, Eq, ◌⊎◌, inl, inr,
}
use bkk_collector.Base.Dict.{lookup, has_key, member, lookup-erase}
use bkk_collector.Base.Sorting.{
  all-member, Distinct, member-take, member-drop, take-Distinct, drop-Distinct,
}
use bkk_collector.Spool.{
  Marker, Partition, DiskOp, write_marker, write_output, unlink_segment, unlink_marker, apply_op,
  run, max_segments, has_rows, output_ops, read_all, commit_ops, recover_ops, recover_all,
  commit_all,
}
use bkk_collector.Spool.Transitions.{
  marker_of, Batch, Idle, Begun, Written, unlink_marker-Begun-Idle,
}
use bkk_collector.Spool.Rows.{readable-unlink_marker-Begun}
use bkk_collector.Spool.Commits.{Open, Reached, unlink-Reached, commit-Reached}

module _ {N D R : Type 0} ⦃eN : Eq N⦄ ⦃eD : Eq D⦄ where
  -- Whether an operation leaves a segment alone.
  abbrev keeps : N → DiskOp N D R → Bool
  keeps n (write_marker d m) = true
  keeps n (write_output d rows) = true
  keeps n (unlink_segment m) = not (eN.beq m n)
  keeps n (unlink_marker d) = true

  lookup-run :
      (n : N) (budget : ℕ) (ops : List (DiskOp N D R)) (p : Partition N D R)
      → all (keeps n) ops ≡ true
      → lookup n (run budget ops p).1.segments ≡ lookup n p.segments
  unfolding run apply_op
  lookup-run n budget [] p h = refl
  lookup-run n zero (op ∷ ops) p h = refl
  lookup-run n (suc budget) (write_marker d m ∷ ops) p h =
      lookup-run n budget ops (apply_op (write_marker d m) p) h
  lookup-run n (suc budget) (write_output d rows ∷ ops) p h =
      lookup-run n budget ops (apply_op (write_output d rows) p) h
  lookup-run n (suc budget) (unlink_segment m ∷ ops) p h =
      lookup-run n budget ops (apply_op (unlink_segment m) p) (ground (arith, h))
      ∙ ground (arith, lookup-erase m n p.segments, h)
  lookup-run n (suc budget) (unlink_marker d ∷ ops) p h =
      lookup-run n budget ops (apply_op (unlink_marker d) p) h

module _ {N D : Type 0} ⦃eN : Eq N⦄ ⦃eD : Eq D⦄ (R : Type 0) where
  keeps-unlink :
      (n : N) (names : List N) (d : D)
      → member n names ≡ false
      → all (keeps {R = R} n) (map unlink_segment names ++ unlink_marker d ∷ []) ≡ true
  keeps-unlink n [] d h = refl
  keeps-unlink n (m ∷ names) d h =
      ground (arith, keeps-unlink n names d, h, eN.beq_iff m n, eN.beq_iff n m)

module _ {N D R : Type 0} ⦃eN : Eq N⦄ ⦃eD : Eq D⦄ (digest : List N → D) where
  keeps-output_ops :
      (n : N) (batch : List N) (b : Bool) (rows : List R)
      → member n batch ≡ false
      → all (keeps n) (
          output_ops b (digest batch) rows
          ++ (map unlink_segment batch ++ unlink_marker (digest batch) ∷ []))
        ≡ true
  unfolding output_ops
  keeps-output_ops n batch true rows h = keeps-unlink R n batch (digest batch) h
  keeps-output_ops n batch false rows h = keeps-unlink R n batch (digest batch) h

  keeps-commit_ops :
      (n : N) (batch : List N) (p : Partition N D R)
      → member n batch ≡ false
      → all (keeps n) (commit_ops digest batch p) ≡ true
  unfolding commit_ops
  keeps-commit_ops n batch p h =
      let rows = read_all batch p.segments in
      keeps-output_ops n batch (has_rows (digest batch) (length rows) p) rows h

  pub commit_all_cut :
      (fuel allowed : ℕ) (names : List N) (p : Partition N D R)
      → commit_all digest fuel allowed 0 names p ≡ (0, p)
  unfolding commit_all
  commit_all_cut zero allowed names p = refl
  commit_all_cut (suc fuel) allowed [] p = refl
  commit_all_cut (suc fuel) zero (n ∷ names) p = refl
  commit_all_cut (suc fuel) (suc allowed) (n ∷ names) p =
      commit_all_cut fuel allowed (drop max_segments (n ∷ names)) p

  module _ (injective : (xs ys : List N) → digest xs ≡ digest ys → xs ≡ ys) (test : R → Bool) where
    pub commit_all-Reached :
        (used : List N) (fuel allowed budget : ℕ) (names : List N) (p : Partition N D R)
        → Idle digest used p
        → Distinct names
        → ((n : N) → member n names ≡ true → has_key n p.segments ≡ true)
        → Reached digest test used p (commit_all digest fuel allowed budget names p)
    unfolding commit_all
    commit_all-Reached used zero allowed budget names p idle d h = record {
      rows = refl;
      state = inl idle;
    }
    commit_all-Reached used (suc fuel) allowed budget [] p idle d h = record {
      rows = refl;
      state = inl idle;
    }
    commit_all-Reached used (suc fuel) zero budget (n ∷ names) p idle d h = record {
      rows = refl;
      state = inl idle;
    }
    commit_all-Reached used (suc fuel) (suc allowed) budget (n ∷ names) p idle d h =
        let batch = take max_segments (n ∷ names) in
        let b : Batch digest p batch = record {
          filled = refl;
          distinct = take-Distinct max_segments (n ∷ names) d;
          present = λ m k. h m (member-take m max_segments (n ∷ names) k);
        } in
        let r = run budget (commit_ops digest batch p) p in
        let first : Reached digest test used p r =
          commit-Reached digest injective test used batch budget p idle b in
        elim first.state [
          | inl idle' ↦
              let rest : Reached digest test used r.1
                  (commit_all digest fuel allowed r.0 (drop max_segments (n ∷ names)) r.1) =
                commit_all-Reached used fuel allowed r.0 (drop max_segments (n ∷ names)) r.1 idle'
                  (drop-Distinct max_segments (n ∷ names) d)
                  (λ m k.
                    let (there, outside) = member-drop m max_segments (n ∷ names) d k in
                    let same : lookup m r.1.segments ≡ lookup m p.segments =
                      lookup-run m budget (commit_ops digest batch p) p
                        (keeps-commit_ops m batch p outside) in
                    ground (arith, same, h m there)) in
              record { rows = rest.rows ∙ first.rows; state = rest.state }
          | inr (cut, still) ↦
              let same : commit_all digest fuel allowed r.0 (drop max_segments (n ∷ names)) r.1
                  ≡ (0, r.1) =
                ap (λ k. commit_all digest fuel allowed k (drop max_segments (n ∷ names)) r.1) cut
                ∙ commit_all_cut fuel allowed (drop max_segments (n ∷ names)) r.1 in
              subst (Reached digest test used p) (sym same)
                (record { rows = first.rows; state = inr (refl, still) })
        ]

    pub recover_none :
        (budget : ℕ) (p : Partition N D R) → recover_all budget [] p ≡ (false, budget, p)
    unfolding recover_all
    recover_none budget p = refl

    pub recover_one :
        (budget : ℕ) (d : D) (m : Marker N D) (ops : List (DiskOp N D R)) (p : Partition N D R)
        → recover_ops d m p ≡ some ops
        → recover_all budget ((d, some m) ∷ []) p
          ≡ (false, (run budget ops p).0, (run budget ops p).1)
    unfolding recover_all
    recover_one budget d m ops p h =
        ap
          (λ o. elim o [
            | none ↦ (true, budget, p)
            | some ops ↦ (false, (run budget ops p).0, (run budget ops p).1)
          ])
          h

    pub recover_ops-Begun :
        (used batch : List N) (p : Partition N D R)
        → Begun digest used batch p
        → recover_ops (digest batch) (marker_of digest batch (length (read_all batch p.segments))) p
          ≡ some (unlink_marker (digest batch) ∷ [])
    unfolding recover_ops
    recover_ops-Begun used batch p begun =
        ground
          (arith, begun.absent, all-member (λ n. has_key n p.segments) batch begun.taken.present)

    pub recover_ops-Written :
        (used batch : List N) (p : Partition N D R) (w : Written digest used batch p)
        → recover_ops (digest batch) (marker_of digest batch (length w.rows)) p
          ≡ some (map unlink_segment batch ++ unlink_marker (digest batch) ∷ [])
    unfolding recover_ops
    recover_ops-Written used batch p w =
        ground (arith, w.output, nat_beq_iff (length w.rows) (length w.rows))

    pub unlink_marker-Begun-Reached :
        (used batch : List N) (budget : ℕ) (p : Partition N D R)
        → Begun digest used batch p
        → Reached digest test used p (run budget (unlink_marker (digest batch) ∷ []) p)
    unfolding run
    unlink_marker-Begun-Reached used batch zero p begun = record {
      rows = refl;
      state = inr (refl, inl (batch, begun));
    }
    unlink_marker-Begun-Reached used batch (suc budget) p begun =
        let idle = unlink_marker-Begun-Idle digest injective used batch p begun in
        record {
          rows = readable-unlink_marker-Begun digest injective test used batch p begun idle.markers;
          state = inl idle;
        }

    -- What a recovery leaves: no partition is blocked.
    unfoldable pub Recovered : List N → Partition N D R → Bool × ℕ × Partition N D R → Type 0
    Recovered used p r = (r.0 ≡ false) × Reached digest test used p (r.1, r.2)

    pub recover_all-Recovered :
        (used : List N) (budget : ℕ) (p : Partition N D R)
        → Idle digest used p ⊎ Open digest used p
        → Recovered used p (recover_all budget p.markers p)
    unfolding Recovered
    recover_all-Recovered used budget p (inl idle) =
        subst (λ r. Recovered used p r)
          (sym (ap (λ ms. recover_all budget ms p) idle.markers ∙ recover_none budget p))
          (refl, record { rows = refl; state = inl idle })
    recover_all-Recovered used budget p (inr (inl (batch, begun))) =
        subst (λ r. Recovered used p r)
          (sym (
            ap (λ ms. recover_all budget ms p) begun.markers
            ∙ recover_one budget (digest batch)
                (marker_of digest batch (length (read_all batch p.segments)))
                (unlink_marker (digest batch) ∷ []) p (recover_ops-Begun used batch p begun)))
          (refl, unlink_marker-Begun-Reached used batch budget p begun)
    recover_all-Recovered used budget p (inr (inr (batch, w))) =
        subst (λ r. Recovered used p r)
          (sym (
            ap (λ ms. recover_all budget ms p) w.markers
            ∙ recover_one budget (digest batch) (marker_of digest batch (length w.rows))
                (map unlink_segment batch ++ unlink_marker (digest batch) ∷ []) p
                (recover_ops-Written used batch p w)))
          (
            refl,
            unlink-Reached digest injective test used batch batch budget p w (λ n h. h)
                (λ n h. inl h),
          )

  pub recover_all-unblocked :
      ((xs ys : List N) → digest xs ≡ digest ys → xs ≡ ys)
      → (used : List N) (budget : ℕ) (p : Partition N D R) → Idle digest used p ⊎ Open digest used p
      → (recover_all budget p.markers p).0 ≡ false
  unfolding Recovered
  recover_all-unblocked injective used budget p s =
      (recover_all-Recovered injective (λ r. true) used budget p s).0
