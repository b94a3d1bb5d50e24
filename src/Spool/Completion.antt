-- ===== src/Spool/Completion.antt =====
-- storage/parquet_store.py, `flush` when nothing interrupts it: no segment and no marker is left.
use bkk_collector.Base.{
  ℕ, zero, suc, ◌+◌, ◌≤◌, ◌≡◌, refl, ap, subst, ◌∙◌, arith, Bool, true, false, none, some, List, [],
  ◌∷◌, ◌++◌, map, length, take, drop, is_empty, length-drop, if◌then◌else◌, Eq, inl, inr,
}
use bkk_collector.Base.Dict.{lookup, has_key, member}
use bkk_collector.Base.Sorting.{
  Distinct, member-take, member-drop, member-split, take-Distinct, drop-Distinct,
}
use bkk_collector.Spool.{
  Partition, Marker, DiskOp, write_marker, write_output, unlink_segment, unlink_marker, apply_op,
  run, max_segments, read_all, has_rows, output_ops, commit_ops, recover_all, recover_ops,
  commit_all,
}
use bkk_collector.Spool.States.{without, lookup-without}
use bkk_collector.Spool.Transitions.{Batch, Idle, marker_of}
use bkk_collector.Spool.Commits.{Reached, commit-Reached, unlink-Reached}
use bkk_collector.Spool.Recovery.{
  unlink_marker-Begun-Reached, recover_one, recover_none, recover_ops-Begun, recover_ops-Written,
}
use bkk_collector.Spool.Staging.{Sound}

module _ {N : Type 0} where
  length-drop_batch :
      (n : N) (names : List N) → length (drop max_segments (n ∷ names)) ≤ length names
  length-drop_batch n names = omega (arith, length-drop 19 names)

module _ {N D R : Type 0} ⦃eN : Eq N⦄ ⦃eD : Eq D⦄ where
  apply_all : List (DiskOp N D R) → Partition N D R → Partition N D R
  apply_all [] p = p
  apply_all (op ∷ ops) p = apply_all ops (apply_op op p)

  run_enough :
      (k : ℕ) (ops : List (DiskOp N D R)) (p : Partition N D R)
      → run (length ops + k) ops p ≡ (k, apply_all ops p)
  unfolding run apply_all
  run_enough k [] p = ap (λ b. (b, p)) (omega arith)
  run_enough k (op ∷ ops) p =
      ap (λ b. run b (op ∷ ops) p) {y = suc (length ops + k)} (omega arith)
      ∙ run_enough k ops (apply_op op p)

  -- What comes after operations that are not cut off.
  after_ops :
      (next : ℕ → Partition N D R → ℕ × Partition N D R) (ops : List (DiskOp N D R))
      (p : Partition N D R) (steps : ℕ) (r : Partition N D R)
      → ((k : ℕ) → next (steps + k) (apply_all ops p) ≡ (k, r))
      → (k : ℕ)
      → next (run (length ops + steps + k) ops p).0 (run (length ops + steps + k) ops p).1 ≡ (k, r)
  after_ops next ops p steps r e k =
      subst (λ b. next (run b ops p).0 (run b ops p).1 ≡ (k, r)) {x = length ops + (steps + k)}
        (omega arith) (ap (λ s. next s.0 s.1) (run_enough (steps + k) ops p) ∙ e k)

  segments-unlink :
      (names : List N) (d : D) (p : Partition N D R)
      → (apply_all (map unlink_segment names ++ unlink_marker d ∷ []) p).segments
        ≡ without names p.segments
  unfolding apply_all apply_op
  segments-unlink [] d p = refl
  segments-unlink (n ∷ names) d p = segments-unlink names d (apply_op (unlink_segment n) p)

  segments-output :
      (b : Bool) (d : D) (rows : List R) (names : List N) (p : Partition N D R)
      → (apply_all
          (output_ops b d rows ++ (map unlink_segment names ++ unlink_marker d ∷ []))
          p).segments
        ≡ without names p.segments
  unfolding apply_all apply_op output_ops
  segments-output true d rows names p = segments-unlink names d p
  segments-output false d rows names p = segments-unlink names d (apply_op (write_output d rows) p)

module _ {N D R : Type 0} ⦃eN : Eq N⦄ ⦃eD : Eq D⦄ (digest : List N → D) where
  segments-commit :
      (batch : List N) (p : Partition N D R)
      → (apply_all (commit_ops digest batch p) p).segments ≡ without batch p.segments
  unfolding commit_ops apply_all apply_op
  segments-commit batch p =
      let rows = read_all batch p.segments in
      segments-output (has_rows (digest batch) (length rows) p) (digest batch) rows batch
        (apply_op (write_marker (digest batch) (marker_of digest batch (length rows))) p)

  module _ (injective : (xs ys : List N) → digest xs ≡ digest ys → xs ≡ ys) where
    -- Operations that are not cut off leave no commit open.
    enough-Idle :
        (used : List N) (ops : List (DiskOp N D R)) (p : Partition N D R)
        → ((budget : ℕ) → Reached digest (λ r. true) used p (run budget ops p))
        → Idle digest used (apply_all ops p)
    enough-Idle used ops p reached =
        let r : Reached digest (λ r. true) used p (1, apply_all ops p) =
          subst (Reached digest (λ r. true) used p) (run_enough 1 ops p)
            (reached (length ops + 1)) in
        elim r.state [ inl idle ↦ idle | inr (cut, still) ↦ absurd (cc cut) ]

    -- The loop over the batches: a number of operations after which no named segment is left.
    unfoldable pub Drained : List N → ℕ → ℕ → List N → Partition N D R → Type 0
    Drained used fuel allowed names p =
        (steps : ℕ) × (q : Partition N D R) × ((k : ℕ)
          → commit_all digest fuel allowed (steps + k) names p ≡ (k, q))
        × Idle digest used q
        × ((n : N) → lookup n q.segments ≡ none)

    -- No commit is under way, and the segments are those of a list.
    pub record Waiting (used names : List N) (p : Partition N D R) : Type 0 where
      pub idle : Idle digest used p
      pub distinct : Distinct names
      pub here : (n : N) → member n names ≡ true → has_key n p.segments ≡ true
      pub only : (n : N) → member n names ≡ false → lookup n p.segments ≡ none

    commit_ops-Waiting :
        (used names : List N) (size : ℕ) (p : Partition N D R)
        → Waiting used names p
        → is_empty (take size names) ≡ false
        → Waiting used (drop size names) (apply_all (commit_ops digest (take size names) p) p)
    commit_ops-Waiting used names size p w filled =
        let ops = commit_ops digest (take size names) p in
        let b : Batch digest p (take size names) = record {
          filled = filled;
          distinct = take-Distinct size names w.distinct;
          present = λ m k. w.here m (member-take m size names k);
        } in
        let left : (m : N)
            → lookup m (apply_all ops p).segments
              ≡ (if member m (take size names) then none else lookup m p.segments) =
          λ m.
            ap (lookup m) (segments-commit (take size names) p)
            ∙ lookup-without m (take size names) p.segments in
        record {
          idle = enough-Idle used ops p (λ budget.
              commit-Reached digest injective (λ r. true) used (take size names) budget p w.idle b);
          distinct = drop-Distinct size names w.distinct;
          here = λ m k.
              let (there, outside) = member-drop m size names w.distinct k in
              ground (arith, left m, outside, w.here m there);
          only = λ m k. ground (arith, left m, w.only m, member-split m size names, k);
        }

    pub commit_all-Drained :
        (used : List N) (fuel allowed : ℕ) (names : List N) (p : Partition N D R)
        → Waiting used names p
        → length names ≤ fuel
        → length names ≤ allowed
        → Drained used fuel allowed names p
    unfolding Drained commit_all
    commit_all-Drained used zero allowed [] p w f a =
        (0, p, λ k. ap (λ b. (b, p)) (omega arith), w.idle, λ n. w.only n refl)
    commit_all-Drained used zero allowed (n ∷ names) p w f a = absurd (omega arith)
    commit_all-Drained used (suc fuel) allowed [] p w f a =
        (0, p, λ k. ap (λ b. (b, p)) (omega arith), w.idle, λ n. w.only n refl)
    commit_all-Drained used (suc fuel) zero (n ∷ names) p w f a = absurd (omega arith)
    commit_all-Drained used (suc fuel) (suc allowed) (n ∷ names) p w f a =
        let later = drop max_segments (n ∷ names) in
        let ops = commit_ops digest (take max_segments (n ∷ names)) p in
        let (steps, r, e, idle', gone) =
          commit_all-Drained used fuel allowed later (apply_all ops p)
            (commit_ops-Waiting used (n ∷ names) max_segments p w refl)
            (omega (arith, f, length-drop_batch n names))
            (omega (arith, a, length-drop_batch n names)) in
        (
          length ops + steps,
          r,
          after_ops (λ left p'. commit_all digest fuel allowed left later p') ops p steps r e,
          idle',
          gone,
        )

    -- A recovery and the number of operations that it takes.
    unfoldable pub Cleared : List N → Partition N D R → Type 0
    Cleared used p =
        (steps : ℕ) × (q : Partition N D R) × ((k : ℕ)
          → recover_all (steps + k) p.markers p ≡ (false, k, q))
        × Idle digest used q

    recover_one-Cleared :
        (used : List N) (p : Partition N D R) (d : D) (m : Marker N D) (ops : List (DiskOp N D R))
        → p.markers ≡ (d, some m) ∷ []
        → recover_ops d m p ≡ some ops
        → ((budget : ℕ) → Reached digest (λ r. true) used p (run budget ops p))
        → Cleared used p
    unfolding Cleared
    recover_one-Cleared used p d m ops e h reached = (
      length ops,
      apply_all ops p,
      λ k.
          ap (λ ms. recover_all (length ops + k) ms p) e
          ∙ recover_one digest injective (λ r. true) (length ops + k) d m ops p h
          ∙ ap (λ s. (false, s.0, s.1)) (run_enough k ops p),
      enough-Idle used ops p reached,
    )

    pub Sound-Cleared : (used : List N) (p : Partition N D R) → Sound digest used p → Cleared used p
    Sound-Cleared used p (inl idle) =
        unfold Cleared in
        (
          0,
          p,
          λ k.
              ap (λ ms. recover_all (0 + k) ms p) idle.markers
              ∙ recover_none digest injective (λ r. true) (0 + k) p
              ∙ ap (λ b. (false, b, p)) (omega arith),
          idle,
        )
    Sound-Cleared used p (inr (inl (batch, begun))) =
        recover_one-Cleared used p (digest batch)
          (marker_of digest batch (length (read_all batch p.segments)))
          (unlink_marker (digest batch) ∷ []) begun.markers
          (recover_ops-Begun digest injective (λ r. true) used batch p begun)
          (λ budget.
            unlink_marker-Begun-Reached digest injective (λ r. true) used batch budget p begun)
    Sound-Cleared used p (inr (inr (batch, w))) =
        recover_one-Cleared used p (digest batch) (marker_of digest batch (length w.rows))
          (map unlink_segment batch ++ unlink_marker (digest batch) ∷ []) w.markers
          (recover_ops-Written digest injective (λ r. true) used batch p w)
          (λ budget.
            unlink-Reached digest injective (λ r. true) used batch batch budget p w (λ n h. h)
              (λ n h. inl h))
