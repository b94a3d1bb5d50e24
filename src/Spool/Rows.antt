-- ===== src/Spool/Rows.antt =====
-- storage/parquet_store.py, no operation of a commit or of a recovery changes the rows that a
-- partition stands for.
use bkk_collector.Base.{
  ℕ, ◌+◌, ◌≡◌, refl, sym, ap, ◌∙◌, arith, Bool, true, false, none, some, List, [], ◌∷◌, ◌++◌,
  length, nat_beq_iff, All, if◌then◌else◌, Eq, inl, inr, Bool-cases, Option-cases, append-nil,
}
use bkk_collector.Base.Dict.{
  Dict, lookup, insert, erase, has_key, member, lookup-insert, lookup-erase,
}
use bkk_collector.Base.Sorting.{Distinct, Keyed, total, erase-Keyed, total-erase, total-insert}
use bkk_collector.Spool.{
  Partition, write_marker, write_output, unlink_segment, unlink_marker, apply_op, read_all,
}
use bkk_collector.Spool.States.{
  tally, tally-append, without, without-erase-member, without_absent, claimed, readable,
}
use bkk_collector.Spool.Transitions.{marker_of, Batch, Idle, Begun, Written, write_marker-Begun}

module _ {N R : Type 0} ⦃eN : Eq N⦄ where
  read_all-erase :
      (n : N) (names : List N) (d : Dict N (List R))
      → member n names ≡ false
      → read_all names (erase n d) ≡ read_all names d
  unfolding read_all
  read_all-erase n [] d h = refl
  read_all-erase n (m ∷ names) d h =
      ground (arith, read_all-erase n names d, lookup-erase n m d, eN.beq_iff n m)

  -- The rows of a directory are those of a batch and those of the rest.
  pub total-read_all :
      (test : R → Bool) (batch : List N) (d : Dict N (List R))
      → Keyed d
      → Distinct batch
      → ((n : N) → member n batch ≡ true → has_key n d ≡ true)
      → total (tally test) d ≡ tally test (read_all batch d) + total (tally test) (without batch d)
  total-read_all test [] d k b h = unfold read_all in omega arith
  total-read_all test (n ∷ batch) d k (new, b) h = elim (Option-cases (lookup n d)) [
    | inl e ↦ absurd (ground (arith, h n, e, eN.beq_iff n n))
    | inr (rows, e) ↦
        let rest : (m : N) → member m batch ≡ true → has_key m (erase n d) ≡ true = λ m hm.
          elim (Bool-cases (eN.beq n m)) [
            | inl same ↦ absurd (ground (arith, (eN.beq_iff n m).0 same, new, hm))
            | inr other ↦ ground (arith, h m, hm, lookup-erase n m d, other)
          ] in
        let first : read_all (n ∷ batch) d ≡ rows ++ read_all batch d =
          unfold read_all in rw e refl in
        omega (
          arith,
          total-erase (tally test) n rows d k e,
          total-read_all test batch (erase n d) (erase-Keyed n d k) b rest,
          ap (tally test) (read_all-erase n batch d new),
          ap (tally test) first,
          tally-append test rows (read_all batch d),
        )
  ]

module _ {N D R : Type 0} ⦃eN : Eq N⦄ ⦃eD : Eq D⦄ (digest : List N → D) where
  pub claimed_idle : (p : Partition N D R) → p.markers ≡ [] → claimed p p.markers ≡ []
  claimed_idle p h = ap (claimed p) h

  pub claimed_absent :
      (p : Partition N D R) (batch : List N) (k : ℕ)
      → lookup (digest batch) p.outputs ≡ none
      → p.markers ≡ (digest batch, some (marker_of digest batch k)) ∷ []
      → claimed p p.markers ≡ []
  claimed_absent p batch k h e =
      ap (claimed p) e ∙ elim (Option-cases (lookup (digest batch) p.outputs)) [
        | inl n ↦ ground (arith, h)
        | inr (o, n) ↦ absurd (ground (arith, h, n))
      ]

  pub claimed_written :
      (p : Partition N D R) (batch : List N) (rows : List R)
      → lookup (digest batch) p.outputs ≡ some rows
      → p.markers ≡ (digest batch, some (marker_of digest batch (length rows))) ∷ []
      → claimed p p.markers ≡ batch
  claimed_written p batch rows h e =
      ap (claimed p) e
      ∙ ap (λ b. (if b then batch else []) ++ []) {y = true}
          (ground (arith, h, nat_beq_iff (length rows) (length rows)))
      ∙ append-nil batch

  pub readable_of :
      (test : R → Bool) (p : Partition N D R) (names : List N)
      → claimed p p.markers ≡ names
      → readable test p
        ≡ total (tally test) p.outputs + total (tally test) (without names p.segments)
  unfolding readable
  readable_of test p names h =
      ap (λ xs. total (tally test) p.outputs + total (tally test) (without xs p.segments)) h

  module _ (injective : (xs ys : List N) → digest xs ≡ digest ys → xs ≡ ys) (test : R → Bool) where
    pub readable-write_marker :
        (used batch : List N) (p : Partition N D R)
        → Idle digest used p
        → Batch digest p batch
        → readable test (
            apply_op
              (write_marker
                (digest batch)
                (marker_of digest batch (length (read_all batch p.segments))))
              p)
          ≡ readable test p
    unfolding apply_op readable
    readable-write_marker used batch p idle b =
        let q =
          apply_op
            (write_marker (digest batch)
              (marker_of digest batch (length (read_all batch p.segments))))
            p in
        let begun = write_marker-Begun digest injective used batch p idle b in
        readable_of test q []
          (claimed_absent q batch (length (read_all batch q.segments)) begun.absent begun.markers)
        ∙ sym (readable_of test p [] (claimed_idle p idle.markers))

    pub readable-write_output :
        (used batch : List N) (p : Partition N D R)
        → Begun digest used batch p
        → readable test (apply_op (write_output (digest batch) (read_all batch p.segments)) p)
          ≡ readable test p
    unfolding apply_op
    readable-write_output used batch p begun =
        let rows = read_all batch p.segments in
        let q : Partition N D R = record p { outputs = insert (digest batch) rows p.outputs } in
        let there : lookup (digest batch) q.outputs ≡ some rows = ground (
          arith,
          lookup-insert (digest batch) (digest batch) rows p.outputs,
          eD.beq_iff (digest batch) (digest batch),
        ) in
        omega (
          arith,
          readable_of test q batch (claimed_written q batch rows there begun.markers),
          readable_of test p [] (
              claimed_absent p batch (length (read_all batch p.segments)) begun.absent
                begun.markers),
          total-insert (tally test) (digest batch) rows p.outputs begun.absent,
          total-read_all test batch p.segments begun.core.keyed begun.taken.distinct
              begun.taken.present,
        )

    pub readable-unlink_segment :
        (used batch : List N) (n : N) (p : Partition N D R)
        → Written digest used batch p
        → member n batch ≡ true
        → readable test (apply_op (unlink_segment n) p) ≡ readable test p
    unfolding apply_op
    readable-unlink_segment used batch n p w h =
        let q : Partition N D R = record p { segments = erase n p.segments } in
        readable_of test q batch (claimed_written q batch w.rows w.output w.markers)
        ∙ ap (λ d. total (tally test) p.outputs + total (tally test) d)
            (without-erase-member n batch p.segments h)
        ∙ sym (readable_of test p batch (claimed_written p batch w.rows w.output w.markers))

    pub readable-unlink_marker :
        (used batch : List N) (p : Partition N D R)
        → Written digest used batch p
        → All (λ n. lookup n p.segments ≡ none) batch
        → (apply_op (unlink_marker (digest batch)) p).markers ≡ []
        → readable test (apply_op (unlink_marker (digest batch)) p) ≡ readable test p
    unfolding apply_op
    readable-unlink_marker used batch p w gone cleared =
        let q : Partition N D R = record p { markers = erase (digest batch) p.markers } in
        readable_of test q [] (claimed_idle q cleared)
        ∙ sym (
            ap (λ d. total (tally test) p.outputs + total (tally test) d)
              (without_absent batch p.segments gone))
        ∙ sym (readable_of test p batch (claimed_written p batch w.rows w.output w.markers))

    pub readable-unlink_marker-Begun :
        (used batch : List N) (p : Partition N D R)
        → Begun digest used batch p
        → (apply_op (unlink_marker (digest batch)) p).markers ≡ []
        → readable test (apply_op (unlink_marker (digest batch)) p) ≡ readable test p
    unfolding apply_op
    readable-unlink_marker-Begun used batch p begun cleared =
        let q : Partition N D R = record p { markers = erase (digest batch) p.markers } in
        readable_of test q [] (claimed_idle q cleared)
        ∙ sym (
            readable_of test p [] (
              claimed_absent p batch (length (read_all batch p.segments)) begun.absent
                begun.markers))
